-- ===== src/Cli/Language/Opening.antt =====
-- src/cli.rs: `openchannel` to a peer that `connectpeer` saved before it.
use yuv_lightning_ldk_sample.Prelude.{
  ◌≡◌, ℕ, All, ◌≢◌, arith, ◌∷◌, ◌==◌, [], ==_iff, false, ap, refl, Bool-cases, inl, ◌∙◌, inr, List,
  true, some, length,
}
use yuv_lightning_ldk_sample.Prelude.Text.{is_whitespace, Bytes, Lacks, strip_return}
use yuv_lightning_ldk_sample.Node.{Ldk, World, peer_data_fname}
use yuv_lightning_ldk_sample.Payments.{PaymentApi, Network}
use yuv_lightning_ldk_sample.Peers.{
  read_channel_peer_data, PeerApi, connect_peer_if_necessary, Connection, connecting,
  persist_channel_peer, peer_info, connected, is_listed, not_connected, read_lines, insert_peer,
}
use yuv_lightning_ldk_sample.Prelude.Spaces.{IsPlain}
use yuv_lightning_ldk_sample.Cli.Words.{CliApi}
use yuv_lightning_ldk_sample.Cli.Listing.{PrintApi}
use yuv_lightning_ldk_sample.Cli.ChannelCommands.{save_peer, connect_to}
use yuv_lightning_ldk_sample.Cli.Commands.{
  CommandAnswers, open_when, prompts, open_to, open_at, initiate_open,
}
use yuv_lightning_ldk_sample.Cli.Language.{
  Command, IsWord, typed_text, parse_peer_info, connect_to_peer, KeyText, Flag, IsCommand,
  open_to_peer, call, Call, set_flags, no_flags,
}
use yuv_lightning_ldk_sample.Cli.Loop.{run_line}
use yuv_lightning_ldk_sample.Peers.Waiting.{connect_peer_if_necessary_iff}
use yuv_lightning_ldk_sample.Cli.Language.Typed.{run_line-typed_text}
use yuv_lightning_ldk_sample.Peers.Saved.{
  saved_text, read_channel_peer_data-persist, get_peer-insert_peer, read_channel_peer_data-get,
}
use yuv_lightning_ldk_sample.Prelude.Assoc.{get}
use yuv_lightning_ldk_sample.Prelude.Lines.{text_of, IsLine}

unfolded_plain : (c : ℕ) → IsPlain c → (c ≢ b'\n') × (c ≢ b'\r')
unfolding is_whitespace
unfolded_plain c h = ground (arith, h, ==_iff c b'\n', ==_iff c b'\r')

word-Lacks : (s : Bytes) → All IsPlain s → Lacks b'\n' s
word-Lacks [] h = tt
word-Lacks (c ∷ s) h = ((unfolded_plain c (h.0)).0, word-Lacks s h.1)

word-strip_return : (s : Bytes) → All IsPlain s → strip_return s ≡ s
word-strip_return [] h = refl
word-strip_return (c ∷ []) h =
    let other : (c == b'\r') ≡ false = ground (arith, ==_iff c b'\r', (unfolded_plain c (h.0)).1) in
    rw other refl
word-strip_return (c ∷ d ∷ s) h = ap (λ t. c ∷ t) (word-strip_return (d ∷ s) h.1)

module _ {L : Ldk} (api : PaymentApi L) (peer : PeerApi L) (cli : CliApi L) (print : PrintApi L)
    (network : Network) where
  connect_store :
      (key : L.PublicKey) (addr : L.SocketAddr) (a : CommandAnswers L) (w : World L)
      → (connect_peer_if_necessary peer key addr a.peers a.attempt w).0.store ≡ w.store
  connect_store key addr a w =
      rw ((connect_peer_if_necessary_iff peer key addr a.peers a.attempt w).1)
        (elim (Bool-cases (is_listed peer key a.peers)) [
          | inl here ↦ rw here refl
          | inr gone ↦ rw gone refl
        ])

  saved_after :
      (info : Bytes) (w : World L) (c : Connection)
      → c ≢ connecting
      → (save_peer peer cli info (w, c)).0 ≡ persist_channel_peer peer info w
  unfolding save_peer
  saved_after info w connected h = refl
  saved_after info w not_connected h = refl
  saved_after info w connecting h = absurd (h refl)

  -- the world after a line
  abbrev pub world_after : CommandAnswers L → Command L → World L → World L
  world_after a cmd w = (run_line api peer cli print network a (typed_text cmd) w).0

  world_after-connect :
      (a : CommandAnswers L) (info : Bytes) (key : L.PublicKey) (addr : L.SocketAddr) (w : World L)
      → IsWord info
      → parse_peer_info peer (a.resolve 0) info ≡ peer_info key addr
      → (connect_peer_if_necessary peer key addr a.peers a.attempt w).1 ≢ connecting
      → world_after a (connect_to_peer info) w
        ≡ persist_channel_peer peer info
            (connect_peer_if_necessary peer key addr a.peers a.attempt w).0
  world_after-connect a info key addr w word parsed ended =
      ap (λ r. r.0) (run_line-typed_text api peer cli print network a w (connect_to_peer info) word)
      ∙ ap (λ p. (connect_to peer cli a info p w).0) parsed
      ∙ (unfold connect_to in saved_after info _ _ ended)

  connected_open :
      (r : World L × Connection) (open_channel : World L → World L)
      → r.1 ≡ connected
      → open_when api peer cli r.1 open_channel r.0 ≡ (open_channel r.0, prompts)
  unfolding open_when
  connected_open r open_channel h = rw h refl

  -- The text of `connectpeer` is a word that parses to a key and an address, and its attempt to
  -- connect comes to an end, whether it succeeds or not. Later `openchannel` with that key is typed,
  -- in any world `v` in which the file of the peers is as `connectpeer` left it; the lines before are
  -- read then, and the resolver has an address for the saved text, be it the same one or another. If
  -- the peer is connected by then, or the attempt to connect to this address succeeds,
  -- the channel is asked for, with the amount, the pixel and the configuration of the flags that
  -- were typed.
  pub openchannel-connectpeer :
      (a b : CommandAnswers L) (info : Bytes) (infos : List Bytes)
      (known : List (L.PublicKey × L.SocketAddr)) (k : KeyText L) (addr addr' : L.SocketAddr)
      (amt : ℕ) (flags : List (Flag L)) (w v : World L)
      → peer.same_key k.key k.key ≡ true
      → IsWord info
      → parse_peer_info peer (a.resolve 0) info ≡ peer_info k.key addr
      → (connect_peer_if_necessary peer k.key addr a.peers a.attempt w).1 ≢ connecting
      → saved_text peer (get peer_data_fname w.store) ≡ text_of infos
      → All IsLine infos
      → get peer_data_fname v.store
        ≡ get peer_data_fname (world_after a (connect_to_peer info) w).store
      → read_lines peer b.resolve 0 infos [] ≡ some known
      → parse_peer_info peer (b.resolve (length infos)) info ≡ peer_info k.key addr'
      → IsCommand peer cli (open_to_peer k amt flags)
      → (connect_peer_if_necessary peer k.key addr' b.peers b.attempt v).1 ≡ connected
      → run_line api peer cli print network b (typed_text (open_to_peer k amt flags)) v ≡ (
        call
            (Call.create_channel k.key amt (set_flags flags no_flags).yuv_pixel (
              cli.set_announced_channel (set_flags flags no_flags).announce_channel (
                cli.set_negotiate_anchors
                  (set_flags flags no_flags).with_anchors
                  v.default_config)))
            (connect_peer_if_necessary peer k.key addr' b.peers b.attempt v).0,
        prompts,
      )
  openchannel-connectpeer a b info infos known k addr addr' amt flags w v same word parsed ended
        saved lined unchanged read resolved cmd joined =
      let w' = (connect_peer_if_necessary peer k.key addr a.peers a.attempt w).0 in
      let after = world_after-connect a info k.key addr w word parsed ended in
      let stored : saved_text peer (get peer_data_fname w'.store) ≡ text_of infos =
        ap (λ s. saved_text peer (get peer_data_fname s)) (connect_store k.key addr a w) ∙ saved in
      let same_file = unchanged ∙ ap (λ (u : World L). get peer_data_fname u.store) after in
      let reads : read_channel_peer_data peer b.resolve v.store
          ≡ some (insert_peer peer k.key addr' known) =
        read_channel_peer_data-get peer b.resolve v.store _ same_file
        ∙ read_channel_peer_data-persist peer b.resolve info infos known k.key addr' w'
            (word-Lacks info (word.1), word-strip_return info (word.1)) resolved stored lined
            read in
      let found = get_peer-insert_peer peer k.key addr' known same in
      run_line-typed_text api peer cli print network b v (open_to_peer k amt flags) cmd
      ∙ (unfold open_to open_at initiate_open in rw (reads, found) (connected_open _ _ joined))
