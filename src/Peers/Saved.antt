-- ===== src/Peers/Saved.antt =====
-- What is read back of the peers that `connectpeer` saves.
use yuv_lightning_ldk_sample.Prelude.{
  List, ◌++◌, ◌∷◌, All, ◌≡◌, [], some, refl, none, ap, Option, All-append, sym, true, Bool-cases,
  inl, inr, some_eq, ℕ, ◌+◌, length, arith,
}
use yuv_lightning_ldk_sample.Prelude.Text.{Bytes, equal_self}
use yuv_lightning_ldk_sample.Node.{Ldk, World, peer_data_fname}
use yuv_lightning_ldk_sample.Peers.{
  PeerApi, insert_peer, parse_peer_info, persist_channel_peer, read_lines, read_channel_peer_data,
  peer_info, get, get_peer, PeerInfo, read_line, peer_error, Resolve, Assoc, read_text,
}
use yuv_lightning_ldk_sample.Prelude.Assoc.{get-insert}
use yuv_lightning_ldk_sample.Prelude.Lines.{lines-text_of, IsLine, text_of, text_of-append}

module _ {L : Ldk} (api : PeerApi L) where
  read_line-then :
      (go go' : List (L.PublicKey × L.SocketAddr) → Option (List (L.PublicKey × L.SocketAddr)))
      (f : List (L.PublicKey × L.SocketAddr) → List (L.PublicKey × L.SocketAddr)) (p : PeerInfo L)
      (peers known : List (L.PublicKey × L.SocketAddr))
      → ((ps : List (L.PublicKey × L.SocketAddr)) → go ps ≡ some known → go' ps ≡ some (f known))
      → read_line api go p peers ≡ some known
      → read_line api go' p peers ≡ some (f known)
  read_line-then go go' f (peer_info k a) peers known then e = then (insert_peer api k a peers) e
  read_line-then go go' f (peer_error x) peers known then e = cc

  -- a line behind the others
  read_lines-append :
      (resolve : ℕ → Resolve L) (info : Bytes) (infos : List Bytes) (n : ℕ)
      (peers known : List (L.PublicKey × L.SocketAddr)) (key : L.PublicKey) (addr : L.SocketAddr)
      → parse_peer_info api (resolve (n + length infos)) info ≡ peer_info key addr
      → read_lines api resolve n infos peers ≡ some known
      → read_lines api resolve n (infos ++ info ∷ []) peers ≡ some (insert_peer api key addr known)
  unfolding read_lines
  read_lines-append resolve info [] n peers known key addr h e =
      let here : n + 0 ≡ n = omega arith in
      let parsed : parse_peer_info api (resolve n) info ≡ peer_info key addr = rw here at h in
      rw parsed (ap (λ ps. some (insert_peer api key addr ps)) (some_eq e))
  read_lines-append resolve info (line ∷ infos) n peers known key addr h e =
      let next : n + length (line ∷ infos) ≡ n + 1 + length infos = omega arith in
      read_line-then (read_lines api resolve (n + 1) infos)
        (read_lines api resolve (n + 1) (infos ++ info ∷ [])) (insert_peer api key addr)
        (parse_peer_info api (resolve n) line) peers known
        (λ ps e'. read_lines-append resolve info infos (n + 1) ps known key addr (rw next at h) e')
        e

  -- the bytes of the file, if there is one
  abbrev pub saved_text : Option Bytes → Bytes
  saved_text none = []
  saved_text (some text) = text

  appended :
      (o : Option Bytes) (infos : List Bytes) (info : Bytes)
      → saved_text o ≡ text_of infos
      → (elim o [ none ↦ [] | some text ↦ text ]) ++ (info ++ b'\n' ∷ [])
        ≡ text_of (infos ++ info ∷ [])
  appended none infos info e = rw (text_of-append, sym e) refl
  appended (some text) infos info e = rw (text_of-append, sym e) refl

  -- A peer is saved behind those that the file holds.
  pub read_channel_peer_data-persist :
      (resolve : ℕ → Resolve L) (info : Bytes) (infos : List Bytes)
      (known : List (L.PublicKey × L.SocketAddr)) (key : L.PublicKey) (addr : L.SocketAddr)
      (w : World L)
      → IsLine info
      → parse_peer_info api (resolve (length infos)) info ≡ peer_info key addr
      → saved_text (get peer_data_fname w.store) ≡ text_of infos
      → All IsLine infos
      → read_lines api resolve 0 infos [] ≡ some known
      → read_channel_peer_data api resolve (persist_channel_peer api info w).store
        ≡ some (insert_peer api key addr known)
  unfolding read_channel_peer_data persist_channel_peer
  read_channel_peer_data-persist resolve info infos known key addr w h parsed saved lined e =
      let first : length infos ≡ 0 + length infos = omega arith in
      rw
        (
          get-insert peer_data_fname peer_data_fname _ w.store,
          equal_self peer_data_fname,
          appended (get peer_data_fname w.store) infos info saved,
          lines-text_of (infos ++ info ∷ []) (All-append IsLine infos (info ∷ []) lined (h, tt)),
        )
        (read_lines-append resolve info infos 0 [] known key addr (rw first at parsed) e)

  pub read_channel_peer_data-get :
      (resolve : ℕ → Resolve L) (s t : Assoc Bytes)
      → get peer_data_fname s ≡ get peer_data_fname t
      → read_channel_peer_data api resolve s ≡ read_channel_peer_data api resolve t
  unfolding read_channel_peer_data
  read_channel_peer_data-get resolve s t e = ap (read_text api resolve) e

  pub get_peer-insert_peer :
      (key : L.PublicKey) (addr : L.SocketAddr) (peers : List (L.PublicKey × L.SocketAddr))
      → api.same_key key key ≡ true
      → get_peer api key (insert_peer api key addr peers) ≡ some addr
  unfolding get_peer insert_peer
  get_peer-insert_peer key addr [] h = rw h refl
  get_peer-insert_peer key addr ((k, a) ∷ peers) h = elim (Bool-cases (api.same_key k key)) [
    | inl same ↦ rw (same, h) refl
    | inr other ↦ rw (other, other) (get_peer-insert_peer key addr peers h)
  ]
