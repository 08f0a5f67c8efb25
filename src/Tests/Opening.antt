-- ===== src/Tests/Opening.antt =====
-- A peer that is saved and a channel that is opened to it, at concrete inputs.
use yuv_lightning_ldk_sample.Payments.{Network}
use yuv_lightning_ldk_sample.Cli.Language.Opening.{world_after, openchannel-connectpeer}
use yuv_lightning_ldk_sample.Prelude.{
  ◌≡◌, ℕ, Bool, true, suc, ◌∷◌, All, ◌++◌, some, not, zero, [], ◌&&◌, refl, arith, none, false, ap,
}
use yuv_lightning_ldk_sample.Peers.{
  PeerApi, parse_peer_info, connect_peer_if_necessary, is_listed, parse_parts, with_address,
  with_pubkey, connected, peer_info, read_lines, do_connect_peer,
}
use yuv_lightning_ldk_sample.Cli.Commands.{CommandAnswers, prompts}
use yuv_lightning_ldk_sample.Prelude.Text.{Bytes, codes, split, equal, is_whitespace}
use yuv_lightning_ldk_sample.Node.{World, call, Call}
use yuv_lightning_ldk_sample.Cli.Loop.{run_line}
use yuv_lightning_ldk_sample.Tests.Commanding.{config_ldk, no_payments, sample_cli, copies}
use yuv_lightning_ldk_sample.Tests.Sessions.{
  any_key, fresh_answers, sample_print, config_world, sample_key, all_below_256-IsByte,
}
use yuv_lightning_ldk_sample.Prelude.Spaces.{IsPlain}
use yuv_lightning_ldk_sample.HexUtils.{to_compressed_pubkey, to_vec, to_vec_loop, nibble}
use yuv_lightning_ldk_sample.Cli.Language.{
  typed_text, connect_to_peer, open_to_peer, public_channel,
}
use yuv_lightning_ldk_sample.Prelude.Assoc.{get}

-- a node that reads every key of 33 bytes, with the resolver
abbrev open_peers : PeerApi config_ldk
open_peers = record any_key { same_key = equal }

-- the 33 bytes of `sample_key` in hexadecimal, and an address
abbrev peer_text : ℕ → Bytes
peer_text zero = codes "@b:2"
peer_text (suc n) = codes "03" ++ peer_text n

abbrev all_plain : Bytes → Bool
all_plain [] = true
all_plain (c ∷ s) = not (is_whitespace c) && all_plain s

all_plain-IsPlain : (s : Bytes) → all_plain s ≡ true → All IsPlain s
all_plain-IsPlain [] h = tt
all_plain-IsPlain (c ∷ s) h = (ground arith, all_plain-IsPlain s (ground arith))

peer_text-parses :
    (addr : Bytes)
    → parse_peer_info open_peers (λ text. some (some addr)) (peer_text 33)
      ≡ peer_info (copies 33 3) addr
unfolding parse_peer_info split parse_parts with_address with_pubkey to_compressed_pubkey to_vec
    to_vec_loop nibble
peer_text-parses addr = refl

-- `connectpeer` fails to connect to the address that its text has by then
abbrev first_answers : CommandAnswers config_ldk
first_answers = record fresh_answers { resolve = λ n text. some (some (codes "b:2")) }

-- later the peer has connected, and its text has another address
abbrev joined_answers : CommandAnswers config_ldk
joined_answers = record fresh_answers {
  peers = copies 33 3 ∷ [];
  resolve = λ n text. some (some (codes "c:3"));
}

abbrev saved_world : World config_ldk
saved_world =
    world_after no_payments open_peers sample_cli sample_print Network.regtest first_answers
      (connect_to_peer (peer_text 33)) config_world

-- the world of the later line, after a `configchannel`
abbrev later_world : World config_ldk
later_world = record saved_world { default_config = (7, 2) }

joined :
    (connect_peer_if_necessary open_peers
      (copies 33 3)
      (codes "c:3")
      joined_answers.peers
      joined_answers.attempt
      later_world)
    ≡ (later_world, connected)
unfolding connect_peer_if_necessary is_listed equal
joined = refl

openchannel-connectpeer_example :
    run_line no_payments open_peers sample_cli sample_print Network.regtest joined_answers
      (typed_text (open_to_peer sample_key 20000 (public_channel true ∷ [])))
      later_world
    ≡ (
      call
          (Call.create_channel (copies 33 3) 20000 none (
            sample_cli.set_announced_channel true
              (sample_cli.set_negotiate_anchors false later_world.default_config)))
          (connect_peer_if_necessary open_peers
            (copies 33 3)
            (codes "c:3")
            joined_answers.peers
            joined_answers.attempt
            later_world).0,
      prompts,
    )
openchannel-connectpeer_example =
    openchannel-connectpeer no_payments open_peers sample_cli sample_print Network.regtest
      first_answers joined_answers (peer_text 33) [] [] sample_key (codes "b:2") (codes "c:3") 20000
      (public_channel true ∷ []) config_world later_world (unfold equal in refl)
      (refl, all_plain-IsPlain (peer_text 33) (unfold is_whitespace in refl))
      (peer_text-parses (codes "b:2"))
      (unfold connect_peer_if_necessary is_listed do_connect_peer in λ e. cc) (unfold get in refl)
      tt refl (unfold read_lines in refl) (peer_text-parses (codes "c:3"))
      (
        record { size = refl; bytes = all_below_256-IsByte (copies 33 3) refl; reads = refl },
        omega arith,
        (tt, tt),
      )
      (ap (λ r. r.1) joined)
