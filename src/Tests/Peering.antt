-- ===== src/Tests/Peering.antt =====
-- Peers that connect and one that is disconnected, at concrete inputs.
use yuv_lightning_ldk_sample.Prelude.{
  ℕ, ◌≡◌, [], Bool, some, true, ◌∷◌, not, arith, ◌==◌, ==_iff, refl, ◌&&◌, inr,
}
use yuv_lightning_ldk_sample.Peers.{
  PeerApi, is_listed, do_disconnect_peer, has_channel_with, connect_peer_if_necessary, slept,
  connection_closed, connected,
}
use yuv_lightning_ldk_sample.Prelude.Text.{Bytes, equal, codes, Lacks}
use yuv_lightning_ldk_sample.Tests.Sample.{sample_ldk, empty_world}
use yuv_lightning_ldk_sample.Node.{call, disconnect_by_node_id}
use yuv_lightning_ldk_sample.Peers.Guards.{do_disconnect_peer_iff}
use yuv_lightning_ldk_sample.Peers.Waiting.{connect_peer_if_necessary_iff, later, now}

abbrev sample_peers : PeerApi sample_ldk
sample_peers = record { from_slice = λ bytes. some bytes; same_key = equal }

abbrev pub all_differ : ℕ → Bytes → Bool
all_differ c [] = true
all_differ c (b ∷ s) = not (b == c) && all_differ c s

pub all_differ-Lacks : (c : ℕ) (s : Bytes) → all_differ c s ≡ true → Lacks c s
all_differ-Lacks c [] h = tt
all_differ-Lacks c (b ∷ s) h = (ground (arith, ==_iff b c), all_differ-Lacks c s (ground arith))

do_disconnect_peer_iff_example :
    ((do_disconnect_peer sample_peers (2 ∷ []) [] ((2 ∷ []) ∷ []) empty_world).1 ≡ true)
    × ((do_disconnect_peer sample_peers (2 ∷ []) [] ((2 ∷ []) ∷ []) empty_world).0
        ≡ call (disconnect_by_node_id (2 ∷ [])) empty_world)
unfolding is_listed equal do_disconnect_peer has_channel_with
do_disconnect_peer_iff_example =
    let r = do_disconnect_peer_iff sample_peers (2 ∷ []) [] ((2 ∷ []) ∷ []) empty_world in
    (r.0.1 (refl, tt), r.1)

connect_peer_if_necessary_iff_example :
    (connect_peer_if_necessary sample_peers
      (2 ∷ [])
      (codes "a:1")
      []
      (some (slept [] ∷ slept ((2 ∷ []) ∷ []) ∷ connection_closed ∷ []))
      empty_world).1
    ≡ connected
unfolding is_listed equal
connect_peer_if_necessary_iff_example =
    (connect_peer_if_necessary_iff sample_peers (2 ∷ []) (codes "a:1") []
        (some (slept [] ∷ slept ((2 ∷ []) ∷ []) ∷ connection_closed ∷ [])) empty_world).0.1
      (inr (
        slept [] ∷ slept ((2 ∷ []) ∷ []) ∷ connection_closed ∷ [],
        refl,
        later [] refl (now ((2 ∷ []) ∷ []) refl),
      ))
