-- ===== src/Peers/Guards.antt =====
-- When a peer is called, and when it is left.
use yuv_lightning_ldk_sample.Prelude.{
  ◌≡◌, List, true, false, ◌↔◌, All, ◌∷◌, if◌then◌else◌, arith, [], refl, Bool-cases, inl, inr,
}
use yuv_lightning_ldk_sample.Node.{Ldk, World, call, disconnect_by_node_id}
use yuv_lightning_ldk_sample.Peers.{
  PeerApi, ChannelDetails, has_channel_with, do_disconnect_peer, is_listed,
}

module _ {L : Ldk} (api : PeerApi L) where
  -- The channel is with another peer.
  abbrev pub IsWithOther : L.PublicKey → ChannelDetails L → Type 0
  IsWithOther key c = api.same_key c.counterparty_node_id key ≡ false

  has_channel_with_iff :
      (key : L.PublicKey) (cs : List (ChannelDetails L))
      → (has_channel_with api key cs ≡ false) ↔ All (IsWithOther key) cs
  unfolding has_channel_with
  has_channel_with_iff key [] = (λ h. tt, λ h. refl)
  has_channel_with_iff key (c ∷ cs) =
      let rest = has_channel_with_iff key cs in
      (λ h. (ground arith, rest.0 (ground arith)), λ h. rw (h.0, rest.1 h.1))

  -- `do_disconnect_peer` succeeds exactly when the node is connected to the peer and has no channel
  -- with it; it makes its one call then, and else it changes nothing.
  pub do_disconnect_peer_iff :
      (key : L.PublicKey) (channels : List (ChannelDetails L)) (peers : List (L.PublicKey))
      (w : World L)
      → (((do_disconnect_peer api key channels peers w).1 ≡ true)
          ↔ ((is_listed api key peers ≡ true) × All (IsWithOther key) channels))
        × ((do_disconnect_peer api key channels peers w).0 ≡ (
            if (do_disconnect_peer api key channels peers w).1
            then call (disconnect_by_node_id key) w
            else w))
  unfolding do_disconnect_peer
  do_disconnect_peer_iff key channels peers w =
      let alone = has_channel_with_iff key channels in
      elim (Bool-cases (has_channel_with api key channels)) [
        | inl busy ↦ rw busy ((λ h. cc, λ h. cc (busy, alone.1 h.1)), refl)
        | inr free ↦ elim (Bool-cases (is_listed api key peers)) [
          | inl here ↦ rw (free, here) ((λ h. (refl, alone.0 free), λ h. refl), refl)
          | inr gone ↦ rw (free, gone) ((λ h. cc, λ h. cc (h.0)), refl)
        ]
      ]
