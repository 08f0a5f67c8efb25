-- ===== src/Peers/Waiting.antt =====
-- How the waiting loop of `do_connect_peer` ends, and what that means for `connectpeer`.
use yuv_lightning_ldk_sample.Prelude.{
  List, ◌≡◌, Option, true, ◌↔◌, ◌∷◌, ◌⊎◌, false, Bool-cases, refl, inl, some, if◌then◌else◌, inr,
  [], ap, some_eq, ◌∙◌, none,
}
use yuv_lightning_ldk_sample.Node.{Ldk, World, call, connect_outbound}
use yuv_lightning_ldk_sample.Peers.{
  PeerApi, wait_for_peer, connect_peer_if_necessary, Wakeup, do_connect_peer, is_listed, connected,
  slept, connection_closed,
}

module _ {L : Ldk} (api : PeerApi L) where
  -- The peer is listed after some rounds in which it is not, and before the connection closes.
  pub data Appears (key : L.PublicKey) : List (Wakeup L) → Type 0 where
    now :
        {ws : List (Wakeup L)} (peers : List (L.PublicKey))
        → is_listed api key peers ≡ true
        → Appears key (slept peers ∷ ws)
    later :
        {ws : List (Wakeup L)} (peers : List (L.PublicKey))
        → is_listed api key peers ≡ false
        → Appears key ws
        → Appears key (slept peers ∷ ws)

  wait_for_peer_complete :
      {key : L.PublicKey} {ws : List (Wakeup L)}
      → Appears key ws
      → wait_for_peer api key ws ≡ connected
  unfolding wait_for_peer
  wait_for_peer_complete (now peers e) = rw e refl
  wait_for_peer_complete (later peers e a) = rw e (wait_for_peer_complete a)

  wait_for_peer_sound :
      (key : L.PublicKey) (ws : List (Wakeup L))
      → wait_for_peer api key ws ≡ connected
      → Appears key ws
  unfolding wait_for_peer
  wait_for_peer_sound key [] e = cc
  wait_for_peer_sound key (connection_closed ∷ ws) e = cc
  wait_for_peer_sound key (slept peers ∷ ws) e = elim (Bool-cases (is_listed api key peers)) [
    | inl here ↦ now peers here
    | inr gone ↦ later peers gone (wait_for_peer_sound key ws (rw gone at e))
  ]

  -- `connect_peer_if_necessary` succeeds exactly when the peer is connected before, or when a
  -- connection is made and the peer is listed in some round before the connection closes. It calls
  -- for a connection once if the peer is not connected before, and changes nothing else.
  pub connect_peer_if_necessary_iff :
      (key : L.PublicKey) (addr : L.SocketAddr) (peers : List (L.PublicKey))
      (attempt : Option (List (Wakeup L))) (w : World L)
      → (((connect_peer_if_necessary api key addr peers attempt w).1 ≡ connected) ↔ (
          (is_listed api key peers ≡ true)
          ⊎ ((ws : List (Wakeup L)) × (attempt ≡ some ws) × Appears key ws)))
        × ((connect_peer_if_necessary api key addr peers attempt w).0
            ≡ (if is_listed api key peers then w else call (connect_outbound key addr) w))
  unfolding connect_peer_if_necessary do_connect_peer
  connect_peer_if_necessary_iff key addr peers none w =
      elim (Bool-cases (is_listed api key peers)) [
        | inl here ↦ rw here ((λ h. inl refl, λ h. refl), refl)
        | inr gone ↦ rw gone ((λ h. cc, λ h. elim h [ inl e ↦ cc | inr (ws, e, a) ↦ cc ]), refl)
      ]
  connect_peer_if_necessary_iff key addr peers (some ws) w =
      elim (Bool-cases (is_listed api key peers)) [
        | inl here ↦ rw here ((λ h. inl refl, λ h. refl), refl)
        | inr gone ↦ rw gone (
          (
            λ h. inr (ws, refl, wait_for_peer_sound key ws h),
            λ h. elim h [
              | inl e ↦ cc
              | inr (vs, e, a) ↦ ap (wait_for_peer api key) (some_eq e) ∙ wait_for_peer_complete a
            ],
          ),
          refl,
        )
      ]
