-- ===== src/Wiring/Network.antt =====
-- src/main.rs, `start_ldk`: the task that listens and the task that reconnects, which read the flag
-- `stop_listen_connect`. Each runs on a thread of its own, so that the flag may be set between any two
-- of their steps: reading the flag and what is done then are two steps. `K` is a connection, or what
-- one is made from. The connections that the command line makes do not go through these tasks.
use yuv_lightning_ldk_sample.Prelude.{◌≡◌, List, Bool, true, ◌∷◌, ◌++◌, [], if◌then◌else◌}

-- Where the listening task is: in `accept()`, before and behind the test of the flag, or at its end.
pub data Listener (K : Type 0) : Type 0 where
  accepting : Listener K
  accepted : K → Listener K
  spawning : K → Listener K
  listener_ended : Listener K

-- Where the reconnecting task is: between two rounds; in a round before the next channel peer, with
-- the saved connections of each peer that is left; trying those of one peer; or at its end.
pub data Reconnecter (K : Type 0) : Type 0 where
  resting : Reconnecter K
  before_peer : List (List K) → Reconnecter K
  trying : List K → List (List K) → Reconnecter K
  reconnecter_ended : Reconnecter K

pub record Net (K : Type 0) : Type 0 where
  pub stopped : Bool
  pub listener : Listener K
  pub reconnecter : Reconnecter K

module _ {K : Type 0} where
  -- The next step of the listening task, with the connections that it sets up: `c` is what `accept()`
  -- gives, if the task is there.
  unfoldable pub listen : K → Bool → Listener K → Listener K × List K
  listen c stopped accepting = (accepted c, [])
  listen c stopped (accepted d) = if stopped then (listener_ended, []) else (spawning d, [])
  listen c stopped (spawning d) = (accepting, d ∷ [])
  listen c stopped listener_ended = (listener_ended, [])

  -- The next step of the reconnecting task, with the connections that it tries: `peers` are the ones
  -- that a round finds, if the task starts one.
  unfoldable pub reconnect : List (List K) → Bool → Reconnecter K → Reconnecter K × List K
  reconnect peers stopped resting = (before_peer peers, [])
  reconnect peers stopped (before_peer []) = (resting, [])
  reconnect peers stopped (before_peer (addrs ∷ rest)) =
      if stopped then (reconnecter_ended, []) else (trying addrs rest, [])
  reconnect peers stopped (trying [] rest) = (before_peer rest, [])
  reconnect peers stopped (trying (a ∷ addrs) rest) = (trying addrs rest, a ∷ [])
  reconnect peers stopped reconnecter_ended = (reconnecter_ended, [])

  -- `stop_listen_connect.store(true, …)`
  unfoldable pub set_stopped : Net K → Net K
  set_stopped n = record n { stopped = true }

  -- The steps of the tasks in any order, with the connections that the listening task set up and those
  -- that the reconnecting task tried, in their order.
  pub data NetRun (n : Net K) : Net K → List K → List K → Type 0 where
    here : NetRun n n [] []
    listens :
        {m : Net K} {ls rs : List K}
        → NetRun n m ls rs
        → (c : K)
        → NetRun n
            (record m { listener = (listen c m.stopped m.listener).0 })
            (ls ++ (listen c m.stopped m.listener).1)
            rs
    reconnects :
        {m : Net K} {ls rs : List K}
        → NetRun n m ls rs
        → (peers : List (List K))
        → NetRun n
            (record m { reconnecter = (reconnect peers m.stopped m.reconnecter).0 })
            ls
            (rs ++ (reconnect peers m.stopped m.reconnecter).1)
    stops : {m : Net K} {ls rs : List K} → NetRun n m ls rs → NetRun n (set_stopped m) ls rs

  -- the connection for which the flag was read and not set
  abbrev pub held : Listener K → List K
  held (spawning c) = c ∷ []
  held _ = []

  -- the connections that are left of the peer for which the flag was read and not set
  abbrev pub left_to_try : Reconnecter K → List K
  left_to_try (trying addrs rest) = addrs
  left_to_try _ = []

  -- What is set up or tried after the stop is what the tasks held then.
  record IsDrained (n m : Net K) (ls rs : List K) : Type 0 where
    is_stopped : m.stopped ≡ true
    set_up : ls ++ held m.listener ≡ held n.listener
    tried : rs ++ left_to_try m.reconnecter ≡ left_to_try n.reconnecter
