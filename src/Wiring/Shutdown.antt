-- ===== src/Wiring/Shutdown.antt =====
-- src/main.rs: the end of `start_ldk`, from the `select!` on.
use yuv_lightning_ldk_sample.Prelude.{
  Bool, List, Outcome, false, if◌then◌else◌, ◌∷◌, returns, true, panics, [],
}

-- What the background processor gives: its task panicked (a `JoinError`), it failed to write, or it
-- ended by itself. The code has an arm for the first; as the program is built, with panics that
-- abort, a panic of the task ends the program before.
pub data BackgroundEnd : Type 0 where
  join_error io_error no_error : BackgroundEnd

-- what the `select!` takes first
pub data FirstExit : Type 0 where
  cli_exits : FirstExit
  background_exits : BackgroundEnd → FirstExit

-- What the program does at its end, in order.
pub data Action : Type 0 where
  stop_listening disconnect_all_peers write_manager send_exit await_background : Action

-- What the rest of the shutdown meets: whether the channel to the background processor is closed, the
-- send on it, and what the processor gives then. After a `JoinError` the program panics whether its
-- write of the channel manager succeeds or not.
pub record ShutdownAnswers : Type 0 where
  pub is_closed : Bool
  pub exit_sent : Bool
  pub awaited : BackgroundEnd

abbrev pub as_outcome : Bool → Outcome (Unit {0})
as_outcome true = returns tt
as_outcome false = panics

-- the two `unwrap`s
unfoldable pub background_ok : BackgroundEnd → Bool
background_ok join_error = false
background_ok io_error = false
background_ok no_error = true

-- `bp_exit.send(()).unwrap()`, and the await with its two `unwrap`s
unfoldable pub stop_background : ShutdownAnswers → List Action × Outcome (Unit {0})
unfolding background_ok
stop_background a =
    if a.exit_sent
    then (send_exit ∷ await_background ∷ [], as_outcome (background_ok a.awaited))
    else (send_exit ∷ [], panics)

-- `bg_res` is looked at: only an outer error leads to the write and the panic
unfoldable pub after_disconnect : FirstExit → ShutdownAnswers → List Action × Outcome (Unit {0})
unfolding stop_background
after_disconnect (background_exits join_error) a = (write_manager ∷ [], panics)
after_disconnect exit a = if a.is_closed then ([], returns tt) else stop_background a

abbrev pub after_stop : List Action × Outcome (Unit {0}) → List Action × Outcome (Unit {0})
after_stop (actions, end) = (stop_listening ∷ disconnect_all_peers ∷ actions, end)

unfoldable pub shutdown : FirstExit → ShutdownAnswers → List Action × Outcome (Unit {0})
unfolding after_disconnect
shutdown exit a = after_stop (after_disconnect exit a)
