-- ===== src/Connection/Ends.antt =====
-- src/internal/connection/service.go: how `Connect` and `Reconnect` end.
use blacktemple_kn.Prelude.{true, false, none, some, ◌≡◌}
use blacktemple_kn.Supervisor.States.{running, same_state}
use blacktemple_kn.Supervisor.Record.{Supervisor}
use blacktemple_kn.Connection.Service.{Connection, Environment, Step}
use blacktemple_kn.Connection.Connected.{IsDone, IsWoken}

module _ {W : Type 0} (env : Environment W) where
  -- What `Reconnect` leaves behind: without an error what `Connect` does, and with an error, if a child
  -- was RUNNING before, only the goroutines have changed the supervisor since a time at which none was.
  abbrev pub IsOver : Connection env.floats.F → Step W env.floats.F → Type 0
  IsOver before (w, c, none) = IsDone env before (w, c, none)
  IsOver before (w, c, some e) =
      same_state before.sup.state running ≡ true
      → (from : Supervisor env.floats.F) × IsWoken env from c.sup
        × (same_state from.state running ≡ false)
