-- ===== src/WriterFailover/Reconnect.antt =====
-- writer_failover_handler.py: `reconnect_to_writer`, task A of a failover.
pub mod Connected
pub mod Ended
use aws_advanced_python_wrap.Prelude.{
  ℕ, zero, suc, Bool, true, false, not, Option, none, some, List, [], ◌∷◌, if◌then◌else◌,
}
use aws_advanced_python_wrap.Errors.{Exc}
use aws_advanced_python_wrap.Exec.{
  Result, ok, raised, Exec, pure, gets, modify, ignore, ◌>>=◌, ◌>>◌,
}
use aws_advanced_python_wrap.Host.{HostInfo}
use aws_advanced_python_wrap.Host.Role.{HostAvailability}
use aws_advanced_python_wrap.Failover.{WriterFailoverResult}
use aws_advanced_python_wrap.WriterFailover.{Service, is_current_host_writer}

-- The local variable `conn`, and the world.
pub record Locals (W : Type 0) : Type 0 where
  pub conn : Option ℕ
  pub world : W

-- How the loop ends: with the topology and whether the host is the writer of it, or with an
-- exception that is no network exception.
pub data End : Type 0 where
  refreshed : List HostInfo → Bool → End
  refused : Exc → End

module _ {W A : Type 0} where
  abbrev pub put_world : Locals W → Result Exc A × W → Result Exc A × Locals W
  put_world s (r, w) = (r, record s { world = w })

  abbrev pub outside : Exec W Exc A → Exec (Locals W) Exc A
  outside m s = put_world s (m s.world)

module _ {W : Type 0} (v : Service W) (initial : HostInfo) where
  unfoldable pub close_conn : Option ℕ → Exec (Locals W) Exc (Unit {0})
  close_conn none = pure tt
  close_conn (some c) = outside (v.close c)

  -- The body of the inner `try`.
  unfoldable pub reconnect : Exec (Locals W) Exc (List HostInfo)
  unfolding close_conn
  reconnect = do
    old ← gets (λ s. s.conn)
    close_conn old
    c ← outside (v.force_connect initial)
    modify (λ s. record s { conn = some c })
    outside (v.force_refresh_host_list (some c))
    gets (λ s. v.all_hosts s.world)

  unfoldable pub pause : Locals W → Locals W
  pause s = record s { world = v.sleep v.reconnect_writer_interval_sec s.world }

  -- What one pass decides: `again` goes on with the loop.
  unfoldable pub after_reconnect :
      (Locals W → Option End × Locals W)
      → Result Exc (List HostInfo) × Locals W
      → Option End × Locals W
  unfolding pause
  after_reconnect again (raised e, s) =
      if v.is_network_exception e then again (pause s) else (some (refused e), s)
  after_reconnect again (ok [], s) = again (pause s)
  after_reconnect again (ok (h ∷ hosts), s) =
      (some (refreshed (h ∷ hosts) (is_current_host_writer (h ∷ hosts) initial)), s)

  unfoldable pub loop : ℕ → Locals W → Option End × Locals W
  unfolding reconnect after_reconnect
  loop zero s = (none, s)
  loop (suc fuel) s =
      let next = after_reconnect (loop fuel) (reconnect s) in
      if v.is_set s.world then (some (refreshed [] false), s) else next

  -- The `finally`.
  unfoldable pub release : Bool → Locals W → Locals W
  unfolding close_conn
  release true s = s
  release false s = (ignore (close_conn s.conn) s).1

  unfoldable pub conclude : End → Locals W → WriterFailoverResult × Locals W
  unfolding release
  conclude (refused e) s = (
    record { is_connected = false; topology = none; new_connection = none; exception = some e },
    release false s,
  )
  conclude (refreshed hosts success) s = (
    record {
      is_connected = success;
      topology = some hosts;
      new_connection = if success then s.conn else none;
      exception = none;
    },
    release success (record s {
      world = v.set_availability initial.all_aliases HostAvailability.available s.world;
    }),
  )

  unfoldable pub finish : Option End × Locals W → Option WriterFailoverResult × Locals W
  unfolding conclude
  finish (none, s) = (none, s)
  finish (some end, s) = let (r, t) = conclude end s in (some r, t)

  unfoldable pub reconnect_to_writer : ℕ → W → Option WriterFailoverResult × Locals W
  unfolding loop finish
  reconnect_to_writer fuel w = finish (loop fuel (record { conn = none; world = w }))
