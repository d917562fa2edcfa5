-- ===== src/HostMonitoring/Monitor.antt =====
-- host_monitoring_plugin.py: `Monitor`, the body of the thread that checks one host. A context is a
-- number, since the queues and the callers share the object; `store` holds what each one is. What
-- runs between two waits of the thread is one step; the readings of the clock are arguments.
pub mod Rounds
pub mod Checks
pub mod Waits
use aws_advanced_python_wrap.Prelude.{
  ℕ, zero, suc, ◌+◌, ◌-◌, ◌*◌, Bool, true, false, not, ◌&&◌, ◌||◌, Option, none, some, List, [],
  ◌∷◌, ◌++◌, if◌then◌else◌, ltb, leb, ◌==◌, length,
}
use aws_advanced_python_wrap.HostMonitoring.Context.{
  MonitoringContext, StatusCheck, set_monitor_start_time_ns, update_host_status,
}

abbrev pub Store : Type 0
Store = ℕ → MonitoringContext

abbrev pub write : Store → ℕ → MonitoringContext → Store
write store c v d = if c == d then v else store d

-- Periods are in nanoseconds.
pub record Monitor : Type 0 where
  pub new_contexts : List ℕ
  pub active_contexts : List ℕ
  pub is_stopped : Bool
  pub context_last_used_ns : ℕ
  pub monitor_disposal_time_ms : ℕ
  pub host_check_timeout_ns : ℕ

abbrev pub inactive_sleep_ns : ℕ
inactive_sleep_ns = 100_000_000

abbrev pub min_host_check_timeout_ns : ℕ
min_host_check_timeout_ns = 3_000_000_000

unfoldable pub start_monitoring : ℕ → ℕ → Monitor × Store → Monitor × Store
unfolding set_monitor_start_time_ns
start_monitoring now c (m, store) = (
  record m { context_last_used_ns = now; new_contexts = m.new_contexts ++ (c ∷ []) },
  write store c (set_monitor_start_time_ns now (store c)),
)

unfoldable pub stop_monitoring : ℕ → ℕ → Monitor × Store → Monitor × Store
stop_monitoring now c (m, store) = (
  record m { context_last_used_ns = now },
  write store c (record (store c) { is_active = false }),
)

unfoldable pub clear_contexts : Monitor → Monitor
clear_contexts m = record m { new_contexts = []; active_contexts = [] }

abbrev pub is_first : Option ℕ → ℕ → Bool
is_first none c = false
is_first (some f) c = f == c

abbrev pub first_or : Option ℕ → ℕ → Option ℕ
first_or none c = some c
first_or (some f) c = some f

-- The loop of `run` over the new contexts: the queue of the new ones that is left, and the queue of
-- the active ones. `first` is `first_added_new_context`.
unfoldable pub process_new : ℕ → Store → ℕ → Option ℕ → List ℕ → List ℕ → List ℕ × List ℕ
process_new zero store now first queue active = (queue, active)
process_new (suc fuel) store now first [] active = ([], active)
process_new (suc fuel) store now first (c ∷ queue) active =
    let discard = process_new fuel store now first queue active in
    let submit = process_new fuel store now first queue (active ++ (c ∷ [])) in
    let later = process_new fuel store now (first_or first c) (queue ++ (c ∷ [])) active in
    if is_first first c
    then (queue ++ (c ∷ []), active)
    else if not (store c).is_active
    then discard
    else if leb (store c).active_monitoring_start_time_ns now
    then submit
    else later

-- `delay_ms` with -1 as `none`.
abbrev pub shorter : Option ℕ → ℕ → Option ℕ
shorter none interval = some interval
shorter (some d) interval = if ltb interval d then some interval else some d

pub record Round : Type 0 where
  pub queue : List ℕ
  pub store : Store
  pub delay_ms : Option ℕ

-- The loop of `run` over the active contexts.
unfoldable pub process_active : ℕ → StatusCheck → Option ℕ → List ℕ → Store → Option ℕ → Round
unfolding update_host_status
process_active zero check first queue store delay_ms = record {
  queue = queue;
  store = store;
  delay_ms = delay_ms;
}
process_active (suc fuel) check first [] store delay_ms = record {
  queue = [];
  store = store;
  delay_ms = delay_ms;
}
process_active (suc fuel) check first (c ∷ queue) store delay_ms =
    let v = (update_host_status check (store c)).0 in
    let discard = process_active fuel check first queue store delay_ms in
    let give_up = process_active fuel check first queue (write store c v) delay_ms in
    let keep =
      process_active fuel check (first_or first c) (queue ++ (c ∷ [])) (write store c v)
        (shorter delay_ms v.failure_detection_interval_ms) in
    if not (store c).is_active
    then discard
    else if is_first first c
    then record { queue = queue ++ (c ∷ []); store = store; delay_ms = delay_ms }
    else if not v.is_active || v.is_host_unavailable
    then give_up
    else keep

-- What the thread does at the end of a pass.
pub data Next : Type 0 where
  wait : ℕ → Next
  release : Next

-- The wait after a round, and the timeout of later checks.
unfoldable pub plan : ℕ → Option ℕ → Monitor → Next × Monitor
plan elapsed_ns none m = (wait inactive_sleep_ns, m)
plan elapsed_ns (some delay_ms) m =
    let delay =
      if leb (delay_ms * 1_000_000) elapsed_ns
      then min_host_check_timeout_ns
      else delay_ms * 1_000_000 - elapsed_ns in
    (wait delay, record m { host_check_timeout_ns = delay })

-- The answer of `_check_host_status` and the readings of the clock in one pass.
pub record Readings : Type 0 where
  pub now : ℕ
  pub idle_at : ℕ
  pub check_start : ℕ
  pub is_available : Bool
  pub elapsed_ns : ℕ

unfoldable pub check_of : Readings → StatusCheck
check_of r = record {
  start_time_ns = r.check_start;
  end_time_ns = r.check_start + r.elapsed_ns;
  is_available = r.is_available;
}

unfoldable pub idle : ℕ → Monitor → Next × Monitor
idle now m =
    if leb (m.context_last_used_ns + m.monitor_disposal_time_ms * 1_000_000) now
    then (release, record m { is_stopped = true })
    else (wait inactive_sleep_ns, m)

unfoldable pub check_active : Readings → List ℕ → Monitor → Store → Next × Monitor × Store
unfolding process_active plan check_of
check_active r queue m store =
    let round = process_active (suc (length queue)) (check_of r) none queue store none in
    let (next, m') =
      plan r.elapsed_ns round.delay_ms
        (record m { context_last_used_ns = r.check_start; active_contexts = round.queue }) in
    (next, m', round.store)

unfoldable pub pass_over : Readings → List ℕ → Monitor → Store → Next × Monitor × Store
unfolding idle check_active
pass_over r [] m store = let (next, m') = idle r.idle_at m in (next, m', store)
pass_over r (c ∷ queue) m store = check_active r (c ∷ queue) m store

-- One pass of the loop of `run`.
unfoldable pub pass : Readings → Monitor → Store → Next × Monitor × Store
unfolding process_new pass_over
pass r m store =
    let (waiting, active) =
      process_new (suc (length m.new_contexts)) store r.now none m.new_contexts m.active_contexts in
    pass_over r active (record m { new_contexts = waiting; active_contexts = active }) store
