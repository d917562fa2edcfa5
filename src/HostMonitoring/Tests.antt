-- ===== src/HostMonitoring/Tests.antt =====
-- Runs of host monitoring at concrete inputs.
use aws_advanced_python_wrap.Prelude.{
  ℕ, suc, ◌+◌, ◌≡◌, ◌↔◌, refl, Bool, true, false, Option, none, some, List, [], ◌∷◌, ◌++◌, select,
  length, arith, ◌==◌, if◌then◌else◌,
}
use aws_advanced_python_wrap.Errors.{Exc, driver_error}
use aws_advanced_python_wrap.Exec.{Exec, Result, ok, raised, pure, Keeps}
use aws_advanced_python_wrap.Host.{HostInfo}
use aws_advanced_python_wrap.Host.Role.{writer, available}
use aws_advanced_python_wrap.HostMonitoring.Context.{
  MonitoringContext, init, StatusCheck, max_unavailable_host_duration_ns,
}
use aws_advanced_python_wrap.HostMonitoring.Context.Failures.{
  checked, Exceeds, Counts, Failed, checked-unavailable,
}
use aws_advanced_python_wrap.HostMonitoring.Monitor.{
  Store, Monitor, Readings, pass, process_new, process_active,
}
use aws_advanced_python_wrap.HostMonitoring.Monitor.Waits.{Intervals, Waits, pass-Waits}
use aws_advanced_python_wrap.HostMonitoring.Monitor.Rounds.{
  rotated, is_waiting, is_due, process_new-select,
}
use aws_advanced_python_wrap.HostMonitoring.Monitor.Checks.{IsRound, process_active-select}
use aws_advanced_python_wrap.HostMonitoring.Container.{
  Container, get_or_create_monitor, release_monitor,
}
use aws_advanced_python_wrap.HostMonitoring.Container
use aws_advanced_python_wrap.HostMonitoring.Container.Tasks.{AllRunning}
use aws_advanced_python_wrap.HostMonitoring.Container.Steps.{
  get_or_create, release, now, later, reaches-AllRunning,
}
use aws_advanced_python_wrap.HostMonitoring.Service.{Call}
use aws_advanced_python_wrap.HostMonitoring.Plugin.{State, Outside, start, stop, execute}
use aws_advanced_python_wrap.HostMonitoring.Plugin.Quiet.{QuietState, execute-Quiet}
use aws_advanced_python_wrap.HostMonitoring.Plugin.Outcome.{Concluded, execute-Concluded}

-- No grace period, checks each millisecond, two failures.
abbrev context : MonitoringContext
context = init 0 1 2

abbrev check : ℕ → ℕ → Bool → StatusCheck
check s e a = record { start_time_ns = s; end_time_ns = e; is_available = a }

abbrev answered : StatusCheck
answered = check 1 2 true

abbrev failed_once : StatusCheck
failed_once = check 10 1_000 false

abbrev failed_late : StatusCheck
failed_late = check 2_000 2_000_011 false

context-is_active : context.is_active ≡ true
unfolding init
context-is_active = refl

in_time_answered : Counts context answered
unfolding init
in_time_answered = omega arith

in_time : Failed context failed_once
unfolding init
in_time = (omega arith, refl, λ e. omega (arith, e))

in_time_late : Failed context failed_late
unfolding init
in_time_late = (omega arith, refl, λ e. omega (arith, e))

checked-unavailable_example :
    ((checked
        ((failed_once ∷ []) ++ (answered ∷ failed_once ∷ failed_late ∷ []))
        context).is_host_unavailable
      ≡ true)
    ↔ Exceeds
        (failed_once.start_time_ns + max_unavailable_host_duration_ns context)
        (failed_once ∷ failed_late ∷ [])
checked-unavailable_example =
    checked-unavailable (failed_once ∷ []) answered failed_once (failed_late ∷ []) context
      context-is_active in_time_answered refl (in_time, (in_time_late, tt))

abbrev later_context : MonitoringContext
later_context = record context {
  active_monitoring_start_time_ns = 900;
  failure_detection_interval_ms = 7;
}

abbrev contexts : Store
contexts c = if c == 0 then later_context else context

abbrev queue : List ℕ
queue = 0 ∷ 1 ∷ []

process_new-select_example :
    process_new (suc (length queue)) contexts 5 none queue (2 ∷ [])
    ≡ (rotated (select (is_waiting contexts 5) queue), (2 ∷ []) ++ select (is_due contexts 5) queue)
process_new-select_example =
    process_new-select contexts 5 queue (2 ∷ []) (((λ e. omega (arith, e)), tt), (tt, tt))

process_active-select_example :
    IsRound failed_once queue contexts
      (process_active (suc (length queue)) failed_once none queue contexts none)
process_active-select_example =
    process_active-select failed_once queue contexts (((λ e. omega (arith, e)), tt), (tt, tt))

abbrev monitor : Monitor
monitor = record {
  new_contexts = [];
  active_contexts = [];
  is_stopped = false;
  context_last_used_ns = 0;
  monitor_disposal_time_ms = 60_000;
  host_check_timeout_ns = 3_000_000_000;
}

abbrev container : Container
container = record { monitor_map = []; tasks_map = []; monitors = λ m. monitor; cancelled = [] }

abbrev supplier : Container.Act (Option ℕ)
supplier = pure (some 4)

abbrev created : Container
created = (get_or_create_monitor 9 supplier ("a" ∷ "b" ∷ []) container).1

reaches-AllRunning_example : AllRunning (release_monitor 5 created)
reaches-AllRunning_example =
    reaches-AllRunning supplier container (release_monitor 5 created) (record { at = λ c r. r }) tt
      (later (get_or_create 9 ("a" ∷ "b" ∷ []) container) (later (release 5 created) now))

abbrev node : HostInfo
node = record {
  host = "db";
  port = none;
  role = writer;
  raw_availability = available;
  backoff = none;
  host_id = none;
  last_update_time = none;
  aliases = [];
  all_aliases = "db" ∷ [];
}

-- The world is whether the connection is closed.
abbrev outside : Outside Bool
outside = record {
  current_connection = λ w. some 1;
  current_host_info = λ w. some node;
  failure_detection_enabled = true;
  is_network_bound_method = λ m w. true;
  is_rds_cluster = λ u. false;
  identify_connection = pure none;
  fill_aliases = λ h. pure h;
  set_unavailable = λ a w. w;
  is_closed = λ c w. w;
  close = λ c w. (ok tt, true);
}

abbrev call : Call
call = record {
  failure_detection_time_ms = 0;
  failure_detection_interval_ms = 1;
  failure_detection_count = 2;
  start_time_ns = 1;
  end_time_ns = 2;
  future = 9;
  supplier = supplier;
  is_alive = λ m. true;
}

abbrev idle_context : MonitoringContext
idle_context = record context { is_active = false }

abbrev client : State Bool
client = record {
  monitoring_host_info = none;
  is_connection_initialized = true;
  service = record {
    cached_monitor_aliases = none;
    cached_monitor = none;
    container = container;
    contexts = λ c. idle_context;
    monitor_of = λ c. 0;
    next_context = 0;
  };
  world = false;
}

-- The query fails, and meanwhile the monitor takes the host for unavailable.
abbrev lose_host : State Bool → State Bool
lose_host s = record s {
  service = record s.service {
    contexts = λ c. record (s.service.contexts c) { is_host_unavailable = true };
  };
}

abbrev query : Exec (State Bool) Exc ℕ
query s = (raised (driver_error 3), lose_host s)

execute-Quiet_example : Keeps (QuietState (λ c. ⊥)) (execute outside call "Cursor.execute" query)
execute-Quiet_example =
    execute-Quiet outside call "Cursor.execute" query (λ Open. record { at = λ s q. q }) (λ c. ⊥)

abbrev started : State Bool
started = (start outside call client).1

start-client : start outside call client ≡ (ok 0, started)
unfolding start get_or_create_monitor
start-client = refl

abbrev refused : Result Exc ℕ
refused = raised (driver_error 3)

execute-Concluded_example :
    Concluded outside 1
      ((stop outside call 0 (lose_host started)).service.contexts 0).is_host_unavailable
      refused
      (execute outside call "Cursor.execute" query client)
execute-Concluded_example =
    execute-Concluded outside call "Cursor.execute" query client started (lose_host started) 1 0
      node (raised (driver_error 3)) refl refl refl refl start-client refl

abbrev same_contexts : Store
same_contexts c = context

contexts-Intervals : Intervals 5 same_contexts
unfolding init
contexts-Intervals c = omega arith

abbrev slow_check : Readings
slow_check = record {
  now = 1;
  idle_at = 2;
  check_start = 3;
  is_available = false;
  elapsed_ns = 5_000_000_000;
}

pass-Waits_example :
    Waits 5 (pass slow_check (record monitor { new_contexts = queue }) same_contexts).0
pass-Waits_example =
    pass-Waits 5 slow_check (record monitor { new_contexts = queue }) same_contexts
      contexts-Intervals
