-- ===== src/HostMonitoring/Context.antt =====
-- host_monitoring_plugin.py: `MonitoringContext`, what one call of the client wants of its host.
-- Times are in nanoseconds; a difference that the source compares is written as a sum.
pub mod Failures
use aws_advanced_python_wrap.Prelude.{
  ℕ, suc, ◌+◌, ◌*◌, Bool, true, false, not, List, [], ◌∷◌, if◌then◌else◌, ltb, ◌==◌,
}

-- The settings, of which a count below zero acts as zero, and the state of a context.
pub record MonitoringContext : Type 0 where
  pub failure_detection_time_ms : ℕ
  pub failure_detection_interval_ms : ℕ
  pub failure_detection_count : ℕ
  pub monitor_start_time_ns : ℕ
  pub active_monitoring_start_time_ns : ℕ
  pub unavailable_host_start_time_ns : ℕ
  pub current_failure_count : ℕ
  pub is_host_unavailable : Bool
  pub is_active : Bool

unfoldable pub init : ℕ → ℕ → ℕ → MonitoringContext
init time_ms interval_ms count = record {
  failure_detection_time_ms = time_ms;
  failure_detection_interval_ms = interval_ms;
  failure_detection_count = count;
  monitor_start_time_ns = 0;
  active_monitoring_start_time_ns = 0;
  unavailable_host_start_time_ns = 0;
  current_failure_count = 0;
  is_host_unavailable = false;
  is_active = true;
}

unfoldable pub set_monitor_start_time_ns : ℕ → MonitoringContext → MonitoringContext
set_monitor_start_time_ns start_time_ns c = record c {
  monitor_start_time_ns = start_time_ns;
  active_monitoring_start_time_ns = start_time_ns + c.failure_detection_time_ms * 1_000_000;
}

-- A check of the host: when it started and ended, and whether the host answered.
pub record StatusCheck : Type 0 where
  pub start_time_ns : ℕ
  pub end_time_ns : ℕ
  pub is_available : Bool

abbrev pub max_unavailable_host_duration_ns : MonitoringContext → ℕ
max_unavailable_host_duration_ns c =
    c.failure_detection_interval_ms * c.failure_detection_count * 1_000_000

-- A failed check is counted, and the first one in a row gives the start of the failure.
unfoldable pub count_failure : ℕ → MonitoringContext → MonitoringContext
count_failure start c = record c {
  current_failure_count = suc c.current_failure_count;
  unavailable_host_start_time_ns =
      if c.unavailable_host_start_time_ns == 0 then start else c.unavailable_host_start_time_ns;
}

unfoldable pub judge : ℕ → MonitoringContext → MonitoringContext × Bool
judge end c =
    if ltb (c.unavailable_host_start_time_ns + max_unavailable_host_duration_ns c) end
    then (record c { is_host_unavailable = true }, c.is_active)
    else (c, false)

-- `_set_host_availability`. The second part says whether the connection is to be aborted.
unfoldable pub set_host_availability : StatusCheck → MonitoringContext → MonitoringContext × Bool
unfolding count_failure judge
set_host_availability k c =
    if k.is_available
    then (
      record c {
        current_failure_count = 0;
        unavailable_host_start_time_ns = 0;
        is_host_unavailable = false;
      },
      false,
    )
    else judge k.end_time_ns (count_failure k.start_time_ns c)

unfoldable pub update_host_status : StatusCheck → MonitoringContext → MonitoringContext × Bool
unfolding set_host_availability
update_host_status k c =
    if not c.is_active
    then (c, false)
    else if ltb (c.monitor_start_time_ns + c.failure_detection_time_ms * 1_000_000) k.end_time_ns
    then set_host_availability k c
    else (c, false)
