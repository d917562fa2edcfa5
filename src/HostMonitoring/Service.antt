-- ===== src/HostMonitoring/Service.antt =====
-- host_monitoring_plugin.py: `MonitorService`, which begins and ends the monitoring of one call. The
-- contexts are numbered in the order in which they are made.
use aws_advanced_python_wrap.Prelude.{
  ℕ, suc, Bool, true, false, not, ◌&&◌, ◌||◌, Option, none, some, List, [], ◌∷◌, String, ◌==◌,
  if◌then◌else◌,
}
use aws_advanced_python_wrap.Errors.{Exc, aws_wrapper_error}
use aws_advanced_python_wrap.Exec.{Result, ok, Exec, pure, throw, gets, modify, ◌>>=◌, ◌>>◌}
use aws_advanced_python_wrap.Host.{mem}
use aws_advanced_python_wrap.HostMonitoring.Context.{MonitoringContext}
use aws_advanced_python_wrap.HostMonitoring.Context
use aws_advanced_python_wrap.HostMonitoring.Monitor.{Store, write, Monitor, clear_contexts}
use aws_advanced_python_wrap.HostMonitoring.Monitor
use aws_advanced_python_wrap.HostMonitoring.Container.{
  Container, get_or_create_monitor, get_monitor,
}
use aws_advanced_python_wrap.HostMonitoring.Container

pub record Service : Type 0 where
  pub cached_monitor_aliases : Option (List String)
  pub cached_monitor : Option ℕ
  pub container : Container
  pub contexts : Store
  pub monitor_of : ℕ → ℕ
  pub next_context : ℕ

-- The settings of a call, and what the outside gives to it: the times at which it starts and ends,
-- the future of a new task, the new monitor, and whether the object behind a weak reference lives.
pub record Call : Type 0 where
  pub failure_detection_time_ms : ℕ
  pub failure_detection_interval_ms : ℕ
  pub failure_detection_count : ℕ
  pub start_time_ns : ℕ
  pub end_time_ns : ℕ
  pub future : ℕ
  pub supplier : Container.Act (Option ℕ)
  pub is_alive : ℕ → Bool

abbrev pub subset : List String → List String → Bool
subset [] ys = true
subset (x ∷ xs) ys = mem x ys && subset xs ys

-- `==` of frozensets.
abbrev pub same_aliases : Option (List String) → List String → Bool
same_aliases none ys = false
same_aliases (some xs) ys = subset xs ys && subset ys xs

-- The monitor kept from the last call, where it serves.
unfoldable pub reusable : Call → List String → Service → Option ℕ
reusable k aliases s = elim s.cached_monitor [
  | none ↦ none
  | some m ↦
      if not (k.is_alive m)
        || (s.container.monitors m).is_stopped
        || not (same_aliases s.cached_monitor_aliases aliases)
      then none
      else some m
]

-- A method of the container, as one of the service.
abbrev pub on_container : {A : Type 0} → Result Exc A × Container → Service → Result Exc A × Service
on_container (r, c) s = (r, record s { container = c })

unfoldable pub monitor_for : Call → List String → Option ℕ → Exec Service Exc ℕ
monitor_for k aliases (some m) s = (ok m, s)
monitor_for k aliases none s =
    (do
      m ← λ t. on_container (get_or_create_monitor k.future k.supplier aliases t.container) t
      modify (λ t. record t { cached_monitor = some m; cached_monitor_aliases = some aliases })
      pure m)
      s

-- `Monitor.start_monitoring` and `Monitor.stop_monitoring`, on the objects in the store.
unfoldable pub on_monitor : (Monitor × Store → Monitor × Store) → ℕ → Service → Service
on_monitor f m s =
    let (monitor, contexts) = f (s.container.monitors m, s.contexts) in
    record s {
      container = record s.container {
        monitors = λ n. if n == m then monitor else s.container.monitors n;
      };
      contexts = contexts;
    }

unfoldable pub add_context : Call → ℕ → Service → Service
unfolding Context.init
add_context k m s = record s {
  contexts = write s.contexts s.next_context (
      Context.init k.failure_detection_time_ms k.failure_detection_interval_ms
        k.failure_detection_count);
  monitor_of = λ c. if c == s.next_context then m else s.monitor_of c;
  next_context = suc s.next_context;
}

unfoldable pub begin_context : Call → ℕ → Exec Service Exc ℕ
unfolding on_monitor add_context Monitor.start_monitoring
begin_context k m s = (
  ok s.next_context,
  on_monitor (Monitor.start_monitoring k.start_time_ns s.next_context) m (add_context k m s),
)

unfoldable pub start_monitoring : Call → List String → Exec Service Exc ℕ
unfolding monitor_for begin_context reusable
start_monitoring k [] = throw aws_wrapper_error
start_monitoring k (alias ∷ aliases) = do
  kept ← gets (reusable k (alias ∷ aliases))
  m ← monitor_for k (alias ∷ aliases) kept
  begin_context k m

unfoldable pub stop_monitoring : Call → ℕ → Service → Service
unfolding on_monitor Monitor.stop_monitoring
stop_monitoring k context s =
    on_monitor (Monitor.stop_monitoring k.end_time_ns context) (s.monitor_of context) s

unfoldable pub clear_host : Option ℕ → Service → Service
unfolding on_monitor
clear_host none s = s
clear_host (some m) s = on_monitor (λ ms. (clear_contexts ms.0, ms.1)) m s

-- The first alias with a monitor.
unfoldable pub stop_monitoring_host : List String → Service → Service
unfolding clear_host get_monitor
stop_monitoring_host [] s = s
stop_monitoring_host (alias ∷ aliases) s =
    let rest = stop_monitoring_host aliases s in
    elim (get_monitor alias s.container) [ none ↦ rest | some m ↦ clear_host (some m) s ]
