-- ===== src/HostMonitoring/Container.antt =====
-- host_monitoring_plugin.py: `MonitoringThreadContainer`, the one table of monitors and of the tasks
-- that run them. A monitor is the number of its object in `monitors`, a task the number of its
-- future. Its methods hold `_monitor_lock`, so each is one step.
pub mod Tasks
pub mod Steps
use aws_advanced_python_wrap.Prelude.{
  ℕ, Bool, true, not, Option, none, some, List, [], ◌∷◌, ◌++◌, String, String-discrete, ℕ_discrete,
  ◌==◌, if◌then◌else◌, select, map,
}
use aws_advanced_python_wrap.Dict.{Dict, keys}
use aws_advanced_python_wrap.Dict
use aws_advanced_python_wrap.Concurrent.{
  compute_if_absent, compute_if_present, put_if_absent, remove_matching_values,
}
use aws_advanced_python_wrap.Errors.{Exc, aws_wrapper_error}
use aws_advanced_python_wrap.Exec.{Exec, pure, throw, gets, modify, ◌>>=◌, ◌>>◌}
use aws_advanced_python_wrap.HostMonitoring.Monitor.{Monitor}

pub record Container : Type 0 where
  pub monitor_map : Dict String ℕ
  pub tasks_map : Dict ℕ ℕ
  pub monitors : ℕ → Monitor
  pub cancelled : List ℕ  -- the futures that were cancelled

abbrev pub Act : Type 0 → Type 0
Act A = Exec Container Exc A

unfoldable pub stop : ℕ → Container → Container
stop m c = record c {
  monitors = λ n. if n == m then record (c.monitors m) { is_stopped = true } else c.monitors n;
}

-- The first alias with a monitor, or the last alias.
unfoldable pub find_monitor : String → List String → Container → Option ℕ × String
find_monitor any_alias [] c = (none, any_alias)
find_monitor any_alias (alias ∷ aliases) c = elim (Dict.get String-discrete alias c.monitor_map) [
  | some m ↦ (some m, alias)
  | none ↦ find_monitor alias aliases c
]

unfoldable pub submit : ℕ → ℕ → Container → Container
unfolding compute_if_absent
submit future monitor c = record c {
  tasks_map = (compute_if_absent ℕ_discrete monitor (some future) c.tasks_map).0;
}

abbrev pub existing : Option ℕ → Act ℕ
existing none = throw aws_wrapper_error
existing (some m) = pure m

-- The inner function `_get_or_create_monitor`. `supplier` makes a monitor, and the executor answers
-- `submit` with `future`.
unfoldable pub create_monitor : ℕ → Act (Option ℕ) → Act ℕ
unfolding submit
create_monitor future supplier = do
  supplied ← supplier
  m ← existing supplied
  modify (submit future m)
  pure m

unfoldable pub put_monitor : String → ℕ → Container → Container
unfolding put_if_absent
put_monitor alias m c = record c {
  monitor_map = (put_if_absent String-discrete alias m c.monitor_map).0;
}

unfoldable pub put_monitors : ℕ → List String → Container → Container
unfolding put_monitor
put_monitors m [] c = c
put_monitors m (alias ∷ aliases) c = put_monitors m aliases (put_monitor alias m c)

unfoldable pub found_or_created : ℕ → Act (Option ℕ) → Option ℕ × String → Act ℕ
unfolding create_monitor put_monitor
found_or_created future supplier (some m, alias) = pure m
found_or_created future supplier (none, alias) = do
  m ← create_monitor future supplier
  modify (put_monitor alias m)
  pure m

unfoldable pub get_or_create_monitor : ℕ → Act (Option ℕ) → List String → Act ℕ
unfolding find_monitor found_or_created put_monitors
get_or_create_monitor future supplier [] = throw aws_wrapper_error
get_or_create_monitor future supplier (alias ∷ aliases) = do
  found ← gets (find_monitor alias (alias ∷ aliases))
  m ← found_or_created future supplier found
  modify (put_monitors m (alias ∷ aliases))
  pure m

unfoldable pub get_monitor : String → Container → Option ℕ
get_monitor alias c = Dict.get String-discrete alias c.monitor_map

unfoldable pub cancel_task : ℕ → Option ℕ → Container → Container
unfolding stop
cancel_task m none c = c
cancel_task m (some future) c = stop m (record c { cancelled = future ∷ c.cancelled })

unfoldable pub release_monitor : ℕ → Container → Container
unfolding remove_matching_values compute_if_present cancel_task
release_monitor m c = cancel_task m (Dict.get ℕ_discrete m c.tasks_map) (record c {
  monitor_map = (remove_matching_values ℕ_discrete (m ∷ []) c.monitor_map).0;
  tasks_map = (compute_if_present ℕ_discrete m (λ future. none) c.tasks_map).0;
})

unfoldable pub stop_all : List ℕ → Container → Container
unfolding stop
stop_all [] c = c
stop_all (m ∷ ms) c = stop_all ms (stop m c)

-- `is_done` says of a future that it has ended or was cancelled.
unfoldable pub release_resources : (ℕ → Bool) → Container → Container
unfolding stop_all
release_resources is_done c =
    let futures = map (λ e. e.1) (select (λ e. not (is_done e.1)) c.tasks_map) in
    let stopped = stop_all (keys c.tasks_map) c in
    record stopped { monitor_map = []; tasks_map = []; cancelled = futures ++ c.cancelled }
