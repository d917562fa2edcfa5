-- ===== src/HostMonitoring/Container/Steps.antt =====
-- host_monitoring_plugin.py: whatever threads call of `MonitoringThreadContainer`, in any order.
use aws_advanced_python_wrap.Prelude.{
  ℕ, Bool, not, Option, none, some, List, [], ◌∷◌, String, ℕ_discrete, select,
}
use aws_advanced_python_wrap.Dict
use aws_advanced_python_wrap.Concurrent.{
  compute_if_present, remove_if, remove_matching_values, is_in,
}
use aws_advanced_python_wrap.Exec.{Result, ok, raised, Keeps}
use aws_advanced_python_wrap.Errors.{Exc}
use aws_advanced_python_wrap.Exec.Endings.{Ends}
use aws_advanced_python_wrap.HostMonitoring.Container.{
  Container, Act, get_or_create_monitor, cancel_task, release_monitor, release_resources,
}
use aws_advanced_python_wrap.HostMonitoring.Container.Tasks.{
  AllRunning, Running-more, remove-Running, drop-more, Started, get_or_create_monitor-Started,
}

-- A call of a method, which one thread makes while it holds the lock.
pub data Step (supplier : Act (Option ℕ)) : Container → Container → Type 0 where
  get_or_create :
      (future : ℕ) (aliases : List String) (c : Container)
      → Step supplier c (get_or_create_monitor future supplier aliases c).1
  release : (m : ℕ) (c : Container) → Step supplier c (release_monitor m c)
  release_all : (is_done : ℕ → Bool) (c : Container) → Step supplier c (release_resources is_done c)

pub data Reaches (supplier : Act (Option ℕ)) : Container → Container → Type 0 where
  now : {c : Container} → Reaches supplier c c
  later : {c d e : Container} → Step supplier c d → Reaches supplier d e → Reaches supplier c e

cancel_task-AllRunning :
    (m : ℕ) (o : Option ℕ) (c : Container) → AllRunning c → AllRunning (cancel_task m o c)
unfolding cancel_task
cancel_task-AllRunning m none c r = r
cancel_task-AllRunning m (some future) c r = r

release_monitor-AllRunning :
    (m : ℕ) (c : Container) → AllRunning c → AllRunning (release_monitor m c)
unfolding release_monitor remove_matching_values remove_if
release_monitor-AllRunning m c r =
    let left = select (λ e. not (is_in ℕ_discrete e.1 (m ∷ []))) c.monitor_map in
    let tasks = (compute_if_present ℕ_discrete m (λ future. none) c.tasks_map).0 in
    cancel_task-AllRunning m (Dict.get ℕ_discrete m c.tasks_map)
      (record c { monitor_map = left; tasks_map = tasks })
      (Running-more left (Dict.pop ℕ_discrete m c.tasks_map) tasks (drop-more c.tasks_map m)
        (remove-Running c.monitor_map c.tasks_map m r))

both_endings : (r : Result Exc ℕ × Container) → Ends Started (λ e. AllRunning) r → AllRunning r.1
both_endings (ok m, c) h = h.ending.0
both_endings (raised e, c) h = h.ending

Step-AllRunning :
    (supplier : Act (Option ℕ)) (c d : Container)
    → Keeps AllRunning supplier
    → Step supplier c d
    → AllRunning c
    → AllRunning d
unfolding release_resources
Step-AllRunning supplier _ _ k (get_or_create future aliases c) r =
    both_endings (get_or_create_monitor future supplier aliases c)
      (get_or_create_monitor-Started future supplier aliases c k r)
Step-AllRunning supplier _ _ k (release m c) r = release_monitor-AllRunning m c r
Step-AllRunning supplier _ _ k (release_all is_done c) r = tt

-- Let the supplier keep that every monitor in the table has a task. Then so does every sequence of
-- calls of get_or_create_monitor, release_monitor and the release of all resources.
pub reaches-AllRunning :
    (supplier : Act (Option ℕ)) (c d : Container)
    → Keeps AllRunning supplier
    → AllRunning c
    → Reaches supplier c d
    → AllRunning d
reaches-AllRunning supplier c _ k r now = r
reaches-AllRunning supplier c d k r (later {d = e} s rest) =
    reaches-AllRunning supplier e d k (Step-AllRunning supplier c e k s r) rest
