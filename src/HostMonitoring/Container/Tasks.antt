-- ===== src/HostMonitoring/Container/Tasks.antt =====
-- host_monitoring_plugin.py: the monitors that `MonitoringThreadContainer` hands out are running.
use aws_advanced_python_wrap.Prelude.{
  ℕ, ◌≡◌, refl, ◌∙◌, sym, subst, Bool, true, false, not, inl, inr, ite, if_pos, if_neg, Option,
  Option-cases, none, some, some_inj, is_some, List, [], ◌∷◌, String, String-discrete, ℕ_discrete,
  if◌then◌else◌, select, All, arith,
}
use aws_advanced_python_wrap.Dict.{Dict, get-put, get-pop}
use aws_advanced_python_wrap.Dict
use aws_advanced_python_wrap.Concurrent.{
  compute_if_absent, compute_if_present, store_present, put_if_absent, is_in,
}
use aws_advanced_python_wrap.Exec.{Keeps, pure, modify, ◌>>=◌, ◌>>◌}
use aws_advanced_python_wrap.Exec.Endings.{Ends, Ends-ok, Ends-raised, Ends-bind, Ends-any}
use aws_advanced_python_wrap.HostMonitoring.Container.{
  Container, Act, find_monitor, submit, existing, create_monitor, put_monitor, put_monitors,
  found_or_created, get_or_create_monitor,
}

abbrev pub HasTask : Dict ℕ ℕ → ℕ → Type 0
HasTask tasks m = is_some (Dict.get ℕ_discrete m tasks) ≡ true

-- Every monitor that an alias leads to has a task.
abbrev pub Running : Dict String ℕ → Dict ℕ ℕ → Type 0
Running monitors tasks = All (λ e. HasTask tasks e.1) monitors

abbrev pub AllRunning : Container → Type 0
AllRunning c = Running c.monitor_map c.tasks_map

pub Running-more :
    (monitors : Dict String ℕ) (t u : Dict ℕ ℕ)
    → ((m : ℕ) → HasTask t m → HasTask u m)
    → Running monitors t
    → Running monitors u
Running-more [] t u more r = tt
Running-more ((k, m) ∷ monitors) t u more (p, r) = (more m p, Running-more monitors t u more r)

Running-put :
    (monitors : Dict String ℕ) (tasks : Dict ℕ ℕ) (alias : String) (m : ℕ)
    → HasTask tasks m
    → Running monitors tasks
    → Running (Dict.put String-discrete alias m monitors) tasks
Running-put [] tasks alias m h r = (h, tt)
Running-put ((k, n) ∷ monitors) tasks alias m h (p, r) = elim (String-discrete k alias) [
  | yes e ↦ rw (if_pos _ e) (h, r)
  | no ne ↦ rw (if_neg _ ne) (p, Running-put monitors tasks alias m h r)
]

put_if_absent-Running :
    (monitors : Dict String ℕ) (tasks : Dict ℕ ℕ) (alias : String) (m : ℕ)
    → HasTask tasks m
    → Running monitors tasks
    → Running (put_if_absent String-discrete alias m monitors).0 tasks
unfolding put_if_absent
put_if_absent-Running monitors tasks alias m h r =
    elim (Option-cases (Dict.get String-discrete alias monitors)) [
      | inl e ↦ rw (put_if_absent, e) (Running-put monitors tasks alias m h r)
      | inr (n, e) ↦ rw (put_if_absent, e) r
    ]

submit-more :
    (tasks : Dict ℕ ℕ) (m future n : ℕ)
    → HasTask tasks n
    → HasTask (compute_if_absent ℕ_discrete m (some future) tasks).0 n
unfolding compute_if_absent
submit-more tasks m future n h = elim (Option-cases (Dict.get ℕ_discrete m tasks)) [
  | inl e ↦ rw (compute_if_absent, e) (rw (get-put ℕ_discrete m n future tasks) (ground arith))
  | inr (f, e) ↦ rw (compute_if_absent, e) h
]

submit-has :
    (tasks : Dict ℕ ℕ) (m future : ℕ)
    → HasTask (compute_if_absent ℕ_discrete m (some future) tasks).0 m
unfolding compute_if_absent
submit-has tasks m future = elim (Option-cases (Dict.get ℕ_discrete m tasks)) [
  | inl e ↦ rw (compute_if_absent, e) (rw (get-put ℕ_discrete m m future tasks) (ground arith))
  | inr (f, e) ↦ rw (compute_if_absent, e, e) refl
]

kept-Running :
    (b : Bool) (e : String × ℕ) (monitors : Dict String ℕ) (tasks : Dict ℕ ℕ)
    → (b ≡ true → HasTask tasks e.1)
    → Running monitors tasks
    → Running (if b then e ∷ monitors else monitors) tasks
kept-Running true e monitors tasks h r = (h refl, r)
kept-Running false e monitors tasks h r = r

pub remove-Running :
    (monitors : Dict String ℕ) (tasks : Dict ℕ ℕ) (m : ℕ)
    → Running monitors tasks
    → Running
        (select (λ e. not (is_in ℕ_discrete e.1 (m ∷ []))) monitors)
        (Dict.pop ℕ_discrete m tasks)
unfolding is_in
remove-Running [] tasks m r = tt
remove-Running ((k, n) ∷ monitors) tasks m (p, r) =
    kept-Running (not (is_in ℕ_discrete n (m ∷ []))) (k, n)
      (select (λ e. not (is_in ℕ_discrete e.1 (m ∷ []))) monitors) (Dict.pop ℕ_discrete m tasks)
      (λ b. rw (get-pop ℕ_discrete m n tasks) (ground arith)) (remove-Running monitors tasks m r)

pub drop-more :
    (tasks : Dict ℕ ℕ) (m n : ℕ)
    → HasTask (Dict.pop ℕ_discrete m tasks) n
    → HasTask (compute_if_present ℕ_discrete m (λ future. none) tasks).0 n
unfolding compute_if_present store_present
drop-more tasks m n h = elim (Option-cases (Dict.get ℕ_discrete m tasks)) [
  | inl e ↦
      rw (compute_if_present, e)
        (let h' : is_some (ite (ℕ_discrete m n) none (Dict.get ℕ_discrete n tasks)) ≡ true =
            rw (get-pop ℕ_discrete m n tasks) at h in
          ground (arith, h'))
  | inr (f, e) ↦ rw (compute_if_present, e) h
]

put_monitors-Running :
    (m : ℕ) (aliases : List String) (c : Container)
    → HasTask c.tasks_map m
    → AllRunning c
    → AllRunning (put_monitors m aliases c)
unfolding put_monitors put_monitor
put_monitors-Running m [] c h r = r
put_monitors-Running m (alias ∷ aliases) c h r =
    put_monitors-Running m aliases (put_monitor alias m c) h
      (put_if_absent-Running c.monitor_map c.tasks_map alias m h r)

abbrev pub Started : ℕ → Container → Type 0
Started m c = AllRunning c × HasTask c.tasks_map m

get-Running :
    (monitors : Dict String ℕ) (tasks : Dict ℕ ℕ) (alias : String) (m : ℕ)
    → Running monitors tasks
    → Dict.get String-discrete alias monitors ≡ some m
    → HasTask tasks m
get-Running [] tasks alias m r e = cc
get-Running ((k, n) ∷ monitors) tasks alias m (p, r) e = elim (String-discrete k alias) [
  | yes q ↦ subst (HasTask tasks) (some_inj (rw (if_pos _ q) at e)) p
  | no q ↦ get-Running monitors tasks alias m r (rw (if_neg _ q) at e)
]

find_monitor-Running :
    (any : String) (aliases : List String) (c : Container) (m : ℕ)
    → AllRunning c
    → (find_monitor any aliases c).0 ≡ some m
    → HasTask c.tasks_map m
unfolding find_monitor
find_monitor-Running any [] c m r e = cc
find_monitor-Running any (alias ∷ aliases) c m r e =
    elim (Option-cases (Dict.get String-discrete alias c.monitor_map)) [
      | inl q ↦ find_monitor-Running alias aliases c m r (rw (find_monitor, q) at e)
      | inr (n, q) ↦
          get-Running c.monitor_map c.tasks_map alias m r (q ∙ (rw (find_monitor, q) at e))
    ]

submitted :
    (future : ℕ) (o : Option ℕ) (d : Container)
    → AllRunning d
    → Ends Started (λ e. AllRunning) ((existing o >>= λ m. modify (submit future m) >> pure m) d)
unfolding submit
submitted future none d r = Ends-raised _ d r
submitted future (some m) d r = Ends-ok m (submit future m d) (
  Running-more d.monitor_map d.tasks_map
      (compute_if_absent ℕ_discrete m (some future) d.tasks_map).0
      (submit-more d.tasks_map m future) r,
  submit-has d.tasks_map m future,
)

create_monitor-Ends :
    (future : ℕ) (supplier : Act (Option ℕ)) (c : Container)
    → Keeps AllRunning supplier
    → AllRunning c
    → Ends Started (λ e. AllRunning) (create_monitor future supplier c)
unfolding create_monitor
create_monitor-Ends future supplier c k r =
    Ends-bind (supplier c) (Ends-any (supplier c) (k.at c r) (λ a s h. h) (λ e s h. h))
      (submitted future)

found_or_created-Ends :
    (future : ℕ) (supplier : Act (Option ℕ)) (found : Option ℕ × String) (c : Container)
    → Keeps AllRunning supplier
    → ((m : ℕ) → found.0 ≡ some m → HasTask c.tasks_map m)
    → AllRunning c
    → Ends Started (λ e. AllRunning) (found_or_created future supplier found c)
unfolding found_or_created put_monitor
found_or_created-Ends future supplier (some m, alias) c k f r = Ends-ok m c (r, f m refl)
found_or_created-Ends future supplier (none, alias) c k f r =
    Ends-bind (create_monitor future supplier c) (create_monitor-Ends future supplier c k r)
      (λ m s h.
        Ends-ok m (put_monitor alias m s)
          (put_if_absent-Running s.monitor_map s.tasks_map alias m h.1 h.0, h.1))

put_monitors-tasks :
    (m : ℕ) (aliases : List String) (c : Container)
    → (put_monitors m aliases c).tasks_map ≡ c.tasks_map
unfolding put_monitors put_monitor
put_monitors-tasks m [] c = refl
put_monitors-tasks m (alias ∷ aliases) c = put_monitors-tasks m aliases (put_monitor alias m c)

-- Let every monitor in the table have a task, and let the supplier keep this. Then
-- `get_or_create_monitor`, whether it returns or raises, keeps it too, and the monitor that it
-- returns has a task.
pub get_or_create_monitor-Started :
    (future : ℕ) (supplier : Act (Option ℕ)) (aliases : List String) (c : Container)
    → Keeps AllRunning supplier
    → AllRunning c
    → Ends Started (λ e. AllRunning) (get_or_create_monitor future supplier aliases c)
unfolding get_or_create_monitor
get_or_create_monitor-Started future supplier [] c k r = Ends-raised _ c r
get_or_create_monitor-Started future supplier (alias ∷ aliases) c k r =
    let found = find_monitor alias (alias ∷ aliases) c in
    Ends-bind (found_or_created future supplier found c)
      (found_or_created-Ends future supplier found c k
        (λ m e. find_monitor-Running alias (alias ∷ aliases) c m r e) r)
      (λ m s h. Ends-ok m (put_monitors m (alias ∷ aliases) s) (
        put_monitors-Running m (alias ∷ aliases) s h.1 h.0,
        subst (λ t. HasTask t m) (sym (put_monitors-tasks m (alias ∷ aliases) s)) h.1,
      ))
