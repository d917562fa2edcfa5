-- ===== src/HostMonitoring/Plugin/Quiet.antt =====
-- host_monitoring_plugin.py: which contexts are active after a call.
use aws_advanced_python_wrap.Prelude.{
  ℕ, ◌≡◌, ◌⊎◌, ◌∙◌, sym, ap, inl, inr, Bool, true, false, not, ◌||◌, Option, none, some, List, [],
  ◌∷◌, String, ℕ_discrete, if◌then◌else◌, arith,
}
use aws_advanced_python_wrap.Errors.{Exc, aws_wrapper_error}
use aws_advanced_python_wrap.Exec.{
  Result, ok, raised, Exec, Keeps, Keeps-pure, Keeps-throw, Keeps-if, Keeps-bind, Keeps-catch,
  modify, gets, continue,
}
use aws_advanced_python_wrap.Exec.Endings.{Ends, Ends-ok, Ends-raised, Ends-bind, Ends-any}
use aws_advanced_python_wrap.Host.{HostInfo}
use aws_advanced_python_wrap.Host
use aws_advanced_python_wrap.HostMonitoring.Context.{MonitoringContext, init}
use aws_advanced_python_wrap.HostMonitoring.Container.{Container, get_or_create_monitor}
use aws_advanced_python_wrap.HostMonitoring.Monitor.Checks.{write_self, write_other}
use aws_advanced_python_wrap.HostMonitoring.Monitor.{Store, write}
use aws_advanced_python_wrap.HostMonitoring.Service.{
  Service, Call, on_container, reusable, monitor_for, begin_context, stop_monitoring,
  start_monitoring,
}
use aws_advanced_python_wrap.HostMonitoring.Plugin.{
  State, Outside, Act, outside, put_service, set_monitoring_host_info, identified, identify,
  returned, find_host_info, known_host_info, mark_unavailable, abandon, get_monitoring_host_info,
  start, give_up, stop, conclude, after_call, monitored, execute_on, execute,
}

-- Only contexts of `Open` are active.
abbrev pub Quiet : (ℕ → Type 0) → Store → Type 0
Quiet Open contexts = (c : ℕ) → (contexts c).is_active ≡ true → Open c

abbrev pub QuietState : {W : Type 0} → (ℕ → Type 0) → State W → Type 0
QuietState Open s = Quiet Open s.service.contexts

module _ {W : Type 0} (out : Outside W) (P : Service → Type 0) where
  abbrev OnService : State W → Type 0
  OnService s = P s.service

  outside-Keeps : {A : Type 0} (m : Exec W Exc A) → Keeps OnService (outside m)
  outside-Keeps m = record { at = λ s h. h }

  modify-Keeps :
      (f : State W → State W)
      → ((s : State W) → OnService s → OnService (f s))
      → Keeps {E = Exc} OnService (modify f)
  modify-Keeps f k = record { at = k }

  gets-Keeps : {A : Type 0} (f : State W → A) → Keeps {E = Exc} OnService (gets f)
  gets-Keeps f = record { at = λ s h. h }

  set-Keeps : (o : Option HostInfo) → Keeps OnService (set_monitoring_host_info out o)
  unfolding set_monitoring_host_info
  set-Keeps o = record { at = λ s h. h }

  identified-Keeps : (o : Option HostInfo) → Keeps OnService (identified out o)
  unfolding identified
  identified-Keeps none = Keeps-throw aws_wrapper_error
  identified-Keeps (some h) =
      Keeps-bind _ _ (outside-Keeps (out.fill_aliases h)) (λ filled. set-Keeps (some filled))

  identify-Keeps : Keeps OnService (identify out)
  unfolding identify
  identify-Keeps =
      Keeps-bind _ _ (outside-Keeps out.identify_connection)
        (λ o. Keeps-bind _ _ (set-Keeps o) (λ t. identified-Keeps o))

  returned-Keeps : (o : Option HostInfo) → Keeps OnService (returned out o)
  unfolding returned
  returned-Keeps none = Keeps-throw aws_wrapper_error
  returned-Keeps (some h) = Keeps-pure h

  find-Keeps : (o : Option HostInfo) → Keeps OnService (find_host_info out o)
  unfolding find_host_info
  find-Keeps none = Keeps-throw aws_wrapper_error
  find-Keeps (some h) = Keeps-bind _ _ (set-Keeps (some h)) (λ t.
      Keeps-bind _ _
        (Keeps-if (out.is_rds_cluster (Host.url h)) _ _
          (Keeps-catch _ _ identify-Keeps (λ e. Keeps-throw aws_wrapper_error)) (Keeps-pure tt))
        (λ t. Keeps-bind _ _ (gets-Keeps (λ s. s.monitoring_host_info)) (λ o. returned-Keeps o)))

  known-Keeps : (o : Option HostInfo) → Keeps OnService (known_host_info out o)
  unfolding known_host_info
  known-Keeps (some h) = Keeps-pure h
  known-Keeps none = record { at = λ s h. (find-Keeps (out.current_host_info s.world)).at s h }

  get-Keeps : Keeps OnService (get_monitoring_host_info out)
  unfolding get_monitoring_host_info
  get-Keeps = record { at = λ s h. (known-Keeps s.monitoring_host_info).at s h }

  mark-Keeps : (h : HostInfo) → Keeps OnService (mark_unavailable out h)
  unfolding mark_unavailable
  mark-Keeps h = record { at = λ s p. p }

  abandon-Keeps :
      {A : Type 0} (connection : ℕ) (r : Result Exc A) (closed : Bool)
      → Keeps OnService (abandon out connection r closed)
  unfolding abandon
  abandon-Keeps connection r true = record { at = λ s p. p }
  abandon-Keeps connection r false =
      Keeps-bind _ _ (Keeps-catch _ _ (outside-Keeps (out.close connection)) (λ e. Keeps-pure tt))
        (λ t. Keeps-throw aws_wrapper_error)

  give_up-Keeps :
      {A : Type 0} (connection : ℕ) (r : Result Exc A) → Keeps OnService (give_up out connection r)
  unfolding give_up
  give_up-Keeps connection r = Keeps-bind _ _ get-Keeps (λ h. Keeps-bind _ _ (mark-Keeps h) (λ t.
      Keeps-bind _ _ (gets-Keeps (λ s. out.is_closed connection s.world))
        (abandon-Keeps connection r)))

  either_keeps :
      {A : Type 0} (b : Bool) (x y : Result Exc A × State W)
      → OnService x.1
      → OnService y.1
      → OnService (if b then x else y).1
  either_keeps true x y p q = p
  either_keeps false x y p q = q

  conclude-Keeps :
      {A : Type 0} (connection context : ℕ) (r : Result Exc A)
      → Keeps OnService (conclude out connection context r)
  unfolding conclude
  conclude-Keeps connection context r = record {
    at = λ s h.
        either_keeps (s.service.contexts context).is_host_unavailable (give_up out connection r s)
          (r, s) ((give_up-Keeps connection r).at s h) h;
  }

-- What `start_monitoring` leaves: one more active context, which it returns.
abbrev Opened : (ℕ → Type 0) → ℕ → Service → Type 0
Opened Open c v = Quiet (λ d. Open d ⊎ (d ≡ c)) v.contexts

abbrev fresh_context : Call → MonitoringContext
fresh_context k =
    init k.failure_detection_time_ms k.failure_detection_interval_ms k.failure_detection_count

begin_context-Opened :
    (k : Call) (Open : ℕ → Type 0) (m : ℕ) (v : Service)
    → Quiet Open v.contexts
    → Ends (Opened Open) (λ e w. Quiet Open w.contexts) (begin_context k m v)
unfolding begin_context
begin_context-Opened k Open m v q = Ends-ok v.next_context (begin_context k m v).1 (λ c e.
    elim (ℕ_discrete c v.next_context) [
      | yes p ↦ inr p
      | no n ↦ inl (
          q c (
            ap (λ x. x.is_active)
              (sym (
                write_other (write v.contexts v.next_context (fresh_context k)) v.next_context c _ n
                ∙ write_other v.contexts v.next_context c (fresh_context k) n))
            ∙ e))
    ])

stop_monitoring-Quiet :
    (k : Call) (Open : ℕ → Type 0) (c : ℕ) (v : Service)
    → Opened Open c v
    → Quiet Open (stop_monitoring k c v).contexts
unfolding stop_monitoring
stop_monitoring-Quiet k Open c v q d e = elim (ℕ_discrete d c) [
  | yes p ↦
      let f =
        ap (λ x. x.is_active)
          (ap (write v.contexts c (record (v.contexts c) { is_active = false })) p
            ∙ write_self v.contexts c _) in
      ground (arith, f, e)
  | no n ↦ elim (q d (ap (λ x. x.is_active) (sym (write_other v.contexts c d _ n)) ∙ e)) [
    | inl o ↦ o
    | inr p ↦ absurd (n p)
  ]
]

on_container-Ends :
    {A : Type 0} (Open : ℕ → Type 0) (r : Result Exc A × Container) (v : Service)
    → Quiet Open v.contexts
    → Ends (λ a w. Quiet Open w.contexts) (λ e w. Quiet Open w.contexts) (on_container r v)
on_container-Ends Open (ok a, c) v q = Ends-ok a _ q
on_container-Ends Open (raised e, c) v q = Ends-raised e _ q

monitor_for-Ends :
    (k : Call) (aliases : List String) (o : Option ℕ) (Open : ℕ → Type 0) (v : Service)
    → Quiet Open v.contexts
    → Ends (λ m w. Quiet Open w.contexts) (λ e w. Quiet Open w.contexts) (monitor_for k aliases o v)
unfolding monitor_for
monitor_for-Ends k aliases (some m) Open v q = Ends-ok m v q
monitor_for-Ends k aliases none Open v q =
    let r = get_or_create_monitor k.future k.supplier aliases v.container in
    Ends-bind (on_container r v) (on_container-Ends Open r v q) (λ m w h. Ends-ok m _ h)

start_monitoring-Ends :
    (k : Call) (aliases : List String) (Open : ℕ → Type 0) (v : Service)
    → Quiet Open v.contexts
    → Ends (Opened Open) (λ e w. Quiet Open w.contexts) (start_monitoring k aliases v)
unfolding start_monitoring
start_monitoring-Ends k [] Open v q = Ends-raised _ v q
start_monitoring-Ends k (alias ∷ aliases) Open v q =
    let kept = reusable k (alias ∷ aliases) v in
    Ends-bind (monitor_for k (alias ∷ aliases) kept v)
      (monitor_for-Ends k (alias ∷ aliases) kept Open v q)
      (λ m w h. begin_context-Opened k Open m w h)

module _ {W : Type 0} (out : Outside W) (k : Call) (Open : ℕ → Type 0) where
  put_service-Ends :
      {A : Type 0} (Q : A → Service → Type 0) (R : Exc → Service → Type 0) (s : State W)
      (r : Result Exc A × Service)
      → Ends Q R r
      → Ends (λ a t. Q a t.service) (λ e t. R e t.service) (put_service s r)
  put_service-Ends Q R s (ok a, v) h = Ends-ok a _ h.ending
  put_service-Ends Q R s (raised e, v) h = Ends-raised e _ h.ending

  got :
      (s : State W)
      → QuietState Open s
      → Ends (λ h. QuietState Open) (λ e. QuietState Open) (get_monitoring_host_info out s)
  got s q =
      Ends-any (get_monitoring_host_info out s)
        ((get-Keeps out (λ v. Quiet Open v.contexts)).at s q) (λ a t h. h) (λ e t h. h)

  start-Ends :
      (s : State W)
      → QuietState Open s
      → Ends (λ c t. Opened Open c t.service) (λ e. QuietState Open) (start out k s)
  unfolding start
  start-Ends s q = Ends-bind (get_monitoring_host_info out s) (got s q) (λ h t p.
      Ends-bind (get_monitoring_host_info out t) (got t p) (λ h' u p'.
        put_service-Ends (Opened Open) (λ e w. Quiet Open w.contexts) u
          (start_monitoring k h.all_aliases u.service)
          (start_monitoring-Ends k h.all_aliases Open u.service p')))

  after_call-Quiet :
      {A : Type 0} (connection c : ℕ) (r : Result Exc A × State W)
      → Opened Open c r.1.service
      → QuietState Open (after_call out k connection c r).1
  unfolding after_call stop
  after_call-Quiet connection c (r, s) q =
      (conclude-Keeps out (λ v. Quiet Open v.contexts) connection c r).at (stop out k c s)
        (stop_monitoring-Quiet k Open c s.service q)

  continue_quiet :
      {A : Type 0} (connection : ℕ) (execute_func : Act W A)
      → ((P : ℕ → Type 0) → Keeps (QuietState P) execute_func)
      → (r : Result Exc ℕ × State W)
      → Ends (λ c t. Opened Open c t.service) (λ e. QuietState Open) r
      → QuietState Open (continue (λ c t. after_call out k connection c (execute_func t)) r).1
  continue_quiet connection execute_func keeps (ok c, t) h =
      after_call-Quiet connection c (execute_func t) ((keeps (λ d. Open d ⊎ (d ≡ c))).at t h.ending)
  continue_quiet connection execute_func keeps (raised e, t) h = h.ending

  monitored-Quiet :
      {A : Type 0} (connection : ℕ) (execute_func : Act W A)
      → ((P : ℕ → Type 0) → Keeps (QuietState P) execute_func)
      → Keeps (QuietState Open) (monitored out k connection execute_func)
  unfolding monitored
  monitored-Quiet connection execute_func keeps = record {
    at = λ s q. continue_quiet connection execute_func keeps (start out k s) (start-Ends s q);
  }

  execute_on-Quiet :
      {A : Type 0} (method_name : String) (execute_func : Act W A) (o : Option ℕ)
      (h : Option HostInfo)
      → ((P : ℕ → Type 0) → Keeps (QuietState P) execute_func)
      → Keeps (QuietState Open) (execute_on out k method_name execute_func o h)
  unfolding execute_on
  execute_on-Quiet method_name execute_func none h keeps = Keeps-throw aws_wrapper_error
  execute_on-Quiet method_name execute_func (some connection) none keeps =
      Keeps-throw aws_wrapper_error
  execute_on-Quiet method_name execute_func (some connection) (some h) keeps = record {
    at = λ s q.
        either_keeps out (λ v. Quiet Open v.contexts)
          (not out.failure_detection_enabled
            || not (out.is_network_bound_method method_name s.world))
          (execute_func s) (monitored out k connection execute_func s) ((keeps Open).at s q)
          ((monitored-Quiet connection execute_func keeps).at s q);
  }

-- Let the call that runs inside leave no context active that was not active before. Then `execute`
-- does so too, on every way out of it: when it returns, when the call raises, when the monitoring
-- cannot be started, and when the host is found unavailable.
pub execute-Quiet :
    {W A : Type 0} (out : Outside W) (k : Call) (method_name : String) (execute_func : Act W A)
    → ((Open : ℕ → Type 0) → Keeps (QuietState Open) execute_func)
    → (Open : ℕ → Type 0) → Keeps (QuietState Open) (execute out k method_name execute_func)
unfolding execute
execute-Quiet out k method_name execute_func keeps Open = record {
  at = λ s q.
      (execute_on-Quiet out k Open method_name execute_func (out.current_connection s.world)
          (out.current_host_info s.world) keeps).at
        s q;
}
