-- ===== src/HostMonitoring/Plugin/Outcome.antt =====
-- host_monitoring_plugin.py: what `execute` makes of the outcome of the call that it monitors.
use aws_advanced_python_wrap.Prelude.{
  ℕ, ◌≡◌, ◌⊎◌, refl, inl, inr, Bool, true, false, Option, none, some, String, if◌then◌else◌,
}
use aws_advanced_python_wrap.Errors.{Exc, aws_wrapper_error}
use aws_advanced_python_wrap.Exec.{Result, ok, raised, pure, throw, catch}
use aws_advanced_python_wrap.Exec.Endings.{
  Ends, Ends-ok, Ends-raised, Ends-bind, Ends-catch, Ends-any, Ends-weaken,
}
use aws_advanced_python_wrap.Host.{HostInfo}
use aws_advanced_python_wrap.Host
use aws_advanced_python_wrap.HostMonitoring.Service.{Call}
use aws_advanced_python_wrap.HostMonitoring.Plugin.{
  State, Outside, Act, outside, set_monitoring_host_info, identify, returned, find_host_info,
  known_host_info, mark_unavailable, abandon, get_monitoring_host_info, start, give_up, stop,
  conclude, after_call, monitored, execute_on, execute,
}

module _ {W : Type 0} (out : Outside W) where
  -- Only AwsWrapperError is raised.
  abbrev Wrapped : {A : Type 0} → Result Exc A × State W → Type 0
  Wrapped r = Ends (λ a s. Unit {0}) (λ e s. e ≡ aws_wrapper_error) r

  returned-Wrapped : (o : Option HostInfo) (s : State W) → Wrapped (returned out o s)
  unfolding returned
  returned-Wrapped none s = Ends-raised _ s refl
  returned-Wrapped (some h) s = Ends-ok h s tt

  identified-Wrapped :
      (b : Bool) (s : State W)
      → Wrapped ((if b then catch (identify out) (λ e. throw aws_wrapper_error) else pure tt) s)
  identified-Wrapped true s =
      Ends-catch {R' = λ e t. Unit} (identify out s)
        (Ends-any {P = λ t. Unit} (identify out s) tt (λ a t h. tt) (λ e t h. tt))
        (λ e t h. Ends-raised _ t refl)
  identified-Wrapped false s = Ends-ok tt s tt

  find-Wrapped : (o : Option HostInfo) (s : State W) → Wrapped (find_host_info out o s)
  unfolding find_host_info set_monitoring_host_info
  find-Wrapped none s = Ends-raised _ s refl
  find-Wrapped (some h) s =
      let t = record s { monitoring_host_info = some h } in
      let b = out.is_rds_cluster (Host.url h) in
      Ends-bind ((if b then catch (identify out) (λ e. throw aws_wrapper_error) else pure tt) t)
        (identified-Wrapped b t) (λ a u p. returned-Wrapped u.monitoring_host_info u)

  known-Wrapped : (o : Option HostInfo) (s : State W) → Wrapped (known_host_info out o s)
  unfolding known_host_info
  known-Wrapped (some h) s = Ends-ok h s tt
  known-Wrapped none s = find-Wrapped (out.current_host_info s.world) s

  get-Wrapped : (s : State W) → Wrapped (get_monitoring_host_info out s)
  unfolding get_monitoring_host_info
  get-Wrapped s = known-Wrapped s.monitoring_host_info s

  -- The outcome `r` is passed on where the connection is closed; else there is AwsWrapperError.
  abbrev Passed : {A : Type 0} → ℕ → Result Exc A → Result Exc A × State W → Type 0
  Passed connection r x =
      Ends (λ a t. (r ≡ ok a) × (out.is_closed connection t.world ≡ true))
        (λ e t. (r ≡ raised e) ⊎ (e ≡ aws_wrapper_error)) x

  abandon-Passed :
      {A : Type 0} (connection : ℕ) (r : Result Exc A) (closed : Bool) (s : State W)
      → out.is_closed connection s.world ≡ closed
      → Passed connection r (abandon out connection r closed s)
  unfolding abandon
  abandon-Passed connection (ok a) true s e = Ends-ok a s (refl, e)
  abandon-Passed connection (raised x) true s e = Ends-raised x s (inl refl)
  abandon-Passed connection r false s e =
      Ends-bind {M = λ a t. Unit} (ignored s)
        (Ends-catch {R' = λ e t. Unit} closing
          (Ends-any {P = λ t. Unit} closing tt (λ a t h. tt) (λ e t h. tt))
          (λ x t h. Ends-ok tt t tt))
        (λ a t h. Ends-raised _ t (inr refl))
    where
      closing : Result Exc (Unit {0}) × State W
      closing = outside (out.close connection) s

      ignored : State W → Result Exc (Unit {0}) × State W
      ignored = catch (outside (out.close connection)) (λ e. pure tt)

  give_up-Passed :
      {A : Type 0} (connection : ℕ) (r : Result Exc A) (s : State W)
      → Passed connection r (give_up out connection r s)
  unfolding give_up mark_unavailable
  give_up-Passed connection r s =
      Ends-bind (get_monitoring_host_info out s)
        (Ends-weaken (get_monitoring_host_info out s) (get-Wrapped s) (λ a t h. h) (λ e t h. inr h))
        (λ h t p.
          let u = record t { world = out.set_unavailable h.all_aliases t.world } in
          abandon-Passed connection r (out.is_closed connection u.world) u refl)

  -- What `execute` may make of the outcome `r` of the call, when the monitor found `unavailable`.
  abbrev pub Concluded : {A : Type 0} → ℕ → Bool → Result Exc A → Result Exc A × State W → Type 0
  Concluded connection unavailable r x =
      Ends (λ a t. (r ≡ ok a) × ((unavailable ≡ false) ⊎ (out.is_closed connection t.world ≡ true)))
        (λ e t. (r ≡ raised e) ⊎ ((e ≡ aws_wrapper_error) × (unavailable ≡ true))) x

  unchanged :
      {A : Type 0} (connection : ℕ) (r : Result Exc A) (s : State W)
      → Concluded connection false r (r, s)
  unchanged connection (ok a) s = Ends-ok a s (refl, inl refl)
  unchanged connection (raised e) s = Ends-raised e s (inl refl)

  conclude-Concluded :
      {A : Type 0} (connection : ℕ) (unavailable : Bool) (r : Result Exc A) (s : State W)
      → Concluded connection unavailable r
          (if unavailable then give_up out connection r s else (r, s))
  conclude-Concluded connection true r s =
      Ends-weaken (give_up out connection r s) (give_up-Passed connection r s)
        (λ a t h. (h.0, inr h.1)) (λ e t h. elim h [ inl p ↦ inl p | inr q ↦ inr (q, refl) ])
  conclude-Concluded connection false r s = unchanged connection r s

-- Let a call be monitored: there are a connection and a host, the detection is enabled, the method is
-- bound to the network, the monitoring starts in the state `before` under the number `context`, and
-- the call ends with the outcome `r`. If `execute` returns, it returns what the call returned, and the
-- context did not take the host for unavailable or the connection was closed already. If it raises,
-- then the exception is the call's, or it is AwsWrapperError and the context took the host for
-- unavailable.
pub execute-Concluded :
    {W A : Type 0} (out : Outside W) (k : Call) (method_name : String) (execute_func : Act W A)
    → (s before after : State W) (connection context : ℕ) (h : HostInfo) (r : Result Exc A)
    → out.current_connection s.world ≡ some connection
    → out.current_host_info s.world ≡ some h
    → out.failure_detection_enabled ≡ true
    → out.is_network_bound_method method_name s.world ≡ true
    → start out k s ≡ (ok context, before)
    → execute_func before ≡ (r, after)
    → Concluded out connection
        ((stop out k context after).service.contexts context).is_host_unavailable
        r
        (execute out k method_name execute_func s)
unfolding execute execute_on monitored after_call conclude
execute-Concluded out k method_name execute_func s before after connection context h r e1 e2 e3 e4
      e5 e6 =
    rw (e1, e2, e3, e4, e5, e6) (conclude-Concluded out connection _ r (stop out k context after))
