-- ===== src/ReaderFailover/Event.antt =====
-- reader_failover_handler.py: `_timeout_event` is set by every batch and never cleared.
use aws_advanced_python_wrap.Prelude.{
  ℕ, zero, suc, ◌≡◌, refl, ◌≢◌, ◌∙◌, sym, ap, Bool, true, false, Bool-cases, inl, inr, List, [],
  ◌∷◌, if◌then◌else◌, arith,
}
use aws_advanced_python_wrap.Host.{HostInfo}
use aws_advanced_python_wrap.Failover.{ReaderFailoverResult}
use aws_advanced_python_wrap.ReaderFailover.{
  Service, State, Pass, finished, again, failed_reader_failover_result, is_final, run_batch,
  get_hosts_by_priority, get_connection_from_host_group, pass, resume, internal_failover_task,
  failover,
}

if_true : {A : Type 0} (b : Bool) (x y : A) → b ≡ true → (if b then x else y) ≡ x
if_true true x y e = refl
if_true false x y e = cc

if_false : {A : Type 0} (b : Bool) (x y : A) → b ≡ false → (if b then x else y) ≡ y
if_false false x y e = refl
if_false true x y e = cc

module _ {W : Type 0} (v : Service W) where
  group-set :
      (hosts : List HostInfo) (s : State W)
      → s.timeout_event ≡ true
      → (get_connection_from_host_group v hosts s).1.timeout_event ≡ true
  unfolding get_connection_from_host_group run_batch
  group-set [] s e = e
  group-set (h ∷ []) s e = ground arith
  group-set (h ∷ g ∷ hosts) s e = elim (Bool-cases (is_final (run_batch v (h ∷ g ∷ []) s).0)) [
    | inl b ↦ rw b refl
    | inr b ↦ rw b (group-set hosts (run_batch v (h ∷ g ∷ []) s).1 refl)
  ]

  group-sets :
      (hosts : List HostInfo) (s : State W)
      → hosts ≢ []
      → (get_connection_from_host_group v hosts s).1.timeout_event ≡ true
  unfolding get_connection_from_host_group run_batch
  group-sets [] s ne = elim (ne refl) [ ]
  group-sets (h ∷ []) s ne = ground arith
  group-sets (h ∷ g ∷ hosts) s ne = elim (Bool-cases (is_final (run_batch v (h ∷ g ∷ []) s).0)) [
    | inl b ↦ rw b refl
    | inr b ↦ rw b (group-set hosts (run_batch v (h ∷ g ∷ []) s).1 refl)
  ]

  pass-sets :
      (strict : Bool) (topology : List HostInfo) (s : State W)
      → get_hosts_by_priority v topology strict ≢ []
      → (pass v strict topology s).1.timeout_event ≡ true
  unfolding pass
  pass-sets strict topology s ne = group-sets (get_hosts_by_priority v topology strict) s ne

  task-stopped :
      (n : ℕ) (strict : Bool) (topology : List HostInfo) (s : State W)
      → s.timeout_event ≡ true
      → internal_failover_task v n strict topology s ≡ (failed_reader_failover_result, s)
  unfolding internal_failover_task
  task-stopped zero strict topology s e = refl
  task-stopped (suc n) strict topology s e = if_true s.timeout_event _ _ e

  resumed :
      (n m : ℕ) (strict : Bool) (r : Pass × State W)
      → r.1.timeout_event ≡ true
      → (resume v (internal_failover_task v n strict) r
          ≡ resume v (internal_failover_task v m strict) r)
        × ((resume v (internal_failover_task v n strict) r).1.timeout_event ≡ true)
  unfolding resume
  resumed n m strict (finished x, s) e = (refl, e)
  resumed n m strict (again topology, s) e =
      let p = task-stopped n strict topology s e in
      (p ∙ sym (task-stopped m strict topology s e), ap (λ r. r.1.timeout_event) p ∙ e)

  task-sets :
      (n m : ℕ) (strict : Bool) (topology : List HostInfo) (s : State W)
      → get_hosts_by_priority v topology strict ≢ []
      → (internal_failover_task v (suc n) strict topology s
          ≡ internal_failover_task v (suc m) strict topology s)
        × ((internal_failover_task v (suc n) strict topology s).1.timeout_event ≡ true)
  unfolding internal_failover_task
  task-sets n m strict topology s ne = elim (Bool-cases s.timeout_event) [
    | inl e ↦ (
      if_true s.timeout_event _ _ e ∙ sym (if_true s.timeout_event _ _ e),
      ap (λ r. r.1.timeout_event)
            (if_true s.timeout_event (failed_reader_failover_result, s)
              (resume v (internal_failover_task v n strict) (pass v strict topology s)) e)
          ∙ e,
    )
    | inr e ↦
        (let q = resumed n m strict (pass v strict topology s) (pass-sets strict topology s ne) in
          (
            if_false s.timeout_event _ _ e ∙ q.0 ∙ sym (if_false s.timeout_event _ _ e),
            ap (λ r. r.1.timeout_event)
                  (if_false s.timeout_event (failed_reader_failover_result, s)
                    (resume v (internal_failover_task v n strict) (pass v strict topology s)) e)
                ∙ q.1,
          ))
  ]

  abbrev spent : State W → ReaderFailoverResult × State W
  spent s = (failed_reader_failover_result, s)

  kept :
      (b : Bool) (s : State W)
      → s.timeout_event ≡ true
      → (if b then spent (record s { timeout_event = true }) else spent s) ≡ spent s
  kept true s e = ap (λ t. spent (record s { timeout_event = t })) (sym e)
  kept false s e = refl

  failover-stopped :
      (fuel : ℕ) (strict timed_out : Bool) (topology : List HostInfo) (s : State W)
      → s.timeout_event ≡ true
      → failover v fuel strict timed_out topology s ≡ (failed_reader_failover_result, s)
  unfolding failover
  failover-stopped fuel strict timed_out [] s e = refl
  failover-stopped fuel strict timed_out (h ∷ topology) s e =
      rw (task-stopped fuel strict (h ∷ topology) s e) (kept timed_out s e)

  failover-sets :
      (fuel : ℕ) (strict timed_out : Bool) (h : HostInfo) (topology : List HostInfo) (s : State W)
      → get_hosts_by_priority v (h ∷ topology) strict ≢ []
      → (failover v (suc fuel) strict timed_out (h ∷ topology) s).1.timeout_event ≡ true
  unfolding failover
  failover-sets fuel strict true h topology s ne = refl
  failover-sets fuel strict false h topology s ne =
      (task-sets fuel fuel strict (h ∷ topology) s ne).1

  -- When the topology gives at least one host to try, one pass of the loop is all that any fuel
  -- above zero runs, so the loop ends.
  pub internal_failover_task-fuel :
      (fuel : ℕ) (strict : Bool) (topology : List HostInfo) (s : State W)
      → get_hosts_by_priority v topology strict ≢ []
      → internal_failover_task v (suc fuel) strict topology s
        ≡ internal_failover_task v 1 strict topology s
  internal_failover_task-fuel fuel strict topology s ne = (task-sets fuel 0 strict topology s ne).0

  -- After a failover over a topology that gives at least one host to try, the handler is used up:
  -- every later failover of it fails at once, whatever its topology, and leaves the world as it is.
  pub failover-failover :
      (fuel fuel' : ℕ) (strict timed_out timed_out' : Bool) (h : HostInfo)
      (topology topology' : List HostInfo) (s : State W)
      → get_hosts_by_priority v (h ∷ topology) strict ≢ []
      → failover v fuel' strict timed_out' topology'
          (failover v (suc fuel) strict timed_out (h ∷ topology) s).1
        ≡ (
          failed_reader_failover_result,
          (failover v (suc fuel) strict timed_out (h ∷ topology) s).1,
        )
  failover-failover fuel fuel' strict timed_out timed_out' h topology topology' s ne =
      failover-stopped fuel' strict timed_out' topology'
        (failover v (suc fuel) strict timed_out (h ∷ topology) s).1
        (failover-sets fuel strict timed_out h topology s ne)
