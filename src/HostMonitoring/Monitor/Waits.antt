-- ===== src/HostMonitoring/Monitor/Waits.antt =====
-- host_monitoring_plugin.py: how long a monitor waits between two passes.
use aws_advanced_python_wrap.Prelude.{
  ℕ, zero, suc, ◌+◌, ◌*◌, ◌≤◌, ◌<◌, ◌⊎◌, inl, inr, Bool, true, false, not, ◌||◌, Bool-cases, Option,
  none, some, List, [], ◌∷◌, ◌++◌, if◌then◌else◌, ltb, leb, ◌==◌, length, arith,
}
use aws_advanced_python_wrap.HostMonitoring.Context.{
  MonitoringContext, StatusCheck, update_host_status,
}
use aws_advanced_python_wrap.HostMonitoring.Context.Failures.{update-SameSettings}
use aws_advanced_python_wrap.HostMonitoring.Monitor.{
  Store, write, Monitor, is_first, first_or, process_new, shorter, Round, process_active, Next,
  wait, release, plan, Readings, check_of, idle, check_active, pass_over, pass,
}

-- No context has a longer interval.
abbrev pub Intervals : ℕ → Store → Type 0
Intervals limit store = (c : ℕ) → (store c).failure_detection_interval_ms ≤ limit

abbrev Delay : ℕ → Option ℕ → Type 0
Delay limit none = Unit
Delay limit (some d) = d ≤ limit

shorter-Delay :
    (limit : ℕ) (o : Option ℕ) (interval : ℕ)
    → Delay limit o
    → interval ≤ limit
    → Delay limit (shorter o interval)
shorter-Delay limit none interval d h = h
shorter-Delay limit (some e) interval d h = elim (Bool-cases (ltb interval e)) [
  | inl b ↦ rw b h
  | inr b ↦ rw b d
]

write-Intervals :
    (limit : ℕ) (store : Store) (c : ℕ) (v : MonitoringContext)
    → Intervals limit store
    → v.failure_detection_interval_ms ≤ limit
    → Intervals limit (write store c v)
write-Intervals limit store c v h i d = chosen (c == d)
  where
    chosen : (b : Bool) → (if b then v else store d).failure_detection_interval_ms ≤ limit
    chosen true = i
    chosen false = h d

updated_interval :
    (limit : ℕ) (k : StatusCheck) (store : Store) (c : ℕ)
    → Intervals limit store
    → (update_host_status k (store c)).0.failure_detection_interval_ms ≤ limit
updated_interval limit k store c h = let m = update-SameSettings k (store c) in rw m.interval (h c)

any_round : (P : Round → Type 0) (b : Bool) (x y : Round) → P x → P y → P (if b then x else y)
any_round P true x y p q = p
any_round P false x y p q = q

process_active-Delay :
    (limit fuel : ℕ) (k : StatusCheck) (first : Option ℕ) (queue : List ℕ) (store : Store)
    (delay : Option ℕ)
    → Intervals limit store
    → Delay limit delay
    → Delay limit (process_active fuel k first queue store delay).delay_ms
unfolding process_active
process_active-Delay limit zero k first queue store delay h d = d
process_active-Delay limit (suc fuel) k first [] store delay h d = d
process_active-Delay limit (suc fuel) k first (c ∷ queue) store delay h d =
    let v = (update_host_status k (store c)).0 in
    let i = updated_interval limit k store c h in
    let h' = write-Intervals limit store c v h i in
    let P : Round → Type 0 = λ r. Delay limit r.delay_ms in
    any_round P (not (store c).is_active) _ _
      (process_active-Delay limit fuel k first queue store delay h d)
      (any_round P (is_first first c) _ _ d (
        any_round P (not v.is_active || v.is_host_unavailable) _ _
          (process_active-Delay limit fuel k first queue (write store c v) delay h' d)
          (process_active-Delay limit fuel k (first_or first c) (queue ++ (c ∷ []))
            (write store c v) (shorter delay v.failure_detection_interval_ms) h'
            (shorter-Delay limit delay v.failure_detection_interval_ms d i))))

-- A wait is not empty, and not longer than three seconds or the longest interval.
abbrev pub Waits : ℕ → Next → Type 0
Waits limit release = Unit
Waits limit (wait d) = (0 < d) × ((d ≤ 3_000_000_000) ⊎ (d ≤ limit * 1_000_000))

plan-Waits :
    (limit elapsed : ℕ) (o : Option ℕ) (m : Monitor)
    → Delay limit o
    → Waits limit (plan elapsed o m).0
unfolding plan
plan-Waits limit elapsed none m d = (omega arith, inl (omega arith))
plan-Waits limit elapsed (some e) m d = elim (Bool-cases (leb (e * 1_000_000) elapsed)) [
  | inl b ↦ rw b (omega arith, inl (omega arith))
  | inr b ↦ rw b ((ground (arith, b)), inr (omega (arith, d)))
]

any_next :
    (limit : ℕ) (b : Bool) (x y : Next × Monitor)
    → Waits limit x.0
    → Waits limit y.0
    → Waits limit (if b then x else y).0
any_next limit true x y p q = p
any_next limit false x y p q = q

pass_over-Waits :
    (limit : ℕ) (r : Readings) (queue : List ℕ) (m : Monitor) (store : Store)
    → Intervals limit store
    → Waits limit (pass_over r queue m store).0
unfolding pass_over idle check_active
pass_over-Waits limit r [] m store h =
    any_next limit (leb (m.context_last_used_ns + m.monitor_disposal_time_ms * 1_000_000) r.idle_at)
      _ _ tt (omega arith, inl (omega arith))
pass_over-Waits limit r (c ∷ queue) m store h =
    plan-Waits limit r.elapsed_ns
      (process_active (suc (length (c ∷ queue))) (check_of r) none (c ∷ queue) store none).delay_ms
      _
      (process_active-Delay limit (suc (length (c ∷ queue))) (check_of r) none (c ∷ queue) store
        none h tt)

-- Let no context have a longer interval than `limit` milliseconds. Then after a pass the monitor is
-- released, or it waits for a time that is not zero and not longer than three seconds or `limit`,
-- however long the check of the host took.
pub pass-Waits :
    (limit : ℕ) (r : Readings) (m : Monitor) (store : Store)
    → Intervals limit store
    → Waits limit (pass r m store).0
unfolding pass
pass-Waits limit r m store h =
    let p =
      process_new (suc (length m.new_contexts)) store r.now none m.new_contexts m.active_contexts in
    pass_over-Waits limit r p.1 _ store h
