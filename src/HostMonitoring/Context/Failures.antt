-- ===== src/HostMonitoring/Context/Failures.antt =====
-- host_monitoring_plugin.py: when a context takes its host for unavailable.
use aws_advanced_python_wrap.Prelude.{
  ℕ, ◌+◌, ◌*◌, ◌<◌, ◌≡◌, ◌≢◌, refl, ◌∙◌, subst, ◌↔◌, ◌⊎◌, inl, inr, Bool, true, false, List, [],
  ◌∷◌, ◌++◌, if◌then◌else◌, ◌==◌, All, arith,
}
use aws_advanced_python_wrap.HostMonitoring.Context.{
  MonitoringContext, StatusCheck, max_unavailable_host_duration_ns, count_failure, judge,
  update_host_status,
}

-- The context after the checks of a history.
unfoldable pub checked : List StatusCheck → MonitoringContext → MonitoringContext
checked [] c = c
checked (k ∷ ks) c = checked ks (update_host_status k c).0

checked-append :
    (xs ys : List StatusCheck) (c : MonitoringContext)
    → checked (xs ++ ys) c ≡ checked ys (checked xs c)
unfolding checked
checked-append [] ys c = refl
checked-append (k ∷ xs) ys c = checked-append xs ys (update_host_status k c).0

-- The settings and the flag of activity, which checks leave alone.
pub record SameSettings (c d : MonitoringContext) : Type 0 where
  pub time : d.failure_detection_time_ms ≡ c.failure_detection_time_ms
  pub interval : d.failure_detection_interval_ms ≡ c.failure_detection_interval_ms
  pub count : d.failure_detection_count ≡ c.failure_detection_count
  pub start : d.monitor_start_time_ns ≡ c.monitor_start_time_ns
  pub active : d.is_active ≡ c.is_active

pub update-SameSettings :
    (k : StatusCheck) (c : MonitoringContext) → SameSettings c (update_host_status k c).0
unfolding update_host_status
update-SameSettings k c = ground arith

checked-SameSettings :
    (ks : List StatusCheck) (c : MonitoringContext) → SameSettings c (checked ks c)
unfolding checked
checked-SameSettings [] c = record {
  time = refl;
  interval = refl;
  count = refl;
  start = refl;
  active = refl;
}
checked-SameSettings (k ∷ ks) c =
    ground (arith, update-SameSettings k c, checked-SameSettings ks (update_host_status k c).0)

-- The check ended after the grace period of the context, so that it counts.
abbrev pub Counts : MonitoringContext → StatusCheck → Type 0
Counts c k = c.monitor_start_time_ns + c.failure_detection_time_ms * 1_000_000 < k.end_time_ns

-- The check failed, and started at a time that is not zero.
abbrev pub Failed : MonitoringContext → StatusCheck → Type 0
Failed c k = Counts c k × (k.is_available ≡ false) × (k.start_time_ns ≢ 0)

-- One of the checks ended later than the limit after `start`.
abbrev pub Exceeds : ℕ → List StatusCheck → Type 0
Exceeds limit [] = ⊥
Exceeds limit (k ∷ ks) = (limit < k.end_time_ns) ⊎ Exceeds limit ks

first_start : ℕ → ℕ → ℕ
first_start old start = if old == 0 then start else old

failure-update :
    (k : StatusCheck) (c : MonitoringContext)
    → c.is_active ≡ true
    → Failed c k
    → (update_host_status k c).0 ≡ (judge k.end_time_ns (count_failure k.start_time_ns c)).0
unfolding update_host_status
failure-update k c a f = ground arith

judge-unavailable :
    (end : ℕ) (c : MonitoringContext)
    → ((judge end c).0.is_host_unavailable ≡ true) ↔ (
        (c.is_host_unavailable ≡ true)
        ⊎ (c.unavailable_host_start_time_ns + max_unavailable_host_duration_ns c < end))
unfolding judge
judge-unavailable end c = ground arith

judge-start :
    (end : ℕ) (c : MonitoringContext)
    → (judge end c).0.unavailable_host_start_time_ns ≡ c.unavailable_host_start_time_ns
unfolding judge
judge-start end c = ground arith

success-update :
    (k : StatusCheck) (c : MonitoringContext)
    → c.is_active ≡ true
    → Counts c k
    → k.is_available ≡ true
    → ((update_host_status k c).0.unavailable_host_start_time_ns ≡ 0)
      × ((update_host_status k c).0.is_host_unavailable ≡ false)
unfolding update_host_status
success-update k c a f e = ground arith

chain : {A B C D E : Type 0} → A ↔ (B ⊎ E) → B ↔ (C ⊎ D) → A ↔ (C ⊎ (D ⊎ E))
chain p q = ground arith

All-Failed :
    (c d : MonitoringContext) (ks : List StatusCheck)
    → SameSettings c d
    → All (Failed c) ks
    → All (Failed d) ks
All-Failed c d [] m a = tt
All-Failed c d (k ∷ ks) m (f, a) = ((ground arith, f.1, f.2), All-Failed c d ks m a)

limit-update :
    (k : StatusCheck) (c : MonitoringContext)
    → max_unavailable_host_duration_ns (update_host_status k c).0
      ≡ max_unavailable_host_duration_ns c
limit-update k c = let m = update-SameSettings k c in rw (m.interval, m.count) refl

-- One more failed check of a failure that started at `start`.
failure-next :
    (k : StatusCheck) (c : MonitoringContext) (start : ℕ)
    → c.is_active ≡ true
    → Failed c k
    → (count_failure k.start_time_ns c).unavailable_host_start_time_ns ≡ start
    → ((update_host_status k c).0.unavailable_host_start_time_ns ≡ start)
      × (((update_host_status k c).0.is_host_unavailable ≡ true) ↔ (
          (c.is_host_unavailable ≡ true)
          ⊎ (start + max_unavailable_host_duration_ns c < k.end_time_ns)))
unfolding count_failure
failure-next k c start a f e =
    let d = count_failure k.start_time_ns c in
    rw (failure-update k c a f) (
      judge-start k.end_time_ns d ∙ e,
      subst
          (λ s. ((judge k.end_time_ns d).0.is_host_unavailable ≡ true) ↔ (
            (c.is_host_unavailable ≡ true)
            ⊎ (s + max_unavailable_host_duration_ns c < k.end_time_ns)))
          e (judge-unavailable k.end_time_ns d),
    )

kept_start :
    (k : StatusCheck) (c : MonitoringContext) (start : ℕ)
    → c.unavailable_host_start_time_ns ≡ start
    → start ≢ 0
    → (count_failure k.start_time_ns c).unavailable_host_start_time_ns ≡ start
unfolding count_failure
kept_start k c start e ne = ground arith

new_start :
    (k : StatusCheck) (c : MonitoringContext)
    → c.unavailable_host_start_time_ns ≡ 0
    → (count_failure k.start_time_ns c).unavailable_host_start_time_ns ≡ k.start_time_ns
unfolding count_failure
new_start k c e = ground arith

failures-run :
    (ks : List StatusCheck) (c : MonitoringContext) (start : ℕ)
    → c.is_active ≡ true
    → c.unavailable_host_start_time_ns ≡ start
    → start ≢ 0
    → All (Failed c) ks
    → ((checked ks c).is_host_unavailable ≡ true)
      ↔ ((c.is_host_unavailable ≡ true) ⊎ Exceeds (start + max_unavailable_host_duration_ns c) ks)
unfolding checked
failures-run [] c start a e ne f = (λ h. inl h, λ h. elim h [ inl p ↦ p | inr q ↦ absurd q ])
failures-run (k ∷ ks) c start a e ne (f, fs) =
    let d = (update_host_status k c).0 in
    let m = update-SameSettings k c in
    let (s, u) = failure-next k c start a f (kept_start k c start e ne) in
    let rest = failures-run ks d start (m.active ∙ a) s ne (All-Failed c d ks m fs) in
    chain
      (subst
        (λ l.
          ((checked ks d).is_host_unavailable ≡ true)
          ↔ ((d.is_host_unavailable ≡ true) ⊎ Exceeds (start + l) ks))
        (limit-update k c) rest)
      u

Counts-SameSettings :
    (c d : MonitoringContext) (k : StatusCheck) → SameSettings c d → Counts c k → Counts d k
Counts-SameSettings c d k m h = ground arith

limit-checked :
    (ks : List StatusCheck) (c : MonitoringContext)
    → max_unavailable_host_duration_ns (checked ks c) ≡ max_unavailable_host_duration_ns c
limit-checked ks c = let m = checked-SameSettings ks c in rw (m.interval, m.count) refl

checked-cons :
    (k : StatusCheck) (ks : List StatusCheck) (c : MonitoringContext)
    → checked (k ∷ ks) c ≡ checked ks (update_host_status k c).0
unfolding checked
checked-cons k ks c = refl

-- When the checks in a row since a success were `k` and `ks`, all of them failed.
after_success :
    (k : StatusCheck) (ks : List StatusCheck) (c : MonitoringContext)
    → c.is_active ≡ true
    → c.unavailable_host_start_time_ns ≡ 0
    → c.is_host_unavailable ≡ false
    → All (Failed c) (k ∷ ks)
    → ((checked (k ∷ ks) c).is_host_unavailable ≡ true)
      ↔ Exceeds (k.start_time_ns + max_unavailable_host_duration_ns c) (k ∷ ks)
unfolding checked
after_success k ks c a e n (f, fs) =
    let d = (update_host_status k c).0 in
    let m = update-SameSettings k c in
    let (s, u) = failure-next k c k.start_time_ns a f (new_start k c e) in
    let rest = failures-run ks d k.start_time_ns (m.active ∙ a) s f.2 (All-Failed c d ks m fs) in
    first_failure n (
      chain
        (subst
          (λ l.
            ((checked ks d).is_host_unavailable ≡ true)
            ↔ ((d.is_host_unavailable ≡ true) ⊎ Exceeds (k.start_time_ns + l) ks))
          (limit-update k c) rest)
        u)
  where
    first_failure : {A B : Type 0} {b : Bool} → b ≡ false → A ↔ ((b ≡ true) ⊎ B) → A ↔ B
    first_failure n p = (λ x. elim (p.0 x) [ inl q ↦ cc | inr q ↦ q ], λ x. p.1 (inr x))

-- Let a context be active, let a check that counts have found its host available, and let every
-- check since have failed, with starting times that are not zero. Then the context takes its host for
-- unavailable exactly when one of these checks ended later than the limit (the interval times the
-- count) after the first of them had started, whatever was checked before.
-- How many checks failed does not matter.
pub checked-unavailable :
    (before : List StatusCheck) (a k : StatusCheck) (ks : List StatusCheck) (c : MonitoringContext)
    → c.is_active ≡ true
    → Counts c a
    → a.is_available ≡ true
    → All (Failed c) (k ∷ ks)
    → ((checked (before ++ (a ∷ k ∷ ks)) c).is_host_unavailable ≡ true)
      ↔ Exceeds (k.start_time_ns + max_unavailable_host_duration_ns c) (k ∷ ks)
checked-unavailable before a k ks c act counts ok_a fs =
    let d = checked before c in
    let m = checked-SameSettings before c in
    let d' = (update_host_status a d).0 in
    let m' = update-SameSettings a d in
    let (s, n) = success-update a d (m.active ∙ act) (Counts-SameSettings c d a m counts) ok_a in
    rw (checked-append before (a ∷ k ∷ ks) c, checked-cons a (k ∷ ks) d)
      (subst
        (λ l.
          ((checked (k ∷ ks) d').is_host_unavailable ≡ true)
          ↔ Exceeds (k.start_time_ns + l) (k ∷ ks))
        (limit-update a d ∙ limit-checked before c)
        (after_success k ks d' (m'.active ∙ m.active ∙ act) s n
          (All-Failed d d' (k ∷ ks) m' (All-Failed c d (k ∷ ks) m fs))))
