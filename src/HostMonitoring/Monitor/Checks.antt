-- ===== src/HostMonitoring/Monitor/Checks.antt =====
-- host_monitoring_plugin.py: the loop of `Monitor.run` over the active contexts against one walk.
use aws_advanced_python_wrap.Prelude.{
  ℕ, suc, ◌≡◌, ◌≢◌, refl, ◌∙◌, sym, ap, subst, inl, inr, Bool, true, false, not, ◌&&◌, Bool-cases,
  Option, none, some, List, [], ◌∷◌, ◌++◌, if◌then◌else◌, length, select, All, arith,
}
use mathlib.Core.List.{append-nil, append_assoc}
use aws_advanced_python_wrap.HostMonitoring.Context.{
  MonitoringContext, StatusCheck, update_host_status,
}
use aws_advanced_python_wrap.HostMonitoring.Context.Failures.{update-SameSettings}
use aws_advanced_python_wrap.HostMonitoring.Monitor.{
  Store, write, is_first, first_or, shorter, Round, process_active,
}
use aws_advanced_python_wrap.HostMonitoring.Monitor.Rounds.{
  IsDistinct, rotated, head, head-put, Apart, Apart-put, Apart-nil, not_first, if_again,
  first_again,
}

abbrev pub updated : StatusCheck → MonitoringContext → MonitoringContext
updated k v = (update_host_status k v).0

-- The context stays in the queue: its call goes on, and its host is not unavailable.
abbrev pub stays : StatusCheck → MonitoringContext → Bool
stays k v = v.is_active && not (updated k v).is_host_unavailable

-- The shortest interval of the contexts that stay.
abbrev pub shortest : StatusCheck → Store → Option ℕ → List ℕ → Option ℕ
shortest k store d [] = d
shortest k store d (c ∷ queue) =
    let with_it = shortest k store (shorter d (store c).failure_detection_interval_ms) queue in
    let without = shortest k store d queue in if stays k (store c) then with_it else without

step_store : StatusCheck → Store → ℕ → Store
step_store k s c = if (s c).is_active then write s c (updated k (s c)) else s

round_store : StatusCheck → Store → List ℕ → Store
round_store k s [] = s
round_store k s (c ∷ queue) = round_store k (step_store k s c) queue

module _ (k : StatusCheck) (first : Option ℕ) (fuel c : ℕ) (queue : List ℕ) (s : Store)
    (delay : Option ℕ) where
  discards :
      (s c).is_active ≡ false
      → process_active (suc fuel) k first (c ∷ queue) s delay
        ≡ process_active fuel k first queue s delay
  unfolding process_active
  discards a = ground arith

  stops :
      (s c).is_active ≡ true
      → is_first first c ≡ true
      → process_active (suc fuel) k first (c ∷ queue) s delay
        ≡ record { queue = queue ++ (c ∷ []); store = s; delay_ms = delay }
  unfolding process_active
  stops a f = ground arith

  gives_up :
      (s c).is_active ≡ true
      → is_first first c ≡ false
      → stays k (s c) ≡ false
      → process_active (suc fuel) k first (c ∷ queue) s delay
        ≡ process_active fuel k first queue (write s c (updated k (s c))) delay
  unfolding process_active
  gives_up a f h = ground arith

  keeps :
      (s c).is_active ≡ true
      → is_first first c ≡ false
      → stays k (s c) ≡ true
      → process_active (suc fuel) k first (c ∷ queue) s delay
        ≡ process_active fuel k
            (first_or first c)
            (queue ++ (c ∷ []))
            (write s c (updated k (s c)))
            (shorter delay (s c).failure_detection_interval_ms)
  unfolding process_active
  keeps a f h = let m = update-SameSettings k (s c) in ground arith

updated-inactive : (k : StatusCheck) (v : MonitoringContext) → v.is_active ≡ false → updated k v ≡ v
unfolding update_host_status
updated-inactive k v a = ground arith

pub write_self : (s : Store) (c : ℕ) (v : MonitoringContext) → write s c v c ≡ v
write_self s c v = if_again c v (s c)

pub write_other : (s : Store) (c d : ℕ) (v : MonitoringContext) → d ≢ c → write s c v d ≡ s d
write_other s c d v n = ground arith

either_store :
    (b : Bool) (x y : Store) (d : ℕ) (v : MonitoringContext)
    → (b ≡ true → x d ≡ v)
    → (b ≡ false → y d ≡ v)
    → (if b then x else y) d ≡ v
either_store true x y d v p q = p refl
either_store false x y d v p q = q refl

step_store_self : (k : StatusCheck) (s : Store) (c : ℕ) → step_store k s c c ≡ updated k (s c)
unfolding step_store
step_store_self k s c =
    either_store (s c).is_active (write s c (updated k (s c))) s c (updated k (s c))
      (λ e. write_self s c (updated k (s c))) (λ e. sym (updated-inactive k (s c) e))

step_store_other : (k : StatusCheck) (s : Store) (c d : ℕ) → d ≢ c → step_store k s c d ≡ s d
unfolding step_store
step_store_other k s c d n =
    either_store (s c).is_active (write s c (updated k (s c))) s d (s d)
      (λ e. write_other s c d (updated k (s c)) n) (λ e. refl)

-- What the walk reads of a context that is still to come is what was there before.
shortest-agree :
    (k : StatusCheck) (s t : Store) (delay : Option ℕ) (queue : List ℕ)
    → All (λ d. t d ≡ s d) queue
    → shortest k t delay queue ≡ shortest k s delay queue
shortest-agree k s t delay [] a = refl
shortest-agree k s t delay (c ∷ queue) (e, a) =
    rw
      (
        e,
        shortest-agree k s t delay queue a,
        shortest-agree k s t (shorter delay (s c).failure_detection_interval_ms) queue a,
      )
      refl

select-agree :
    (k : StatusCheck) (s t : Store) (queue : List ℕ)
    → All (λ d. t d ≡ s d) queue
    → select (λ c. stays k (t c)) queue ≡ select (λ c. stays k (s c)) queue
select-agree k s t [] a = refl
select-agree k s t (c ∷ queue) (e, a) = rw (e, select-agree k s t queue a) refl

All-other :
    (k : StatusCheck) (s : Store) (c : ℕ) (queue : List ℕ)
    → All (λ d. d ≢ c) queue
    → All (λ d. step_store k s c d ≡ s d) queue
All-other k s c [] n = tt
All-other k s c (d ∷ queue) (n, ns) = (step_store_other k s c d n, All-other k s c queue ns)

-- The contexts put back are active.
Active : Store → List ℕ → Type 0
Active s back = All (λ b. (s b).is_active ≡ true) back

Active-step :
    (k : StatusCheck) (s : Store) (c : ℕ) (back : List ℕ)
    → All (λ b. b ≢ c) back
    → Active s back
    → Active (step_store k s c) back
unfolding Active
Active-step k s c [] n a = tt
Active-step k s c (b ∷ back) (n, ns) (e, a) =
    (ap (λ v. v.is_active) (step_store_other k s c b n) ∙ e, Active-step k s c back ns a)

Active-put :
    (s : Store) (c : ℕ) (back : List ℕ)
    → (s c).is_active ≡ true
    → Active s back
    → Active s (back ++ (c ∷ []))
unfolding Active
Active-put s c [] e a = (e, tt)
Active-put s c (b ∷ back) e (p, a) = (p, Active-put s c back e a)

walked : StatusCheck → List ℕ → List ℕ → Store → Option ℕ → Round
walked k pending back s delay = record {
  queue = rotated (back ++ select (λ c. stays k (s c)) pending);
  store = round_store k s pending;
  delay_ms = shortest k s delay pending;
}

walked-step :
    (k : StatusCheck) (c : ℕ) (pending back : List ℕ) (s : Store) (delay : Option ℕ)
    → All (λ d. d ≢ c) pending
    → (let t = step_store k s c in
        (stays k (s c) ≡ true
          → walked k pending
              (back ++ (c ∷ []))
              t
              (shorter delay (s c).failure_detection_interval_ms)
            ≡ walked k (c ∷ pending) back s delay)
        × (stays k (s c) ≡ false
            → walked k pending back t delay ≡ walked k (c ∷ pending) back s delay))
unfolding walked round_store
walked-step k c pending back s delay n =
    let t = step_store k s c in
    let a = All-other k s c pending n in
    let p = select-agree k s t pending a in
    let q = shortest-agree k s t (shorter delay (s c).failure_detection_interval_ms) pending a in
    let r = shortest-agree k s t delay pending a in
    (
      λ e. rw (p, q, e, append_assoc back (c ∷ []) (select (λ d. stays k (s d)) pending)) refl,
      λ e. rw (p, r, e) refl,
    )

step_store-active :
    (k : StatusCheck) (s : Store) (c : ℕ)
    → (s c).is_active ≡ true
    → step_store k s c ≡ write s c (updated k (s c))
unfolding step_store
step_store-active k s c e = ap (λ b. if b then write s c (updated k (s c)) else s) e

step_store-inactive :
    (k : StatusCheck) (s : Store) (c : ℕ) → (s c).is_active ≡ false → step_store k s c ≡ s
unfolding step_store
step_store-inactive k s c e = ap (λ b. if b then write s c (updated k (s c)) else s) e

inactive_leaves :
    (k : StatusCheck) (v : MonitoringContext) → v.is_active ≡ false → stays k v ≡ false
inactive_leaves k v e = ap (λ b. b && not (updated k v).is_host_unavailable) e

updated-active :
    (k : StatusCheck) (v : MonitoringContext) → v.is_active ≡ true → (updated k v).is_active ≡ true
updated-active k v e = (update-SameSettings k v).active ∙ e

process_active-walk :
    (k : StatusCheck) (pending back : List ℕ) (s : Store) (delay : Option ℕ)
    → IsDistinct pending
    → Apart pending back
    → Active s back
    → process_active (suc (length pending)) k (head back) (pending ++ back) s delay
      ≡ walked k pending back s delay
unfolding walked process_active round_store Active
process_active-walk k [] [] s delay d a act = refl
process_active-walk k [] (b ∷ back) s delay d a (act, acts) =
    rw (append-nil back) (stops k (some b) 0 b back s delay act (first_again b))
process_active-walk k (c ∷ pending) back s delay (n, d) (p, a) act =
    let v = updated k (s c) in
    let t = step_store k s c in
    let (stay, leave) = walked-step k c pending back s delay n in
    let dropped = process_active-walk k pending back t delay d a (Active-step k s c back p act) in
    let queue = pending ++ back in
    let fuel = suc (length pending) in
    let f = not_first back c p in
    let with_it = shorter delay (s c).failure_detection_interval_ms in
    let back' = back ++ (c ∷ []) in
    elim (Bool-cases (s c).is_active) [
      | inr e ↦
          discards k (head back) fuel c queue s delay e
          ∙ ap (λ u. process_active fuel k (head back) queue u delay)
              (sym (step_store-inactive k s c e))
          ∙ dropped
          ∙ leave (inactive_leaves k (s c) e)
      | inl e ↦ elim (Bool-cases (stays k (s c))) [
        | inr l ↦
            gives_up k (head back) fuel c queue s delay e f l
            ∙ ap (λ u. process_active fuel k (head back) queue u delay)
                (sym (step_store-active k s c e))
            ∙ dropped
            ∙ leave l
        | inl l ↦
            keeps k (head back) fuel c queue s delay e f l
            ∙ ap (λ u. process_active fuel k (first_or (head back) c) (queue ++ (c ∷ [])) u with_it)
                (sym (step_store-active k s c e))
            ∙ subst
                (λ h.
                  process_active fuel k h (queue ++ (c ∷ [])) t with_it
                  ≡ walked k pending back' t with_it)
                (sym (head-put back c))
                (subst
                  (λ q.
                    process_active fuel k (head back') q t with_it
                    ≡ walked k pending back' t with_it)
                  (sym (append_assoc pending back (c ∷ [])))
                  (process_active-walk k pending back' t with_it d (Apart-put pending back c a n) (
                    Active-put t c back
                      (ap (λ x. x.is_active) (step_store_self k s c) ∙ updated-active k (s c) e)
                      (Active-step k s c back p act))))
            ∙ stay l
      ]
    ]

round_store_other :
    (k : StatusCheck) (s : Store) (queue : List ℕ) (d : ℕ)
    → All (λ c. c ≢ d) queue
    → round_store k s queue d ≡ s d
unfolding round_store
round_store_other k s [] d n = refl
round_store_other k s (c ∷ queue) d (n, ns) =
    round_store_other k (step_store k s c) queue d ns ∙ step_store_other k s c d (λ e. n (sym e))

All-updated :
    (k : StatusCheck) (s t r : Store) (queue : List ℕ)
    → All (λ d. t d ≡ s d) queue
    → All (λ d. r d ≡ updated k (t d)) queue
    → All (λ d. r d ≡ updated k (s d)) queue
All-updated k s t r [] a b = tt
All-updated k s t r (c ∷ queue) (e, a) (f, b) =
    (f ∙ ap (updated k) e, All-updated k s t r queue a b)

round_store_self :
    (k : StatusCheck) (s : Store) (queue : List ℕ)
    → IsDistinct queue
    → All (λ c. round_store k s queue c ≡ updated k (s c)) queue
unfolding round_store
round_store_self k s [] d = tt
round_store_self k s (c ∷ queue) (n, d) =
    let t = step_store k s c in
    (
      round_store_other k t queue c n ∙ step_store_self k s c,
      All-updated k s t (round_store k t queue) queue (All-other k s c queue n)
          (round_store_self k t queue d),
    )

-- What one run of the loop over a queue is to give.
abbrev pub IsRound : StatusCheck → List ℕ → Store → Round → Type 0
IsRound k queue s round =
    (round.queue ≡ rotated (select (λ c. stays k (s c)) queue))
    × (round.delay_ms ≡ shortest k s none queue)
    × All (λ c. round.store c ≡ updated k (s c)) queue
    × ((d : ℕ) → All (λ c. c ≢ d) queue → round.store d ≡ s d)

-- Let no context stand twice in the queue of the active ones. Then one run of the loop over that
-- queue applies the check once to each context of it and changes no other context; it keeps those
-- contexts that were active and do not take the host for unavailable now, the first of them put
-- behind the others; and the delay is the shortest interval of those that it keeps. The fuel is
-- enough.
pub process_active-select :
    (k : StatusCheck) (queue : List ℕ) (s : Store)
    → IsDistinct queue
    → IsRound k queue s (process_active (suc (length queue)) k none queue s none)
unfolding walked Active
process_active-select k queue s d =
    let walk = process_active-walk k queue [] s none d (Apart-nil queue) tt in
    let walk' =
      subst (λ q. process_active (suc (length queue)) k none q s none ≡ walked k queue [] s none)
        (append-nil queue) walk in
    subst (IsRound k queue s) (sym walk')
      (refl, refl, round_store_self k s queue d, λ d n. round_store_other k s queue d n)
