-- ===== src/HostMonitoring/Monitor/Rounds.antt =====
-- host_monitoring_plugin.py: the loops of `Monitor.run` against one walk over the queue.
use aws_advanced_python_wrap.Prelude.{
  ℕ, suc, ◌≡◌, ◌≢◌, refl, sym, ap, subst, Bool, true, false, not, ◌&&◌, Option, none, some, List,
  [], ◌∷◌, ◌++◌, if◌then◌else◌, leb, ◌==◌, length, select, All, arith,
}
use mathlib.Core.List.{append-nil, append_assoc}
use aws_advanced_python_wrap.HostMonitoring.Monitor.{Store, is_first, first_or, process_new}

-- No context stands in the queue twice.
abbrev pub IsDistinct : List ℕ → Type 0
IsDistinct [] = Unit
IsDistinct (c ∷ queue) = All (λ d. d ≢ c) queue × IsDistinct queue

-- The first one goes to the end: it is found twice before the loop ends.
abbrev pub rotated : List ℕ → List ℕ
rotated [] = []
rotated (c ∷ queue) = queue ++ (c ∷ [])

abbrev pub is_due : Store → ℕ → ℕ → Bool
is_due store now c = (store c).is_active && leb (store c).active_monitoring_start_time_ns now

abbrev pub is_waiting : Store → ℕ → ℕ → Bool
is_waiting store now c =
    (store c).is_active && not (leb (store c).active_monitoring_start_time_ns now)

abbrev pub head : List ℕ → Option ℕ
head [] = none
head (c ∷ queue) = some c

pub head-put : (back : List ℕ) (c : ℕ) → first_or (head back) c ≡ head (back ++ (c ∷ []))
head-put [] c = refl
head-put (b ∷ back) c = refl

-- The contexts still to be seen are not those put back.
abbrev pub Apart : List ℕ → List ℕ → Type 0
Apart pending back = All (λ c. All (λ b. b ≢ c) back) pending

pub Apart-nil : (pending : List ℕ) → Apart pending []
Apart-nil [] = tt
Apart-nil (c ∷ pending) = (tt, Apart-nil pending)

pub not_first : (back : List ℕ) (c : ℕ) → All (λ b. b ≢ c) back → is_first (head back) c ≡ false
not_first [] c a = refl
not_first (b ∷ back) c a = ground arith

pub first_again : (c : ℕ) → (c == c) ≡ true
first_again c = ground arith

pub All-put :
    (back : List ℕ) (c d : ℕ) → All (λ b. b ≢ d) back → c ≢ d → All (λ b. b ≢ d) (back ++ (c ∷ []))
All-put [] c d a n = (n, tt)
All-put (b ∷ back) c d (p, a) n = (p, All-put back c d a n)

pub Apart-put :
    (pending back : List ℕ) (c : ℕ)
    → Apart pending back
    → All (λ d. d ≢ c) pending
    → Apart pending (back ++ (c ∷ []))
Apart-put [] back c a n = tt
Apart-put (d ∷ pending) back c (p, a) (ne, n) =
    (All-put back c d p (λ e. ne (sym e)), Apart-put pending back c a n)

pub if_again : {A : Type 0} (c : ℕ) (x y : A) → (if c == c then x else y) ≡ x
if_again c x y = ap (λ t. if t then x else y) (first_again c)

seen :
    (store : Store) (now fuel c : ℕ) (queue active : List ℕ)
    → process_new (suc fuel) store now (some c) (c ∷ queue) active ≡ (queue ++ (c ∷ []), active)
unfolding process_new
seen store now fuel c queue active = if_again c (queue ++ (c ∷ []), active) (_)

process_new-walk :
    (store : Store) (now : ℕ) (pending back active : List ℕ)
    → IsDistinct pending
    → Apart pending back
    → process_new (suc (length pending)) store now (head back) (pending ++ back) active ≡ (
      rotated (back ++ select (is_waiting store now) pending),
      active ++ select (is_due store now) pending,
    )
unfolding process_new
process_new-walk store now [] [] active d a = rw (append-nil) refl
process_new-walk store now [] (b ∷ back) active d a =
    rw (append-nil active, append-nil back) (seen store now 0 b back active)
process_new-walk store now (c ∷ pending) back active (n, d) (p, a) =
    let discarded = process_new-walk store now pending back active d a in
    let submitted = process_new-walk store now pending back (active ++ (c ∷ [])) d a in
    let put_back =
      process_new-walk store now pending (back ++ (c ∷ [])) active d
        (Apart-put pending back c a n) in
    ground (
      arith,
      not_first back c p,
      discarded,
      submitted,
      put_back,
      head-put back c,
      append_assoc active (c ∷ []) (select (is_due store now) pending),
      append_assoc back (c ∷ []) (select (is_waiting store now) pending),
      append_assoc pending back (c ∷ []),
    )

-- Let no context stand twice in the queue of the new ones. Then one run of the loop over that queue
-- moves the active contexts whose time has come to the queue of the active ones, in their order,
-- drops those that are not active, and keeps the active ones whose time has not come, the first of
-- them put behind the others; the fuel is enough.
pub process_new-select :
    (store : Store) (now : ℕ) (queue active : List ℕ)
    → IsDistinct queue
    → process_new (suc (length queue)) store now none queue active
      ≡ (rotated (select (is_waiting store now) queue), active ++ select (is_due store now) queue)
process_new-select store now queue active d =
    subst
      (λ q. process_new (suc (length queue)) store now none q active ≡ (
        rotated (select (is_waiting store now) queue),
        active ++ select (is_due store now) queue,
      ))
      (append-nil queue) (process_new-walk store now queue [] active d (Apart-nil queue))
