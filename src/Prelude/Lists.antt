-- ===== src/Prelude/Lists.antt =====
-- Lists over the native numbers, and membership predicates that compute.
use Prim.Native.Nat.{ℕ, zero, suc, ◌+◌, ◌≤◌}
use mathlib.Core.Path.{◌≡◌, sym, ap, ◌∙◌}
use mathlib.Core.Logic.{◌⊎◌, ◌↔◌, ◌≢◌, inl, inr}
use mathlib.Core.Bool.{Bool, true}
use mathlib.Core.List.{List, [], ◌∷◌, ◌++◌}
use mathlib.Core.Option.{Option, none, some}
use native.Mathlib.Omega.{arith}
use aws_advanced_python_wrap.Prelude.Tests.{if◌then◌else◌, Bool-cases}

module _ {ℓ} {A : Type ℓ} where
  abbrev pub length : List A → ℕ
  length [] = 0
  length (x ∷ xs) = suc (length xs)

  abbrev pub get_elem? : List A → ℕ → Option A
  get_elem? [] i = none
  get_elem? (x ∷ xs) zero = some x
  get_elem? (x ∷ xs) (suc i) = get_elem? xs i

  -- `[x for x in xs if keep(x)]`
  abbrev pub select : (A → Bool) → List A → List A
  select keep [] = []
  select keep (x ∷ xs) = if keep x then x ∷ select keep xs else select keep xs

  -- The first element that passes, as a `for` loop with an early return finds it.
  abbrev pub first : (A → Bool) → List A → Option A
  first found [] = none
  first found (x ∷ xs) = if found x then some x else first found xs

  pub length-append : (xs ys : List A) → length (xs ++ ys) ≡ length xs + length ys
  length-append [] ys = omega arith
  length-append (x ∷ xs) ys = omega (arith, length-append xs ys)

  pub length-select-le : (keep : A → Bool) (xs : List A) → length (select keep xs) ≤ length xs
  length-select-le keep [] = omega arith
  length-select-le keep (x ∷ xs) = ground (arith, length-select-le keep xs)

module _ {A : Type 0} where
  -- Membership with the position kept.
  abbrev pub In : A → List A → Type 0
  In a [] = ⊥
  In a (x ∷ xs) = (a ≡ x) ⊎ In a xs

  abbrev pub All : (A → Type 0) → List A → Type 0
  All P [] = Unit
  All P (x ∷ xs) = P x × All P xs

pub In-of_select :
    {A : Type 0} (keep : A → Bool) (a : A) (xs : List A)
    → In a (select keep xs)
    → In a xs × (keep a ≡ true)
In-of_select keep a [] h = absurd h
In-of_select keep a (x ∷ xs) h = elim (Bool-cases (keep x)) [
  | inl e ↦ elim (let h' : (a ≡ x) ⊎ In a (select keep xs) = rw e at h in h') [
    | inl p ↦ (inl p, rw p e)
    | inr q ↦ let (i, k) = In-of_select keep a xs q in (inr i, k)
  ]
  | inr e ↦ let (i, k) = In-of_select keep a xs (rw e at h) in (inr i, k)
]

pub select_of_In :
    {A : Type 0} (keep : A → Bool) (a : A) (xs : List A)
    → In a xs
    → keep a ≡ true
    → In a (select keep xs)
select_of_In keep a [] h k = absurd h
select_of_In keep a (x ∷ xs) (inl p) k = rw (sym (ap keep p) ∙ k) (inl p)
select_of_In keep a (x ∷ xs) (inr q) k = elim (Bool-cases (keep x)) [
  | inl e ↦ rw e (inr (select_of_In keep a xs q k))
  | inr e ↦ rw e (select_of_In keep a xs q k)
]

pub In-append : {A : Type 0} (a : A) (xs ys : List A) → In a (xs ++ ys) ↔ (In a xs ⊎ In a ys)
In-append a [] ys = (λ i. inr i, λ i. elim i [ inl e ↦ absurd e | inr j ↦ j ])
In-append a (x ∷ xs) ys = reassociate (In-append a xs ys)
  where
    reassociate : {P Q R S : Type 0} → Q ↔ (R ⊎ S) → (P ⊎ Q) ↔ ((P ⊎ R) ⊎ S)
    reassociate e = ground arith

pub In-length : {A : Type 0} (a : A) (xs : List A) → In a xs → length xs ≢ 0
In-length a [] i = absurd i
In-length a (x ∷ xs) i = λ e. omega (arith, e)
