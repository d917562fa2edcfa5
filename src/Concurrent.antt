-- ===== src/Concurrent.antt =====
-- aws_advanced_python_wrapper/utils/concurrent.py (`ConcurrentDict`) and utils/atomic.py. Every
-- operation that writes holds the lock throughout, so each is one step on the dictionary. Stored
-- values are not `None`; a mapping function is given by its result.
use aws_advanced_python_wrap.Prelude.{
  ℕ, suc, Bool, false, not, ◌||◌, Option, none, some, List, [], ◌∷◌, ltb, length, select, test,
}
use aws_advanced_python_wrap.Dict.{Dict}
use aws_advanced_python_wrap.Dict

module _ {ℓ} {K V : Type ℓ} (dec : Discrete K) where
  unfoldable pub store_present : K → Option V → Dict K V → Dict K V
  store_present key none d = Dict.pop dec key d
  store_present key (some v) d = Dict.put dec key v d

  -- What `remapping_func` gives for a present value is stored; `None` removes the key.
  unfoldable pub compute_if_present : K → (V → Option V) → Dict K V → Dict K V × Option V
  unfolding store_present
  compute_if_present key remapping_func d = elim (Dict.get dec key d) [
    | none ↦ (d, none)
    | some v ↦ (store_present key (remapping_func v) d, remapping_func v)
  ]

  store_absent : K → Option V → Dict K V → Dict K V × Option V
  store_absent key none d = (d, none)
  store_absent key (some v) d = (Dict.put dec key v d, some v)

  unfoldable pub compute_if_absent : K → Option V → Dict K V → Dict K V × Option V
  unfolding store_absent
  compute_if_absent key new_value d = elim (Dict.get dec key d) [
    | none ↦ store_absent key new_value d
    | some v ↦ (d, some v)
  ]

  unfoldable pub put_if_absent : K → V → Dict K V → Dict K V × V
  put_if_absent key new_value d = elim (Dict.get dec key d) [
    | none ↦ (Dict.put dec key new_value d, new_value)
    | some v ↦ (d, v)
  ]

  unfoldable pub remove : K → Dict K V → Dict K V × Option V
  remove key d = (Dict.pop dec key d, Dict.get dec key d)

module _ {ℓ} {K V : Type ℓ} where
  unfoldable pub remove_if : (K → V → Bool) → Dict K V → Dict K V × Bool
  remove_if predicate d =
      let kept = select (λ e. not (predicate e.0 e.1)) d in (kept, ltb (length kept) (length d))

-- `value in values`
unfoldable pub is_in {ℓ} : {V : Type ℓ} → Discrete V → V → List V → Bool
is_in dec v [] = false
is_in dec v (w ∷ ws) = test (dec w v) || is_in dec v ws

module _ {ℓ} {K V : Type ℓ} (dec : Discrete V) where
  unfoldable pub remove_matching_values : List V → Dict K V → Dict K V × Bool
  unfolding remove_if is_in
  remove_matching_values removal_values d = remove_if (λ k v. is_in dec v removal_values) d

-- utils/atomic.py, for counters that do not fall below 0.
pub record AtomicInt : Type 0 where
  pub value : ℕ

unfoldable pub get_and_increment : AtomicInt → AtomicInt × ℕ
get_and_increment a = (record { value = suc a.value }, a.value)

unfoldable pub increment_and_get : AtomicInt → AtomicInt × ℕ
increment_and_get a = (record { value = suc a.value }, suc a.value)
