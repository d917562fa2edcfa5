-- ===== src/Cache/Sliding/Disposal.antt =====
-- utils/sliding_expiration_cache.py: what leaves the cache is disposed of, once.
use aws_advanced_python_wrap.Prelude.{
  ℕ, ◌+◌, ◌≡◌, refl, true, false, Bool-cases, Option-cases, ap, sym, subst, inl, inr, ◌∙◌, Option,
  none, some, List, [], ◌∷◌, ◌++◌, arith, ltb, if◌then◌else◌,
}
use aws_advanced_python_wrap.Dict.{Dict, keys, values, IsDistinct, pop-IsDistinct, put-IsDistinct}
use aws_advanced_python_wrap.Dict
use aws_advanced_python_wrap.Concurrent
use aws_advanced_python_wrap.Cache.Sliding.{
  CacheItem, SlidingExpirationCache, dispose, dispose_captured, captured, should_cleanup_item,
  dispose_all, clear, remove_if_expired, remove_expired, cleanup, remove_and_dispose, remove,
  dispose_removed,
}

-- The weight of a value that may be `None`.
abbrev pub weight {ℓ} : {V : Type ℓ} → (V → ℕ) → Option V → ℕ
weight f none = 0
weight f (some v) = f v

abbrev pub weigh {ℓ} : {V : Type ℓ} → (V → ℕ) → List (Option V) → ℕ
weigh f [] = 0
weigh f (o ∷ os) = weight f o + weigh f os

abbrev pub weigh_items {ℓ} : {V : Type ℓ} → (V → ℕ) → List (CacheItem V) → ℕ
weigh_items f [] = 0
weigh_items f (i ∷ is) = weight f i.item + weigh_items f is

weigh-append {ℓ} :
    {V : Type ℓ} (f : V → ℕ) (os : List (Option V)) (o : Option V)
    → weigh f (os ++ o ∷ []) ≡ weigh f os + weight f o
weigh-append f [] o = omega arith
weigh-append f (p ∷ os) o = omega (arith, weigh-append f os o)

-- The weight of an entry, if there is one.
abbrev weight_entry {ℓ} : {V : Type ℓ} → (V → ℕ) → Option (CacheItem V) → ℕ
weight_entry f none = 0
weight_entry f (some i) = weight f i.item

module _ {ℓ} {K V : Type ℓ} (f : V → ℕ) where
  -- All that was disposed of and all that is held, weighed together.
  abbrev pub total : SlidingExpirationCache K V → ℕ
  total c = weigh f c.disposed + weigh_items f (values c.cdict)

  total-dispose :
      (o : Option V) (c : SlidingExpirationCache K V)
      → c.disposes ≡ true
      → total (dispose o c) ≡ total c + weight f o
  unfolding dispose
  total-dispose o c h = rw h (omega (arith, weigh-append f c.disposed o))

  total-dispose_captured :
      (o : Option V) (c : SlidingExpirationCache K V)
      → c.disposes ≡ true
      → total (dispose_captured o c) ≡ total c + weight f o
  unfolding dispose_captured
  total-dispose_captured none c h = omega arith
  total-dispose_captured (some v) c h = total-dispose (some v) c h

  disposes-dispose :
      (o : Option V) (c : SlidingExpirationCache K V) → (dispose o c).disposes ≡ c.disposes
  unfolding dispose
  disposes-dispose o c = ground arith

  cdict-dispose : (o : Option V) (c : SlidingExpirationCache K V) → (dispose o c).cdict ≡ c.cdict
  unfolding dispose
  cdict-dispose o c = ground arith

  disposes-dispose_captured :
      (o : Option V) (c : SlidingExpirationCache K V) → (dispose_captured o c).disposes ≡ c.disposes
  unfolding dispose_captured
  disposes-dispose_captured none c = refl
  disposes-dispose_captured (some v) c = disposes-dispose (some v) c

  cdict-dispose_captured :
      (o : Option V) (c : SlidingExpirationCache K V) → (dispose_captured o c).cdict ≡ c.cdict
  unfolding dispose_captured
  cdict-dispose_captured none c = refl
  cdict-dispose_captured (some v) c = cdict-dispose (some v) c

  module _ (dec : Discrete K) where
    weigh-pop_absent :
        (k : K) (d : Dict K (CacheItem V))
        → Dict.get dec k d ≡ none
        → weigh_items f (values (Dict.pop dec k d)) ≡ weigh_items f (values d)
    weigh-pop_absent k [] h = refl
    weigh-pop_absent k ((j, i) ∷ d) h = ground (arith, weigh-pop_absent k d)

    -- A popped entry takes its weight with it.
    weigh-pop :
        (k : K) (d : Dict K (CacheItem V))
        → IsDistinct dec d
        → weigh_items f (values (Dict.pop dec k d)) + weight_entry f (Dict.get dec k d)
          ≡ weigh_items f (values d)
    weigh-pop k [] h = omega arith
    weigh-pop k ((j, i) ∷ d) h = elim (dec j k) [
      | yes e ↦ ground (arith, weigh-pop_absent j d h.0)
      | no n ↦ ground (arith, weigh-pop k d h.1)
    ]

    weigh-put_same :
        (k : K) (i : CacheItem V) (d : Dict K (CacheItem V))
        → Dict.get dec k d ≡ some i
        → weigh_items f (values (Dict.put dec k i d)) ≡ weigh_items f (values d)
    weigh-put_same k i [] h = ground arith
    weigh-put_same k i ((j, w) ∷ d) h = ground (arith, weigh-put_same k i d)

    -- What the remapping function of `_remove_if_expired` leaves.
    abbrev kept : K → ℕ → SlidingExpirationCache K V → Dict K (CacheItem V)
    kept k now c =
        (Concurrent.compute_if_present dec k
          (λ i. if should_cleanup_item c i now then none else some i) c.cdict).0

    module _ (k : K) (now : ℕ) (c : SlidingExpirationCache K V) where
      kept_absent : Dict.get dec k c.cdict ≡ none → kept k now c ≡ c.cdict
      unfolding Concurrent.compute_if_present
      kept_absent e = ground arith

      kept_expired :
          (i : CacheItem V)
          → Dict.get dec k c.cdict ≡ some i
          → should_cleanup_item c i now ≡ true
          → kept k now c ≡ Dict.pop dec k c.cdict
      unfolding Concurrent.compute_if_present
      kept_expired i e s = ground arith

      kept_live :
          (i : CacheItem V)
          → Dict.get dec k c.cdict ≡ some i
          → should_cleanup_item c i now ≡ false
          → kept k now c ≡ Dict.put dec k i c.cdict
      unfolding Concurrent.compute_if_present
      kept_live i e s = ground arith

      weigh-kept :
          IsDistinct dec c.cdict
          → weigh_items f (values (kept k now c))
              + weight f (captured c now (Dict.get dec k c.cdict))
            ≡ weigh_items f (values c.cdict)
      unfolding captured
      weigh-kept d = elim (Option-cases (Dict.get dec k c.cdict)) [
        | inl e ↦ rw (kept_absent e, e, captured) (omega arith)
        | inr (i, e) ↦ elim (Bool-cases (should_cleanup_item c i now)) [
          | inl s ↦
              rw (kept_expired i e s, e, captured, s)
                (omega (arith, weigh-pop k c.cdict d, ap (weight_entry f) e))
          | inr s ↦
              rw (kept_live i e s, e, captured, s) (omega (arith, weigh-put_same k i c.cdict e))
        ]
      ]

      kept-IsDistinct : IsDistinct dec c.cdict → IsDistinct dec (kept k now c)
      kept-IsDistinct d = elim (Option-cases (Dict.get dec k c.cdict)) [
        | inl e ↦ subst (IsDistinct dec) (sym (kept_absent e)) d
        | inr (i, e) ↦ elim (Bool-cases (should_cleanup_item c i now)) [
          | inl s ↦
              subst (IsDistinct dec) (sym (kept_expired i e s)) (pop-IsDistinct dec k c.cdict d)
          | inr s ↦
              subst (IsDistinct dec) (sym (kept_live i e s)) (put-IsDistinct dec k i c.cdict d)
        ]
      ]

    total-remove_if_expired :
        (k : K) (now : ℕ) (c : SlidingExpirationCache K V)
        → c.disposes ≡ true
        → IsDistinct dec c.cdict
        → total (remove_if_expired dec k now c) ≡ total c
    unfolding remove_if_expired
    total-remove_if_expired k now c h d = omega (
      arith,
      total-dispose_captured (captured c now (Dict.get dec k c.cdict))
          (record c { cdict = kept k now c }) h,
      weigh-kept k now c d,
    )

    total-remove_expired :
        (ks : List K) (scan : K → ℕ) (c : SlidingExpirationCache K V)
        → c.disposes ≡ true
        → IsDistinct dec c.cdict
        → total (remove_expired dec ks scan c) ≡ total c
    unfolding remove_expired
    total-remove_expired [] scan c h d = refl
    total-remove_expired (k ∷ ks) scan c h d =
        total-remove_expired ks scan (remove_if_expired dec k (scan k) c)
          (unfold remove_if_expired in
            (disposes-dispose_captured (captured c (scan k) (Dict.get dec k c.cdict))
                (record c { cdict = kept k (scan k) c })
              ∙ h))
          (unfold remove_if_expired in
            rw
              (cdict-dispose_captured (captured c (scan k) (Dict.get dec k c.cdict))
                (record c { cdict = kept k (scan k) c }))
              (kept-IsDistinct k (scan k) c d))
        ∙ total-remove_if_expired k (scan k) c h d

    total-cleanup :
        (now : ℕ) (scan : K → ℕ) (c : SlidingExpirationCache K V)
        → c.disposes ≡ true
        → IsDistinct dec c.cdict
        → total (cleanup dec now scan c) ≡ total c
    unfolding cleanup
    total-cleanup now scan c h d = elim (Bool-cases (ltb now c.cleanup_time_ns)) [
      | inl early ↦ rw early refl
      | inr due ↦ rw due (
          total-remove_expired (keys c.cdict) scan
            (record c { cleanup_time_ns = now + c.cleanup_interval_ns }) h d)
    ]

    abbrev popped : K → SlidingExpirationCache K V → SlidingExpirationCache K V
    popped k c = record c { cdict = Dict.pop dec k c.cdict }

    total-dispose_removed :
        (k : K) (c : SlidingExpirationCache K V)
        → c.disposes ≡ true
        → IsDistinct dec c.cdict
        → (o : Option (CacheItem V)) → Dict.get dec k c.cdict ≡ o
        → total (dispose_removed dec o (popped k c)) ≡ total c
    unfolding dispose_removed
    total-dispose_removed k c h d none e =
        omega (arith, weigh-pop k c.cdict d, ap (weight_entry f) e)
    total-dispose_removed k c h d (some i) e =
        omega
          (arith, total-dispose i.item (popped k c) h, weigh-pop k c.cdict d, ap (weight_entry f) e)

    dispose_removed-cdict :
        (o : Option (CacheItem V)) (c : SlidingExpirationCache K V)
        → ((dispose_removed dec o c).cdict ≡ c.cdict)
          × ((dispose_removed dec o c).disposes ≡ c.disposes)
    unfolding dispose_removed
    dispose_removed-cdict none c = (refl, refl)
    dispose_removed-cdict (some i) c = (cdict-dispose i.item c, disposes-dispose i.item c)

    -- Nothing leaves the cache without being disposed of, and nothing is disposed of twice.
    pub total-remove :
        (k : K) (now : ℕ) (scan : K → ℕ) (c : SlidingExpirationCache K V)
        → c.disposes ≡ true
        → IsDistinct dec c.cdict
        → total (remove dec k now scan c) ≡ total c
    unfolding remove remove_and_dispose Concurrent.remove
    total-remove k now scan c h d =
        let o = Dict.get dec k c.cdict in
        let (same, still) = dispose_removed-cdict o (popped k c) in
        total-cleanup now scan (dispose_removed dec o (popped k c)) (still ∙ h)
          (subst (IsDistinct dec) (sym same) (pop-IsDistinct dec k c.cdict d))
        ∙ total-dispose_removed k c h d o refl

  total-dispose_all :
      (is : List (CacheItem V)) (c : SlidingExpirationCache K V)
      → c.disposes ≡ true
      → weigh f (dispose_all is c).disposed ≡ weigh f c.disposed + weigh_items f is
  unfolding dispose_all
  total-dispose_all [] c h = omega arith
  total-dispose_all (i ∷ is) c h = omega (
    arith,
    total-dispose_all is (dispose i.item c) (disposes-dispose i.item c ∙ h),
    total-dispose i.item c h,
    ap (λ (d : Dict K (CacheItem V)). weigh_items f (values d)) (cdict-dispose i.item c),
  )

  -- Let a disposal function be given. `clear` disposes of every held value, once, and leaves the cache
  -- empty.
  pub total-clear :
      (c : SlidingExpirationCache K V)
      → c.disposes ≡ true
      → (total (clear c) ≡ total c) × ((clear c).cdict ≡ [])
  unfolding clear
  total-clear c h = (omega (arith, total-dispose_all (values c.cdict) c h), refl)
