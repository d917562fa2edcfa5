-- ===== src/Cache/Sliding/Removal.antt =====
-- utils/sliding_expiration_cache.py: `remove`, with the clean-up that it ends with.
use aws_advanced_python_wrap.Prelude.{
  ℕ, ◌+◌, ◌≡◌, refl, true, Bool-cases, Option-cases, ap, sym, subst, inl, inr, ◌∙◌, Option, none,
  some, List, [], ◌∷◌, ◌++◌, arith, ltb, if◌then◌else◌,
}
use mathlib.Core.List.{append-nil, append_assoc}
use aws_advanced_python_wrap.Dict.{Dict, keys, values, IsDistinct, pop-IsDistinct, get-pop, get-put}
use aws_advanced_python_wrap.Dict
use aws_advanced_python_wrap.Concurrent
use aws_advanced_python_wrap.Cache.Sliding.{
  CacheItem, SlidingExpirationCache, dispose, dispose_captured, captured, should_cleanup_item,
  remove_if_expired, remove_expired, cleanup, remove_and_dispose, remove, dispose_removed,
}
use aws_advanced_python_wrap.Cache.Sliding.Disposal.{total, total-remove}

-- The value of an entry, as a list of at most one.
abbrev pub value_of {ℓ} : {V : Type ℓ} → Option (CacheItem V) → List (Option V)
value_of none = []
value_of (some i) = i.item ∷ []

module _ {ℓ} {V : Type ℓ} where
  -- `b` is `a` with more after it.
  abbrev pub Extends : List (Option V) → List (Option V) → Type ℓ
  Extends a b = (rest : List (Option V)) × (b ≡ a ++ rest)

  Extends-refl : (a : List (Option V)) → Extends a a
  Extends-refl a = ([], sym (append-nil a))

  Extends-trans : (a b c : List (Option V)) → Extends a b → Extends b c → Extends a c
  Extends-trans a b c (r, e) (q, f) = (r ++ q, f ∙ (ap (λ x. x ++ q) e ∙ append_assoc a r q))

module _ {ℓ} {K V : Type ℓ} where
  dispose-Extends :
      (o : Option V) (c : SlidingExpirationCache K V) → Extends c.disposed (dispose o c).disposed
  unfolding dispose
  dispose-Extends o c = elim (Bool-cases c.disposes) [
    | inl e ↦ rw e (o ∷ [], refl)
    | inr e ↦ rw e (Extends-refl c.disposed)
  ]

  dispose_captured-Extends :
      (o : Option V) (c : SlidingExpirationCache K V)
      → Extends c.disposed (dispose_captured o c).disposed
  unfolding dispose_captured
  dispose_captured-Extends none c = Extends-refl c.disposed
  dispose_captured-Extends (some v) c = dispose-Extends (some v) c

  cdict-dispose : (o : Option V) (c : SlidingExpirationCache K V) → (dispose o c).cdict ≡ c.cdict
  unfolding dispose
  cdict-dispose o c = ground arith

  cdict-dispose_captured :
      (o : Option V) (c : SlidingExpirationCache K V) → (dispose_captured o c).cdict ≡ c.cdict
  unfolding dispose_captured
  cdict-dispose_captured none c = refl
  cdict-dispose_captured (some v) c = cdict-dispose (some v) c

  module _ (dec : Discrete K) (k : K) where
    -- A key that is absent stays so when another entry is looked at.
    store_present-absent :
        (j : K) (i : CacheItem V) (o : Option (CacheItem V)) (d : Dict K (CacheItem V))
        → Dict.get dec j d ≡ some i
        → Dict.get dec k d ≡ none
        → Dict.get dec k (Concurrent.store_present dec j o d) ≡ none
    unfolding Concurrent.store_present
    store_present-absent j i none d at e = ground (arith, get-pop dec j k d)
    store_present-absent j i (some v) d at e = elim (dec j k) [
      | yes p ↦ cc
      | no n ↦ ground (arith, get-put dec j k v d)
    ]

    compute_if_present-absent :
        (j : K) (f : CacheItem V → Option (CacheItem V)) (d : Dict K (CacheItem V))
        → Dict.get dec k d ≡ none
        → Dict.get dec k (Concurrent.compute_if_present dec j f d).0 ≡ none
    unfolding Concurrent.compute_if_present
    compute_if_present-absent j f d e = elim (Option-cases (Dict.get dec j d)) [
      | inl none_at ↦ rw (Concurrent.compute_if_present, none_at) e
      | inr (i, at) ↦ rw (Concurrent.compute_if_present, at) (store_present-absent j i (f i) d at e)
    ]

    -- What a step of the clean-up does to an absent key and to the record of the disposals.
    abbrev Cleaned : SlidingExpirationCache K V → SlidingExpirationCache K V → Type ℓ
    Cleaned c c' = (Dict.get dec k c'.cdict ≡ none) × Extends c.disposed c'.disposed

    remove_if_expired-Cleaned :
        (j : K) (now : ℕ) (c : SlidingExpirationCache K V)
        → Dict.get dec k c.cdict ≡ none
        → Cleaned c (remove_if_expired dec j now c)
    unfolding remove_if_expired
    remove_if_expired-Cleaned j now c e =
        let f = λ (i : CacheItem V). if should_cleanup_item c i now then none else some i in
        let c1 = record c { cdict = (Concurrent.compute_if_present dec j f c.cdict).0 } in
        let o = captured c now (Dict.get dec j c.cdict) in
        (
          ap (Dict.get dec k) (cdict-dispose_captured o c1)
              ∙ compute_if_present-absent j f c.cdict e,
          dispose_captured-Extends o c1,
        )

    remove_expired-Cleaned :
        (js : List K) (scan : K → ℕ) (c : SlidingExpirationCache K V)
        → Dict.get dec k c.cdict ≡ none
        → Cleaned c (remove_expired dec js scan c)
    unfolding remove_expired
    remove_expired-Cleaned [] scan c e = (e, Extends-refl c.disposed)
    remove_expired-Cleaned (j ∷ js) scan c e =
        let c1 = remove_if_expired dec j (scan j) c in
        let (e1, x1) = remove_if_expired-Cleaned j (scan j) c e in
        let (e2, x2) = remove_expired-Cleaned js scan c1 e1 in
        (e2, Extends-trans c.disposed c1.disposed (remove_expired dec js scan c1).disposed x1 x2)

    cleanup-Cleaned :
        (now : ℕ) (scan : K → ℕ) (c : SlidingExpirationCache K V)
        → Dict.get dec k c.cdict ≡ none
        → Cleaned c (cleanup dec now scan c)
    unfolding cleanup
    cleanup-Cleaned now scan c e = elim (Bool-cases (ltb now c.cleanup_time_ns)) [
      | inl early ↦ rw early (e, Extends-refl c.disposed)
      | inr due ↦ rw due (
          remove_expired-Cleaned (keys c.cdict) scan
            (record c { cleanup_time_ns = now + c.cleanup_interval_ns }) e)
    ]

    get-pop_self : (d : Dict K (CacheItem V)) → Dict.get dec k (Dict.pop dec k d) ≡ none
    get-pop_self d = ground (arith, get-pop dec k k d)

    removed-cdict :
        (o : Option (CacheItem V)) (c : SlidingExpirationCache K V)
        → (dispose_removed dec o c).cdict ≡ c.cdict
    unfolding dispose_removed
    removed-cdict none c = refl
    removed-cdict (some i) c = cdict-dispose i.item c

    removed-disposed :
        (o : Option (CacheItem V)) (c : SlidingExpirationCache K V)
        → c.disposes ≡ true
        → (dispose_removed dec o c).disposed ≡ c.disposed ++ value_of o
    unfolding dispose_removed dispose
    removed-disposed none c h = sym (append-nil c.disposed)
    removed-disposed (some i) c h = rw h refl

    -- Let a disposal function be given, and let no key stand twice, as in any dictionary. When a key is
    -- removed, it is held no more; the value it had, if it had one, is the next to be disposed of, and
    -- what the clean-up disposes of comes after; and by any weight of the values, what was held and
    -- disposed of before is what is held and disposed of after, so that nothing leaves the cache
    -- without being disposed of, or is disposed of twice.
    pub remove-Disposed :
        (f : V → ℕ) (now : ℕ) (scan : K → ℕ) (c : SlidingExpirationCache K V)
        → c.disposes ≡ true
        → IsDistinct dec c.cdict
        → (Dict.get dec k (remove dec k now scan c).cdict ≡ none)
          × Extends
              (c.disposed ++ value_of (Dict.get dec k c.cdict))
              (remove dec k now scan c).disposed
          × (total f (remove dec k now scan c) ≡ total f c)
    unfolding remove remove_and_dispose Concurrent.remove
    remove-Disposed f now scan c h d =
        let o = Dict.get dec k c.cdict in
        let popped = record c { cdict = Dict.pop dec k c.cdict } in
        let c1 = dispose_removed dec o popped in
        let (gone, more) =
          cleanup-Cleaned now scan c1
            (ap (Dict.get dec k) (removed-cdict o popped) ∙ get-pop_self c.cdict) in
        (
          gone,
          subst (λ a. Extends a (cleanup dec now scan c1).disposed) (removed-disposed o popped h)
              more,
          total-remove f dec k now scan c h d,
        )
