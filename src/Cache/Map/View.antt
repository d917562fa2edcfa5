-- ===== src/Cache/Map/View.antt =====
-- utils/cache_map.py against an ideal cache that never forgets an entry, and reads it only while it
-- is not expired.
use aws_advanced_python_wrap.Prelude.{
  ℕ, ◌∙◌, ◌≤◌, ◌≡◌, refl, Option, none, some, [], ◌∷◌, arith, if◌then◌else◌,
}
use aws_advanced_python_wrap.Dict.{Dict, IsDistinct}
use aws_advanced_python_wrap.Dict
use aws_advanced_python_wrap.Cache.Map.{CacheItem, is_expired, removal_keys, pop_all}

-- What an entry shows at a time.
unfoldable pub live {ℓ} : {V : Type ℓ} → ℕ → Option (CacheItem V) → Option V
unfolding is_expired
live now none = none
live now (some c) = if is_expired c now then none else some c.item

-- What a sweep leaves of an entry.
unfoldable pub swept {ℓ} : {V : Type ℓ} → ℕ → Option (CacheItem V) → Option (CacheItem V)
unfolding is_expired
swept now none = none
swept now (some c) = if is_expired c now then none else some c

pub live-swept {ℓ} :
    {V : Type ℓ} (now u : ℕ) (o : Option (CacheItem V)) → now ≤ u → live u (swept now o) ≡ live u o
unfolding live swept
live-swept now u none h = refl
live-swept now u (some c) h = ground arith

-- What a sweep over the entry `o` leaves of the entry `x`.
abbrev expire_by {ℓ} :
    {V : Type ℓ} → ℕ → Option (CacheItem V) → Option (CacheItem V) → Option (CacheItem V)
expire_by now none x = x
expire_by now (some c) x = if is_expired c now then none else x

itself {ℓ} : {V : Type ℓ} (now : ℕ) (o : Option (CacheItem V)) → expire_by now o o ≡ swept now o
unfolding swept
itself now none = refl
itself now (some c) = refl

module _ {ℓ} {K V : Type ℓ} (dec : Discrete K) (scan : K → ℕ) where
  get-removal_absent :
      (j : K) (d : Dict K (CacheItem V))
      → Dict.get dec j d ≡ none
      → (e : Dict K (CacheItem V))
      → Dict.get dec j (pop_all dec (removal_keys scan d) e) ≡ Dict.get dec j e
  unfolding pop_all removal_keys
  get-removal_absent j [] h e = refl
  get-removal_absent j ((k, c) ∷ d) h e = ground (
    arith,
    get-removal_absent j d (ground arith) e,
    get-removal_absent j d (ground arith) (Dict.pop dec k e),
    Dict.get-pop dec k j e,
  )

  get-removal :
      (j : K) (d e : Dict K (CacheItem V))
      → IsDistinct dec d
      → Dict.get dec j (pop_all dec (removal_keys scan d) e)
        ≡ expire_by (scan j) (Dict.get dec j d) (Dict.get dec j e)
  unfolding pop_all removal_keys is_expired
  get-removal j [] e h = refl
  get-removal j ((k, c) ∷ d) e h = elim (dec k j) [
    | yes p ↦ ground (
      arith,
      get-removal_absent k d h.0 e,
      get-removal_absent k d h.0 (Dict.pop dec k e),
      Dict.get-pop dec k k e,
    )
    | no n ↦ ground (
      arith,
      get-removal j d e h.1,
      get-removal j d (Dict.pop dec k e) h.1,
      Dict.get-pop dec k j e,
    )
  ]

  pub get-swept :
      (j : K) (d : Dict K (CacheItem V))
      → IsDistinct dec d
      → Dict.get dec j (pop_all dec (removal_keys scan d) d) ≡ swept (scan j) (Dict.get dec j d)
  unfolding swept
  get-swept j d h = get-removal j d d h ∙ itself (scan j) (Dict.get dec j d)
