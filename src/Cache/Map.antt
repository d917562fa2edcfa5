-- ===== src/Cache/Map.antt =====
-- aws_advanced_python_wrapper/utils/cache_map.py: a dictionary whose entries expire.
-- Each reading of the clock that an operation makes is an argument of its own: `now` for the first,
-- and a record `Sweep` for those of `_cleanup`, where `scan k` is the reading that tests entry `k`.
pub mod View
pub mod Refinement
use aws_advanced_python_wrap.Prelude.{
  ℕ, ◌+◌, Bool, true, false, ite, Option, none, some, List, [], ◌∷◌, ltb, test, map, dec_lt,
  if◌then◌else◌,
}
use aws_advanced_python_wrap.Dict.{Dict}
use aws_advanced_python_wrap.Dict

pub record CacheItem {ℓ} (V : Type ℓ) : Type ℓ where
  pub item : V
  pub expiration_time : ℕ

unfoldable pub is_expired {ℓ} : {V : Type ℓ} → CacheItem V → ℕ → Bool
is_expired c now = ltb c.expiration_time now

pub record CacheMap {ℓ} (K V : Type ℓ) : Type ℓ where
  pub cache : Dict K (CacheItem V)
  pub cleanup_interval_ns : ℕ
  pub cleanup_time_ns : ℕ

-- The readings of one `_cleanup`: for its guard, for the next cleanup time, and for each entry.
pub record Sweep {ℓ} (K : Type ℓ) : Type ℓ where
  pub check : ℕ
  pub next : ℕ
  pub scan : K → ℕ

abbrev pub cleanup_interval : ℕ
cleanup_interval = 600_000_000_000

unfoldable pub init {ℓ} : {K V : Type ℓ} → ℕ → CacheMap K V
init now = record {
  cache = [];
  cleanup_interval_ns = cleanup_interval;
  cleanup_time_ns = now + cleanup_interval;
}

unfoldable pub removal_keys {ℓ} : {K V : Type ℓ} → (K → ℕ) → Dict K (CacheItem V) → List K
unfolding is_expired
removal_keys scan [] = []
removal_keys scan ((k, c) ∷ d) =
    let rest = removal_keys scan d in if is_expired c (scan k) then k ∷ rest else rest

unfoldable pub renew {ℓ} : {V : Type ℓ} → Option (CacheItem V) → V → ℕ → ℕ → ℕ → CacheItem V
unfolding is_expired
renew none value_if_absent ttl now later = record {
  item = value_if_absent;
  expiration_time = later + ttl;
}
renew (some old) value_if_absent ttl now later =
    if is_expired old now
    then record { item = value_if_absent; expiration_time = later + ttl }
    else old

module _ {ℓ} {K V : Type ℓ} (dec : Discrete K) where
  unfoldable pub after_get : K → ℕ → CacheMap K V → Option (CacheItem V) → CacheMap K V × Option V
  unfolding is_expired
  after_get key now m none = (m, none)
  after_get key now m (some c) =
      if is_expired c now
      then (record m { cache = Dict.pop dec key m.cache }, none)
      else (m, some c.item)

  unfoldable pub get : K → ℕ → CacheMap K V → CacheMap K V × Option V
  unfolding after_get
  get key now m = after_get key now m (Dict.get dec key m.cache)

  -- `now` tests the old entry and `later` stamps the new one. The new value is a `CacheItem`, never
  -- `None`, so the last branch of the source is not reached.
  unfoldable pub get_with_default : K → V → ℕ → ℕ → ℕ → CacheMap K V → CacheMap K V × V
  unfolding renew
  get_with_default key value_if_absent ttl now later m =
      let new_value = renew (Dict.get dec key m.cache) value_if_absent ttl now later in
      (record m { cache = Dict.put dec key new_value m.cache }, new_value.item)

  unfoldable pub pop_all : List K → Dict K (CacheItem V) → Dict K (CacheItem V)
  pop_all [] d = d
  pop_all (k ∷ ks) d = pop_all ks (Dict.pop dec k d)

  unfoldable pub cleanup : Sweep K → CacheMap K V → CacheMap K V
  unfolding removal_keys pop_all
  cleanup r m = if ltb r.check m.cleanup_time_ns then m else record m {
    cleanup_time_ns = r.next + m.cleanup_interval_ns;
    cache = pop_all (removal_keys r.scan m.cache) m.cache;
  }

  unfoldable pub put : K → V → ℕ → ℕ → Sweep K → CacheMap K V → CacheMap K V
  put key item ttl now r m = cleanup r (record m {
    cache = Dict.put dec key (record { item = item; expiration_time = now + ttl }) m.cache;
  })

  unfoldable pub remove : K → Sweep K → CacheMap K V → CacheMap K V
  remove key r m = cleanup r (record m { cache = Dict.pop dec key m.cache })

unfoldable pub clear {ℓ} : {K V : Type ℓ} → CacheMap K V → CacheMap K V
clear m = record m { cache = [] }

-- The items of `get_dict`, the expired ones included.
unfoldable pub get_dict {ℓ} : {K V : Type ℓ} → CacheMap K V → Dict K V
get_dict m = map (λ (k, c). (k, c.item)) m.cache
