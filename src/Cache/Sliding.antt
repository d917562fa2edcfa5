-- ===== src/Cache/Sliding.antt =====
-- aws_advanced_python_wrapper/utils/sliding_expiration_cache.py. The values that are passed to
-- `item_disposal_func` are recorded in `disposed`, the latest last; the function does not raise.
-- `now`, `later`, `last` and `scan k` are the readings of the clock that an operation makes.
pub mod Disposal
pub mod Removal
use aws_advanced_python_wrap.Prelude.{
  ℕ, ◌+◌, Bool, true, false, ◌&&◌, Option, none, some, List, [], ◌∷◌, ◌++◌, ltb, if◌then◌else◌,
}
use aws_advanced_python_wrap.Dict.{Dict, keys, values}
use aws_advanced_python_wrap.Dict
use aws_advanced_python_wrap.Concurrent

pub record CacheItem {ℓ} (V : Type ℓ) : Type ℓ where
  pub item : Option V
  pub expiration_time : ℕ

pub record SlidingExpirationCache {ℓ} (K V : Type ℓ) : Type ℓ where
  pub cleanup_interval_ns : ℕ
  pub should_dispose_func : Option (Option V → Bool)
  pub disposes : Bool
  pub cdict : Dict K (CacheItem V)
  pub cleanup_time_ns : ℕ
  pub disposed : List (Option V)

agrees_to_dispose {ℓ} : {V : Type ℓ} → Option (Option V → Bool) → Option V → Bool
agrees_to_dispose none item = true
agrees_to_dispose (some f) item = f item

unfoldable pub update_expiration {ℓ} : {V : Type ℓ} → CacheItem V → ℕ → CacheItem V
update_expiration i expiration_time = record i { expiration_time = expiration_time }

module _ {ℓ} {K V : Type ℓ} where
  -- `item_disposal_func`, if there is one.
  unfoldable pub dispose : Option V → SlidingExpirationCache K V → SlidingExpirationCache K V
  dispose item c = if c.disposes then record c { disposed = c.disposed ++ item ∷ [] } else c

  unfoldable pub should_cleanup_item : SlidingExpirationCache K V → CacheItem V → ℕ → Bool
  unfolding agrees_to_dispose
  should_cleanup_item c i now =
      ltb i.expiration_time now && agrees_to_dispose c.should_dispose_func i.item

  dispose_all : List (CacheItem V) → SlidingExpirationCache K V → SlidingExpirationCache K V
  unfolding dispose
  dispose_all [] c = c
  dispose_all (i ∷ is) c = dispose_all is (dispose i.item c)

  unfoldable pub clear : SlidingExpirationCache K V → SlidingExpirationCache K V
  unfolding dispose_all
  clear c = record (dispose_all (values c.cdict) c) { cdict = [] }

  -- The disposal after `_remove_if_expired`: the captured item is `None` if nothing was removed.
  dispose_captured : Option V → SlidingExpirationCache K V → SlidingExpirationCache K V
  unfolding dispose
  dispose_captured none c = c
  dispose_captured (some v) c = dispose (some v) c

  captured : SlidingExpirationCache K V → ℕ → Option (CacheItem V) → Option V
  unfolding should_cleanup_item
  captured c now none = none
  captured c now (some i) = if should_cleanup_item c i now then i.item else none

module _ {ℓ} {K V : Type ℓ} (dec : Discrete K) where
  unfoldable pub remove_if_expired : K → ℕ → SlidingExpirationCache K V → SlidingExpirationCache K V
  unfolding dispose_captured captured should_cleanup_item Concurrent.compute_if_present
  remove_if_expired key now c =
      dispose_captured (captured c now (Dict.get dec key c.cdict)) (record c {
        cdict =
            (Concurrent.compute_if_present dec key
              (λ i. if should_cleanup_item c i now then none else some i) c.cdict).0;
      })

  unfoldable pub remove_expired :
      List K → (K → ℕ) → SlidingExpirationCache K V → SlidingExpirationCache K V
  unfolding remove_if_expired
  remove_expired [] scan c = c
  remove_expired (k ∷ ks) scan c = remove_expired ks scan (remove_if_expired k (scan k) c)

  -- `_cleanup`: `now` is its one reading before the loop.
  unfoldable pub cleanup : ℕ → (K → ℕ) → SlidingExpirationCache K V → SlidingExpirationCache K V
  unfolding remove_expired
  cleanup now scan c =
      if ltb now c.cleanup_time_ns
      then c
      else remove_expired (keys c.cdict) scan
          (record c { cleanup_time_ns = now + c.cleanup_interval_ns })

  renew : K → Option (CacheItem V) → ℕ → Dict K (CacheItem V) → Dict K (CacheItem V) × Option V
  unfolding update_expiration
  renew key none expiration_time d = (d, none)
  renew key (some i) expiration_time d =
      (Dict.put dec key (update_expiration i expiration_time) d, i.item)

  -- `computed` is the result of `mapping_func`, `later` the reading in its `CacheItem`, and `last`
  -- that of `update_expiration`, which changes the stored object.
  unfoldable pub compute_if_absent :
      K
      → Option V
      → ℕ
      → ℕ
      → ℕ
      → ℕ
      → (K → ℕ)
      → SlidingExpirationCache K V
      → SlidingExpirationCache K V × Option V
  unfolding cleanup renew Concurrent.compute_if_absent
  compute_if_absent key computed ttl now later last scan c =
      let c' = cleanup now scan c in
      let (d, i) =
        Concurrent.compute_if_absent dec key
          (some (record { item = computed; expiration_time = later + ttl })) c'.cdict in
      let (d', item) = renew key i (last + ttl) d in (record c' { cdict = d' }, item)

  item_of : Option (CacheItem V) → Option V
  item_of none = none
  item_of (some i) = i.item

  unfoldable pub get :
      K → ℕ → (K → ℕ) → SlidingExpirationCache K V → SlidingExpirationCache K V × Option V
  unfolding cleanup item_of
  get key now scan c = let c' = cleanup now scan c in (c', item_of (Dict.get dec key c'.cdict))

  dispose_removed : Option (CacheItem V) → SlidingExpirationCache K V → SlidingExpirationCache K V
  unfolding dispose
  dispose_removed none c = c
  dispose_removed (some i) c = dispose i.item c

  unfoldable pub remove_and_dispose : K → SlidingExpirationCache K V → SlidingExpirationCache K V
  unfolding dispose_removed Concurrent.remove
  remove_and_dispose key c =
      let (d, i) = Concurrent.remove dec key c.cdict in dispose_removed i (record c { cdict = d })

  unfoldable pub remove : K → ℕ → (K → ℕ) → SlidingExpirationCache K V → SlidingExpirationCache K V
  unfolding remove_and_dispose cleanup
  remove key now scan c = cleanup now scan (remove_and_dispose key c)
