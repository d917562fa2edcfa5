-- ===== src/HostListProvider/Caches.antt =====
-- host_list_provider.py: the caches that all `RdsHostListProvider`s share, and the refreshes that use
-- them. `W` is the world outside; the query of the topology acts on it. Each reading of the clock is
-- an argument. `_initialize` stands apart: it runs before these methods.
pub mod Shared
use aws_advanced_python_wrap.Prelude.{
  ℕ, Bool, true, false, not, ◌&&◌, ◌||◌, Option, none, some, is_some, List, [], ◌∷◌, map, String,
  String-discrete, test, if◌then◌else◌, first,
}
use aws_advanced_python_wrap.Dict.{Dict}
use aws_advanced_python_wrap.Errors.{Exc, aws_wrapper_error, query_timeout_error}
use aws_advanced_python_wrap.Exec.{Result, ok, raised, Exec, pure, throw, ◌>>=◌, ◌>>◌}
use aws_advanced_python_wrap.Host.{HostInfo, url, mem}
use aws_advanced_python_wrap.Cache.Map.{CacheMap, Sweep, get_dict}
use aws_advanced_python_wrap.Cache.Map

pub record Caches : Type 0 where
  pub topology_cache : CacheMap String (List HostInfo)
  pub is_primary_cluster_id_cache : CacheMap String Bool
  pub cluster_ids_to_update : CacheMap String String

pub record Provider (W : Type 0) : Type 0 where
  pub cluster_id : String
  pub is_primary_cluster_id : Bool
  pub hosts : List HostInfo
  pub initial_hosts : List HostInfo
  pub refresh_rate_ns : ℕ
  pub caches : Caches
  pub world : W

-- The readings of the clock in one `_get_topology`; those of the loop over the clusters are given
-- by the cluster id.
pub record Readings : Type 0 where
  pub id_at : ℕ
  pub cached_at : ℕ
  pub put_at : ℕ
  pub put_sweep : Sweep String
  pub primary_at : String → ℕ
  pub primary_later : String → ℕ
  pub suggested_at : String → ℕ
  pub suggest_at : String → ℕ
  pub suggest_sweep : String → Sweep String

pub record FetchTopologyResult : Type 0 where
  pub fetched : List HostInfo
  pub is_cached_data : Bool

pub record Outside (W : Type 0) : Type 0 where
  pub current_connection : W → Option ℕ
  pub query_for_topology : ℕ → Exec W Exc (Option (List HostInfo))
  pub query_host_id : ℕ → Exec W Exc (Option String)
  pub is_timeout : Exc → Bool

abbrev pub suggested_cluster_id_refresh_ns : ℕ
suggested_cluster_id_refresh_ns = 600_000_000_000

abbrev pub same_text : String → String → Bool
same_text s t = test (String-discrete s t)

-- An id counts if it is there and not empty.
abbrev pub is_given : Option String → Bool
is_given none = false
is_given (some i) = not (same_text i "")

abbrev pub is_empty : {A : Type 0} → List A → Bool
is_empty [] = true
is_empty (x ∷ xs) = false

abbrev pub has_url : List String → List HostInfo → Bool
has_url urls [] = false
has_url urls (h ∷ hosts) = mem (url h) urls || has_url urls hosts

module _ (r : Readings) (primary_id : String) (primary_urls : List String) where
  unfoldable pub suggest_if : Bool → String → Caches → Caches
  suggest_if false id c = c
  suggest_if true id c = record c {
    cluster_ids_to_update =
        Map.put String-discrete id primary_id suggested_cluster_id_refresh_ns (r.suggest_at id)
          (r.suggest_sweep id) c.cluster_ids_to_update;
  }

  -- One entry of the topology cache.
  unfoldable pub suggest_for : String → List HostInfo → Caches → Caches
  unfolding suggest_if
  suggest_for id hosts c =
      let (primaries, is_primary) =
        Map.get_with_default String-discrete id false suggested_cluster_id_refresh_ns
          (r.primary_at id) (r.primary_later id) c.is_primary_cluster_id_cache in
      let (ids, suggested) =
        Map.get String-discrete id (r.suggested_at id) c.cluster_ids_to_update in
      suggest_if
        (not (is_primary || is_given suggested || is_empty hosts) && has_url primary_urls hosts) id
        (record c { is_primary_cluster_id_cache = primaries; cluster_ids_to_update = ids })

  unfoldable pub suggest_all : Dict String (List HostInfo) → Caches → Caches
  unfolding suggest_for
  suggest_all [] c = c
  suggest_all ((id, hosts) ∷ entries) c = suggest_all entries (suggest_for id hosts c)

unfoldable pub suggest_cluster_id : Readings → String → List HostInfo → Caches → Caches
unfolding suggest_all
suggest_cluster_id r primary_id [] c = c
suggest_cluster_id r primary_id (h ∷ hosts) c =
    suggest_all r primary_id (map url (h ∷ hosts)) (get_dict c.topology_cache) c

module _ {W : Type 0} (out : Outside W) where
  abbrev pub Act : Type 0 → Type 0
  Act A = Exec (Provider W) Exc A

  abbrev pub adopt : Option String → Provider W → Provider W
  adopt none p = p
  adopt (some id) p =
      if not (same_text id "") && not (same_text p.cluster_id id)
      then record p { cluster_id = id; is_primary_cluster_id = true }
      else p

  -- A primary cluster id that another provider suggested is taken over.
  unfoldable pub adopt_suggested : ℕ → Provider W → Provider W
  adopt_suggested now p =
      let (ids, suggested) =
        Map.get String-discrete p.cluster_id now p.caches.cluster_ids_to_update in
      adopt suggested (record p { caches = record p.caches { cluster_ids_to_update = ids } })

  unfoldable pub cached_or_initial : Option (List HostInfo) → Act FetchTopologyResult
  cached_or_initial none p = (ok (record { fetched = p.initial_hosts; is_cached_data = false }), p)
  cached_or_initial (some []) p =
      (ok (record { fetched = p.initial_hosts; is_cached_data = false }), p)
  cached_or_initial (some (h ∷ hosts)) p =
      (ok (record { fetched = h ∷ hosts; is_cached_data = true }), p)

  unfoldable pub store_topology : Readings → List HostInfo → Provider W → Provider W
  store_topology r hosts p = record p {
    caches = record p.caches {
      topology_cache =
          Map.put String-discrete p.cluster_id hosts p.refresh_rate_ns r.put_at r.put_sweep
            p.caches.topology_cache;
    };
  }

  unfoldable pub suggest_if_new : Readings → Bool → List HostInfo → Provider W → Provider W
  unfolding suggest_cluster_id
  suggest_if_new r is_new hosts p = record p {
    caches =
        if p.is_primary_cluster_id && is_new
        then suggest_cluster_id r p.cluster_id hosts p.caches
        else p.caches;
  }

  unfoldable pub use_rows :
      Readings → Option (List HostInfo) → Option (List HostInfo) → Act FetchTopologyResult
  unfolding cached_or_initial store_topology suggest_if_new
  use_rows r cached none p = cached_or_initial cached p
  use_rows r cached (some []) p = cached_or_initial cached p
  use_rows r cached (some (h ∷ hosts)) p = (
    ok (record { fetched = h ∷ hosts; is_cached_data = false }),
    suggest_if_new r (not (is_some cached)) (h ∷ hosts) (store_topology r (h ∷ hosts) p),
  )

  unfoldable pub after_query :
      Readings
      → Option (List HostInfo)
      → Provider W
      → Result Exc (Option (List HostInfo)) × W
      → Result Exc FetchTopologyResult × Provider W
  unfolding use_rows
  after_query r cached p (ok rows, w) = use_rows r cached rows (record p { world = w })
  after_query r cached p (raised e, w) =
      (raised (if out.is_timeout e then query_timeout_error else e), record p { world = w })

  unfoldable pub fetch : Readings → Option (List HostInfo) → Option ℕ → Act FetchTopologyResult
  unfolding after_query
  fetch r cached none p = (ok (record { fetched = p.initial_hosts; is_cached_data = false }), p)
  fetch r cached (some conn) p = after_query r cached p (out.query_for_topology conn p.world)

  abbrev pub is_usable : Option (List HostInfo) → Bool
  is_usable none = false
  is_usable (some hosts) = not (is_empty hosts)

  unfoldable pub fetch_or_cached :
      Readings
      → Option ℕ
      → Bool
      → CacheMap String (List HostInfo) × Option (List HostInfo)
      → Act FetchTopologyResult
  unfolding fetch cached_or_initial
  fetch_or_cached r conn force (topologies, cached) p =
      let q = record p { caches = record p.caches { topology_cache = topologies } } in
      if not (is_usable cached) || force then fetch r cached conn q else cached_or_initial cached q

  unfoldable pub get_topology : Readings → Option ℕ → Bool → Act FetchTopologyResult
  unfolding adopt_suggested fetch_or_cached
  get_topology r conn force p =
      let q = adopt_suggested r.id_at p in
      fetch_or_cached r conn force
        (Map.get String-discrete q.cluster_id r.cached_at q.caches.topology_cache) q

  abbrev pub connection_or : Option ℕ → Option ℕ → Option ℕ
  connection_or none current = current
  connection_or (some c) current = some c

  unfoldable pub keep_hosts : FetchTopologyResult → Act (List HostInfo)
  keep_hosts t p = (ok t.fetched, record p { hosts = t.fetched })

  -- `refresh`, and with `force`, `force_refresh`.
  unfoldable pub refresh : Readings → Bool → Option ℕ → Act (List HostInfo)
  unfolding get_topology keep_hosts
  refresh r force connection p =
      (get_topology r (connection_or connection (out.current_connection p.world)) force
          >>= keep_hosts)
        p

  abbrev pub has_id : String → HostInfo → Bool
  has_id id h = found h.host_id
    where
      found : Option String → Bool
      found none = false
      found (some i) = same_text i id

  unfoldable pub found_after_force : String → List HostInfo → Option HostInfo
  found_after_force id hosts = first (has_id id) hosts

  unfoldable pub find_host :
      Readings → ℕ → String → Bool → List HostInfo → Option HostInfo → Act (Option HostInfo)
  unfolding refresh found_after_force
  find_host r connection id is_forced hosts (some h) = pure (some h)
  find_host r connection id true hosts none = pure none
  find_host r connection id false hosts none = do
    forced ← refresh r true (some connection)
    pure (found_after_force id forced)

  unfoldable pub find_in : Readings → Readings → ℕ → String → List HostInfo → Act (Option HostInfo)
  unfolding find_host refresh
  find_in r r' connection id [] = do
    forced ← refresh r true (some connection)
    find_host r' connection id true forced (first (has_id id) forced)
  find_in r r' connection id (h ∷ hosts) =
      find_host r' connection id false (h ∷ hosts) (first (has_id id) (h ∷ hosts))

  abbrev pub after_id :
      Act (Option HostInfo)
      → (String → Act (Option HostInfo))
      → Provider W
      → Result Exc (Option String) × W
      → Result Exc (Option HostInfo) × Provider W
  after_id missing found p (ok none, w) = missing (record p { world = w })
  after_id missing found p (ok (some id), w) = found id (record p { world = w })
  after_id missing found p (raised e, w) =
      (raised (if out.is_timeout e then query_timeout_error else e), record p { world = w })

  -- The three refreshes that it may make have readings of their own.
  unfoldable pub identify_connection :
      Readings → Readings → Readings → Option ℕ → Act (Option HostInfo)
  unfolding refresh find_in
  identify_connection r r' r'' none = throw aws_wrapper_error
  identify_connection r r' r'' (some connection) = λ p.
      after_id (throw aws_wrapper_error)
        (λ id. refresh r false (some connection) >>= find_in r' r'' connection id) p
        (out.query_host_id connection p.world)
