-- ===== src/HostListProvider/Caches/Shared.antt =====
-- host_list_provider.py: a topology that one provider fetched serves the others of the cluster.
use aws_advanced_python_wrap.Prelude.{
  ℕ, ◌+◌, ◌≤◌, ◌≡◌, refl, ◌∙◌, sym, ap, subst, Bool, true, false, not, ◌&&◌, ◌||◌, Bool-cases, inl,
  inr, if_pos, Option, none, some, some_inj, List, [], ◌∷◌, map, is_some, String, String-discrete,
  if◌then◌else◌, ltb, arith,
}
use aws_advanced_python_wrap.Dict.{Dict, IsDistinct, put-IsDistinct, pop-IsDistinct, get-put}
use aws_advanced_python_wrap.Dict
use aws_advanced_python_wrap.Errors.{Exc}
use aws_advanced_python_wrap.Exec.{Result, ok}
use aws_advanced_python_wrap.Host.{HostInfo, url}
use aws_advanced_python_wrap.Cache.Map.{
  CacheMap, get_dict, CacheItem, Sweep, is_expired, removal_keys, pop_all, cleanup, after_get,
}
use aws_advanced_python_wrap.Cache.Map
use aws_advanced_python_wrap.Cache.Map.View.{swept, get-swept}
use aws_advanced_python_wrap.HostListProvider.Caches.{
  Caches, Provider, Readings, Outside, suggest_if, suggest_for, suggest_all, suggest_cluster_id,
  adopt, adopt_suggested, cached_or_initial, store_topology, suggest_if_new, use_rows, after_query,
  fetch, fetch_or_cached, get_topology, is_usable,
}

module _ {V : Type 0} where
  abbrev Entries : CacheMap String V → Type 0
  Entries m = IsDistinct String-discrete m.cache

  cleanup-get :
      (k : String) (c : CacheItem V) (r : Sweep String) (m : CacheMap String V)
      → Entries m
      → Dict.get String-discrete k m.cache ≡ some c
      → r.scan k ≤ c.expiration_time
      → Dict.get String-discrete k (cleanup String-discrete r m).cache ≡ some c
  unfolding cleanup swept is_expired
  cleanup-get k c r m d e h = elim (Bool-cases (ltb r.check m.cleanup_time_ns)) [
    | inl b ↦ rw (cleanup, b) e
    | inr b ↦
        rw (cleanup, b) (get-swept String-discrete r.scan k m.cache d ∙ (rw e (ground (arith, h))))
  ]

  not_expired : (c : CacheItem V) (now : ℕ) → now ≤ c.expiration_time → is_expired c now ≡ false
  unfolding is_expired
  not_expired c now h = ground (arith, h)

  get-held :
      (k : String) (c : CacheItem V) (now : ℕ) (m : CacheMap String V)
      → Dict.get String-discrete k m.cache ≡ some c
      → now ≤ c.expiration_time
      → Map.get String-discrete k now m ≡ (m, some c.item)
  unfolding Map.get after_get
  get-held k c now m e h =
      ap (λ o. after_get String-discrete k now m o) e
      ∙ ap
          (λ b.
            if b
            then (record m { cache = Dict.pop String-discrete k m.cache }, none)
            else (m, some c.item))
          (not_expired c now h)

  -- What was put is got until it expires.
  put-get :
      (k : String) (v : V) (ttl now u : ℕ) (r : Sweep String) (m : CacheMap String V)
      → Entries m
      → r.scan k ≤ now + ttl
      → u ≤ now + ttl
      → (let m' = Map.put String-discrete k v ttl now r m in
          Map.get String-discrete k u m' ≡ (m', some v))
  unfolding Map.put
  put-get k v ttl now u r m d h h' =
      let c : CacheItem V = record { item = v; expiration_time = now + ttl } in
      let m1 : CacheMap String V = record m { cache = Dict.put String-discrete k c m.cache } in
      get-held k c u (cleanup String-discrete r m1)
        (cleanup-get k c r m1 (put-IsDistinct String-discrete k c m.cache d)
          (get-put String-discrete k k c m.cache ∙ if_pos (String-discrete k k) refl _ _) h)
        h'

  after_get-Entries :
      (k : String) (now : ℕ) (m : CacheMap String V) (o : Option (CacheItem V))
      → Entries m
      → Entries (after_get String-discrete k now m o).0
  unfolding after_get
  after_get-Entries k now m none d = d
  after_get-Entries k now m (some c) d = elim (Bool-cases (is_expired c now)) [
    | inl b ↦ rw b (pop-IsDistinct String-discrete k m.cache d)
    | inr b ↦ rw b d
  ]

  get-Entries :
      (k : String) (now : ℕ) (m : CacheMap String V)
      → Entries m
      → Entries (Map.get String-discrete k now m).0
  unfolding Map.get
  get-Entries k now m d = after_get-Entries k now m (Dict.get String-discrete k m.cache) d

suggest_if-topologies :
    (r : Readings) (id : String) (urls : List String) (b : Bool) (k : String) (c : Caches)
    → (suggest_if r id urls b k c).topology_cache ≡ c.topology_cache
unfolding suggest_if
suggest_if-topologies r id urls true k c = refl
suggest_if-topologies r id urls false k c = refl

suggest_all-topologies :
    (r : Readings) (id : String) (urls : List String) (entries : Dict String (List HostInfo))
    (c : Caches)
    → (suggest_all r id urls entries c).topology_cache ≡ c.topology_cache
unfolding suggest_all suggest_for
suggest_all-topologies r id urls [] c = refl
suggest_all-topologies r id urls ((k, hosts) ∷ entries) c =
    suggest_all-topologies r id urls entries (suggest_for r id urls k hosts c)
    ∙ suggest_if-topologies r id urls _ k _

suggest-topologies :
    (r : Readings) (id : String) (hosts : List HostInfo) (c : Caches)
    → (suggest_cluster_id r id hosts c).topology_cache ≡ c.topology_cache
unfolding suggest_cluster_id
suggest-topologies r id [] c = refl
suggest-topologies r id (h ∷ hosts) c =
    suggest_all-topologies r id (map url (h ∷ hosts)) (get_dict c.topology_cache) c

either_caches :
    (b : Bool) (x y : Caches)
    → x.topology_cache ≡ y.topology_cache
    → (if b then x else y).topology_cache ≡ y.topology_cache
either_caches true x y e = e
either_caches false x y e = refl

module _ {W : Type 0} (out : Outside W) where
  -- What the adoption of a suggested id leaves alone.
  adopted :
      (o : Option String) (p : Provider W)
      → ((adopt out o p).caches ≡ p.caches)
        × ((adopt out o p).world ≡ p.world)
        × ((adopt out o p).refresh_rate_ns ≡ p.refresh_rate_ns)
  adopted none p = (refl, refl, refl)
  adopted (some id) p = ground arith

  stored :
      (r : Readings) (cached : Option (List HostInfo)) (h : HostInfo) (hosts : List HostInfo)
      (p : Provider W)
      → (use_rows out r cached (some (h ∷ hosts)) p).1.caches.topology_cache
        ≡ Map.put String-discrete p.cluster_id
            (h ∷ hosts)
            p.refresh_rate_ns
            r.put_at
            r.put_sweep
            p.caches.topology_cache
  unfolding use_rows suggest_if_new store_topology
  stored r cached h hosts p =
      let c = (store_topology out r (h ∷ hosts) p).caches in
      either_caches (p.is_primary_cluster_id && not (is_some cached))
        (suggest_cluster_id r p.cluster_id (h ∷ hosts) c) c
        (suggest-topologies r p.cluster_id (h ∷ hosts) c)

  -- What survives the adoption of a suggested id.
  record Same (p q : Provider W) : Type 0 where
    topologies : q.caches.topology_cache ≡ p.caches.topology_cache
    world : q.world ≡ p.world
    rate : q.refresh_rate_ns ≡ p.refresh_rate_ns

  adopt_suggested-Same : (now : ℕ) (p : Provider W) → Same p (adopt_suggested out now p)
  unfolding adopt_suggested
  adopt_suggested-Same now p =
      let (ids, o) = Map.get String-discrete p.cluster_id now p.caches.cluster_ids_to_update in
      let (c, w, r) =
        adopted o (record p { caches = record p.caches { cluster_ids_to_update = ids } }) in
      record { topologies = ap (λ x. x.topology_cache) c; world = w; rate = r }

  always : {A : Type 0} (b : Bool) (x y : A) → (if b || true then x else y) ≡ x
  always true x y = refl
  always false x y = refl

  module _ (r : Readings) (conn : ℕ) (h : HostInfo) (hosts : List HostInfo) where
    queried :
        (cached : Option (List HostInfo)) (q : Provider W)
        (x : Result Exc (Option (List HostInfo)) × W) (w : W)
        → x ≡ (ok (some (h ∷ hosts)), w)
        → (after_query out r cached q x).1.caches.topology_cache
          ≡ Map.put String-discrete q.cluster_id
              (h ∷ hosts)
              q.refresh_rate_ns
              r.put_at
              r.put_sweep
              q.caches.topology_cache
    unfolding after_query
    queried cached q x w e = rw e (stored r cached h hosts (record q { world = w }))

    fetched :
        (c : CacheMap String (List HostInfo) × Option (List HostInfo)) (q : Provider W) (w : W)
        → out.query_for_topology conn q.world ≡ (ok (some (h ∷ hosts)), w)
        → (fetch_or_cached out r (some conn) true c q).1.caches.topology_cache
          ≡ Map.put String-discrete q.cluster_id
              (h ∷ hosts)
              q.refresh_rate_ns
              r.put_at
              r.put_sweep
              c.0
    unfolding fetch_or_cached fetch
    fetched (topologies, cached) q w e =
        let q' = record q { caches = record q.caches { topology_cache = topologies } } in
        ap (λ x. x.1.caches.topology_cache)
          (always (not (is_usable out cached)) (fetch out r cached (some conn) q')
            (cached_or_initial out cached q'))
        ∙ queried cached q' (out.query_for_topology conn q.world) w e

    -- What a forced refresh leaves in the topology cache, when the query gives `h` and `hosts`.
    forced :
        (p : Provider W) (w : W)
        → out.query_for_topology conn p.world ≡ (ok (some (h ∷ hosts)), w)
        → (let q = adopt_suggested out r.id_at p in
            (get_topology out r (some conn) true p).1.caches.topology_cache
            ≡ Map.put String-discrete q.cluster_id
                (h ∷ hosts)
                q.refresh_rate_ns
                r.put_at
                r.put_sweep
                (Map.get String-discrete q.cluster_id r.cached_at q.caches.topology_cache).0)
    unfolding get_topology
    forced p w e =
        let q = adopt_suggested out r.id_at p in
        let m = adopt_suggested-Same r.id_at p in
        fetched (Map.get String-discrete q.cluster_id r.cached_at q.caches.topology_cache) q w
          (ap (λ x. out.query_for_topology conn x) m.world ∙ e)

  -- A refresh that finds the topology in the cache.
  cached :
      (r : Readings) (conn : Option ℕ) (h : HostInfo) (hosts : List HostInfo) (q : Provider W)
      (c : CacheMap String (List HostInfo) × Option (List HostInfo))
      → c.1 ≡ some (h ∷ hosts)
      → ((fetch_or_cached out r conn false c q).0
          ≡ ok (record { fetched = h ∷ hosts; is_cached_data = true }))
        × ((fetch_or_cached out r conn false c q).1.world ≡ q.world)
  unfolding fetch_or_cached cached_or_initial
  cached r conn h hosts q (m, some (g ∷ rest)) e = (rw (some_inj e) refl, refl)
  cached r conn h hosts q (m, some []) e = cc
  cached r conn h hosts q (m, none) e = cc

  unsuggested :
      (now : ℕ) (q : Provider W)
      → (Map.get String-discrete q.cluster_id now q.caches.cluster_ids_to_update).1 ≡ none
      → (adopt_suggested out now q).cluster_id ≡ q.cluster_id
  unfolding adopt_suggested
  unsuggested now q e =
      ap
        (λ o.
          (adopt out o (record q {
            caches = record q.caches {
              cluster_ids_to_update =
                  (Map.get String-discrete q.cluster_id now q.caches.cluster_ids_to_update).0;
            };
          })).cluster_id)
        e

-- Let a provider `p` make a forced refresh through a connection by which the query gives `h` and
-- `hosts`, and let `id` be its cluster id then. Let another provider `q` have the caches that this
-- left and the cluster id `id`, with no other one suggested for it. Until the refresh rate of `p`
-- is over, counted from the time of storing, a refresh of `q` that is not forced gives `h` and `hosts`
-- from the cache, whatever connection it has, and leaves the world alone: no query is made. The keys
-- of the cache are distinct, as those of a dict, and the clean-up after storing was not later either.
pub get_topology-shared :
    {W : Type 0} (out : Outside W) (r r' : Readings) (conn : ℕ) (conn' : Option ℕ) (h : HostInfo)
    (hosts : List HostInfo) (p q : Provider W) (w : W) (id : String)
    → IsDistinct String-discrete p.caches.topology_cache.cache
    → out.query_for_topology conn p.world ≡ (ok (some (h ∷ hosts)), w)
    → (adopt_suggested out r.id_at p).cluster_id ≡ id
    → q.caches ≡ (get_topology out r (some conn) true p).1.caches
    → q.cluster_id ≡ id
    → (Map.get String-discrete id r'.id_at q.caches.cluster_ids_to_update).1 ≡ none
    → r.put_sweep.scan id ≤ r.put_at + p.refresh_rate_ns
    → r'.cached_at ≤ r.put_at + p.refresh_rate_ns
    → ((get_topology out r' conn' false q).0
        ≡ ok (record { fetched = h ∷ hosts; is_cached_data = true }))
      × ((get_topology out r' conn' false q).1.world ≡ q.world)
unfolding get_topology
get_topology-shared out r r' conn conn' h hosts p q w id d query e1 e2 e3 none_suggested sweep now =
    let p1 = adopt_suggested out r.id_at p in
    let m = adopt_suggested-Same out r.id_at p in
    let q1 = adopt_suggested out r'.id_at q in
    let n = adopt_suggested-Same out r'.id_at q in
    let old = (Map.get String-discrete p1.cluster_id r.cached_at p1.caches.topology_cache).0 in
    let distinct =
      get-Entries p1.cluster_id r.cached_at p1.caches.topology_cache
        (subst (λ c. IsDistinct String-discrete c.cache) (sym m.topologies) d) in
    let held = n.topologies ∙ ap (λ c. c.topology_cache) e2 ∙ forced out r conn h hosts p w query in
    let same_id =
      unsuggested out r'.id_at q (
        subst (λ i. (Map.get String-discrete i r'.id_at q.caches.cluster_ids_to_update).1 ≡ none)
          (sym e3) none_suggested)
      ∙ e3 in
    let got =
      put-get p1.cluster_id (h ∷ hosts) p1.refresh_rate_ns r.put_at r'.cached_at r.put_sweep old
        distinct
        (subst (λ i. r.put_sweep.scan i ≤ r.put_at + p1.refresh_rate_ns) (sym e1)
          (subst (λ x. r.put_sweep.scan id ≤ r.put_at + x) (sym m.rate) sweep))
        (subst (λ x. r'.cached_at ≤ r.put_at + x) (sym m.rate) now) in
    let (answer, world) =
      cached out r' conn' h hosts q1
        (Map.get String-discrete q1.cluster_id r'.cached_at q1.caches.topology_cache)
        (ap (λ i. (Map.get String-discrete i r'.cached_at q1.caches.topology_cache).1)
            (same_id ∙ sym e1)
          ∙ ap (λ c. (Map.get String-discrete p1.cluster_id r'.cached_at c).1) held
          ∙ ap (λ x. x.1) got) in
    (answer, world ∙ n.world)
