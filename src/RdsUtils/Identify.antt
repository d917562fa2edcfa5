-- ===== src/RdsUtils/Identify.antt =====
-- utils/rdsutils.py: the cache of matches does not change what a host name is taken for.
use aws_advanced_python_wrap.Prelude.{
  ◌≡◌, refl, ◌∙◌, sym, subst, Bool, true, false, ◌||◌, ite, Option, none, some, is_some, List, [],
  ◌∷◌, String, String-discrete, if◌then◌else◌,
}
use aws_advanced_python_wrap.Dict.{Dict, get-put}
use aws_advanced_python_wrap.Dict
use aws_advanced_python_wrap.RdsUtils.{
  Pattern, Match, Python, RdsUrlType, ip_address, rds_writer_cluster, rds_reader_cluster,
  rds_custom_cluster, rds_proxy, rds_instance, other, dns_patterns, Cache, Memo, ret, after,
  and_then, store_match, use_cached, find_in, find, dns_of, get_dns_group, is_group,
  is_writer_cluster_dns, is_reader_cluster_dns, is_rds_custom_cluster_dns, is_rds_proxy_dns,
  is_rds_dns, is_rds_instance, is_ipv4, is_ipv6, choose, identify_dns, identify_rds_type,
}

module _ (py : Python) where
  -- The first pattern that matches, without a cache.
  abbrev pub lookup : List Pattern → String → Option Match
  lookup [] host = none
  lookup (p ∷ patterns) host = elim (py.search p host) [
    | some m ↦ some m
    | none ↦ lookup patterns host
  ]

  -- Each match in the cache is the one that the patterns give.
  abbrev pub Coherent : Cache → Type 0
  Coherent c =
      (host : String) (m : Match)
      → Dict.get String-discrete host c ≡ some m
      → lookup dns_patterns host ≡ some m

  -- On a coherent cache, the computation gives `a` and leaves a coherent cache.
  abbrev pub Gives : {A : Type 0} → Memo A → A → Type 0
  Gives m a = (c : Cache) → Coherent c → ((m c).0 ≡ a) × Coherent (m c).1

  Gives-ret : {A : Type 0} (a : A) → Gives (ret a) a
  Gives-ret a c h = (refl, h)

  after-Gives :
      {A B : Type 0} (f : A → Memo B) (a : A) (b : B) (p : A × Cache)
      → p.0 ≡ a
      → Coherent p.1
      → Gives (f a) b
      → ((after f p).0 ≡ b) × Coherent (after f p).1
  after-Gives f a b (x, c) e h g = subst (λ y. ((f y c).0 ≡ b) × Coherent (f y c).1) (sym e) (g c h)

  and_then-Gives :
      {A B : Type 0} (m : Memo A) (f : A → Memo B) (a : A) (b : B)
      → Gives m a
      → Gives (f a) b
      → Gives (and_then m f) b
  and_then-Gives m f a b g k c h = let (e, h') = g c h in after-Gives f a b (m c) e h' k

  Coherent-put :
      (host : String) (m : Match) (c : Cache)
      → lookup dns_patterns host ≡ some m
      → Coherent c
      → Coherent (Dict.put String-discrete host m c)
  Coherent-put host m c e h g n q =
      decided (String-discrete host g) (sym (get-put String-discrete host g m c) ∙ q)
    where
      decided :
          (d : Dec (host ≡ g))
          → ite d (some m) (Dict.get String-discrete g c) ≡ some n
          → lookup dns_patterns g ≡ some n
      decided (yes p) r = subst (λ x. lookup dns_patterns x ≡ some n) p (e ∙ r)
      decided (no ne) r = h g n r

  store-Gives :
      (o : Option Match) (host : String) (rest : Memo (Option Match)) (found : Option Match)
      → lookup dns_patterns host ≡ (elim o [ some m ↦ some m | none ↦ found ])
      → (lookup dns_patterns host ≡ found → Gives rest found)
      → Gives (store_match py host o rest) (elim o [ some m ↦ some m | none ↦ found ])
  unfolding store_match
  store-Gives none host rest found e k c h = k e c h
  store-Gives (some m) host rest found e k c h = (refl, Coherent-put host m c e h)

  cached-Gives :
      (o : Option Match) (host : String) (search_it : Memo (Option Match)) (found : Option Match)
      (c : Cache)
      → Dict.get String-discrete host c ≡ o
      → lookup dns_patterns host ≡ found
      → Gives search_it found
      → Coherent c
      → ((use_cached py o search_it c).0 ≡ found) × Coherent (use_cached py o search_it c).1
  unfolding use_cached
  cached-Gives none host search_it found c e l k h = k c h
  cached-Gives (some m) host search_it found c e l k h = (sym (h host m e) ∙ l, h)

  find_in-Gives :
      (patterns : List Pattern) (host : String)
      → lookup dns_patterns host ≡ lookup patterns host
      → Gives (find_in py patterns host) (lookup patterns host)
  unfolding find_in
  find_in-Gives [] host e c h = (refl, h)
  find_in-Gives (p ∷ patterns) host e c h =
      let rest = find_in py patterns host in
      cached-Gives (Dict.get String-discrete host c) host
        (store_match py host (py.search p host) rest) (lookup (p ∷ patterns) host) c refl e
        (store-Gives (py.search p host) host rest (lookup patterns host) e
          (find_in-Gives patterns host))
        h

  -- What `_find` finds without a cache.
  abbrev pub found : String → Option Match
  found host = if py.is_blank host then none else lookup dns_patterns host

  if-Gives :
      {A : Type 0} (b : Bool) (m n : Memo A) (x y : A)
      → Gives m x
      → Gives n y
      → Gives (if b then m else n) (if b then x else y)
  if-Gives true m n x y p q = p
  if-Gives false m n x y p q = q

  find-Gives : (host : String) → Gives (find py host) (found host)
  unfolding find
  find-Gives host =
      if-Gives (py.is_blank host) (ret none) (find_in py dns_patterns host) none
        (lookup dns_patterns host) (Gives-ret none) (find_in-Gives dns_patterns host refl)

  abbrev group : String → Option String
  group host = dns_of py (found host)

  dns-Gives : (host : String) → Gives (get_dns_group py host) (group host)
  unfolding get_dns_group
  dns-Gives host =
      and_then-Gives (find py host) (λ m. ret (dns_of py m)) (found host) (group host)
        (find-Gives host) (Gives-ret (group host))

  grouped :
      {B : Type 0} (host : String) (f : Option String → Memo B) (b : B)
      → Gives (f (group host)) b
      → Gives (and_then (get_dns_group py host) f) b
  grouped host f b g = and_then-Gives (get_dns_group py host) f (group host) b (dns-Gives host) g

  instance-Gives :
      (host : String)
      → Gives
          (is_rds_instance py host)
          (if is_some (group host) then false else is_some (found host))
  unfolding is_rds_instance is_rds_dns
  instance-Gives host =
      grouped host (λ g. if is_some g then ret false else is_rds_dns py host)
        (if is_some (group host) then false else is_some (found host))
        (if-Gives (is_some (group host)) (ret false) (is_rds_dns py host) false
          (is_some (found host)) (Gives-ret false)
          (and_then-Gives (find py host) (λ m. ret (is_some m)) (found host) (is_some (found host))
            (find-Gives host) (Gives-ret (is_some (found host)))))

  choose-Gives :
      (m : Memo Bool) (b : Bool) (t : RdsUrlType) (rest : Memo RdsUrlType) (u : RdsUrlType)
      → Gives m b
      → Gives rest u
      → Gives (choose py m t rest) (if b then t else u)
  choose-Gives m b t rest u g k =
      and_then-Gives m (λ x. if x then ret t else rest) b (if b then t else u) g
        (if-Gives b (ret t) rest t u (Gives-ret t) k)

  -- The kind of a name by the first match of its patterns.
  abbrev pub kind_of : Option Match → RdsUrlType
  kind_of m =
      let g = dns_of py m in
      if is_group py "cluster-" g
      then rds_writer_cluster
      else if is_group py "cluster-ro-" g
      then rds_reader_cluster
      else if is_group py "cluster-custom-" g
      then rds_custom_cluster
      else if is_group py "proxy-" g
      then rds_proxy
      else if (if is_some g then false else is_some m)
      then rds_instance
      else other

  identify_dns-Gives : (host : String) → Gives (identify_dns py host) (kind_of (found host))
  unfolding identify_dns is_writer_cluster_dns is_reader_cluster_dns is_rds_custom_cluster_dns
      is_rds_proxy_dns
  identify_dns-Gives host =
      let g = group host in
      choose-Gives (is_writer_cluster_dns py host) (is_group py "cluster-" g) _ _ _
        (grouped host (λ o. ret (is_group py "cluster-" o)) (is_group py "cluster-" g)
          (Gives-ret (is_group py "cluster-" g)))
        (choose-Gives (is_reader_cluster_dns py host) (is_group py "cluster-ro-" g) _ _ _
          (grouped host (λ o. ret (is_group py "cluster-ro-" o)) (is_group py "cluster-ro-" g)
            (Gives-ret (is_group py "cluster-ro-" g)))
          (choose-Gives (is_rds_custom_cluster_dns py host) (is_group py "cluster-custom-" g) _ _ _
            (grouped host (λ o. ret (is_group py "cluster-custom-" o))
              (is_group py "cluster-custom-" g) (Gives-ret (is_group py "cluster-custom-" g)))
            (choose-Gives (is_rds_proxy_dns py host) (is_group py "proxy-" g) _ _ _
              (grouped host (λ o. ret (is_group py "proxy-" o)) (is_group py "proxy-" g)
                (Gives-ret (is_group py "proxy-" g)))
              (choose-Gives (is_rds_instance py host)
                (if is_some g then false else is_some (found host)) _ _ _ (instance-Gives host)
                (Gives-ret other)))))

  -- What a host name is taken for, without a cache.
  abbrev pub kind : Option String → RdsUrlType
  kind none = other
  kind (some host) =
      if py.is_blank host
      then other
      else if is_ipv4 py host || is_ipv6 py host
      then ip_address
      else kind_of (found host)

-- On a cache whose matches are those that the patterns give, `identify_rds_type` gives the kind that
-- the first matching pattern and its group decide, as without a cache, and leaves the cache such.
pub identify_rds_type-Gives :
    (py : Python) (host : Option String) → Gives py (identify_rds_type py host) (kind py host)
unfolding identify_rds_type
identify_rds_type-Gives py none = Gives-ret py other
identify_rds_type-Gives py (some host) =
    if-Gives py (py.is_blank host) (ret other) _ other _ (Gives-ret py other) (
      if-Gives py (is_ipv4 py host || is_ipv6 py host) (ret ip_address) (identify_dns py host)
        ip_address (kind_of py (found py host)) (Gives-ret py ip_address)
        (identify_dns-Gives py host))
