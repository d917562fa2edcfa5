-- ===== src/RdsUtils.antt =====
-- utils/rdsutils.py and utils/rds_url_type.py: what kind of endpoint a host name is. The matching of
-- a pattern, `casefold` and the test for a blank text are Python's, given by the record `Python`. A
-- computation takes CACHE_DNS_PATTERNS and gives it back; CACHE_PATTERNS is written, but never read.
pub mod Identify
mod Tests
use aws_advanced_python_wrap.Prelude.{
  Bool, true, false, not, ◌&&◌, ◌||◌, Option, none, some, is_some, List, [], ◌∷◌, String,
  String-discrete, test, if◌then◌else◌,
}
use aws_advanced_python_wrap.Dict.{Dict}
use aws_advanced_python_wrap.Dict

pub data Pattern : Type 0 where
  aurora_dns aurora_china_dns aurora_old_china_dns aurora_gov_dns : Pattern
  ip_v4 ip_v6 ip_v6_compressed : Pattern

-- The named groups of a match.
pub record Match : Type 0 where
  pub dns : Option String
  pub domain : Option String
  pub instance_name : Option String
  pub region : Option String

pub record Python : Type 0 where
  pub search : Pattern → String → Option Match
  pub casefold : String → String
  pub is_blank : String → Bool

pub data RdsUrlType : Type 0 where
  ip_address rds_writer_cluster rds_reader_cluster rds_custom_cluster : RdsUrlType
  rds_proxy rds_instance other : RdsUrlType

unfoldable pub is_rds : RdsUrlType → Bool
is_rds ip_address = false
is_rds other = false
is_rds _ = true

unfoldable pub is_rds_cluster : RdsUrlType → Bool
is_rds_cluster rds_writer_cluster = true
is_rds_cluster rds_reader_cluster = true
is_rds_cluster rds_custom_cluster = true
is_rds_cluster _ = false

abbrev pub dns_patterns : List Pattern
dns_patterns = aurora_dns ∷ aurora_china_dns ∷ aurora_old_china_dns ∷ aurora_gov_dns ∷ []

abbrev pub Cache : Type 0
Cache = Dict String Match

abbrev pub Memo : Type 0 → Type 0
Memo A = Cache → A × Cache

abbrev pub ret : {A : Type 0} → A → Memo A
ret a c = (a, c)

abbrev pub after : {A B : Type 0} → (A → Memo B) → A × Cache → B × Cache
after f (a, c) = f a c

-- The second computation gets the answer of the first.
abbrev pub and_then : {A B : Type 0} → Memo A → (A → Memo B) → Memo B
and_then m f c = after f (m c)

module _ (py : Python) where
  unfoldable pub store_match : String → Option Match → Memo (Option Match) → Memo (Option Match)
  store_match host none rest c = rest c
  store_match host (some m) rest c = (some m, Dict.put String-discrete host m c)

  unfoldable pub use_cached : Option Match → Memo (Option Match) → Memo (Option Match)
  use_cached none search_it c = search_it c
  use_cached (some m) search_it c = (some m, c)

  -- The loop of `_find`.
  unfoldable pub find_in : List Pattern → String → Memo (Option Match)
  unfolding store_match use_cached
  find_in [] host c = (none, c)
  find_in (p ∷ patterns) host c =
      let rest = find_in patterns host in
      use_cached (Dict.get String-discrete host c) (store_match host (py.search p host) rest) c

  unfoldable pub find : String → Memo (Option Match)
  unfolding find_in
  find host = if py.is_blank host then ret none else find_in dns_patterns host

  abbrev pub dns_of : Option Match → Option String
  dns_of none = none
  dns_of (some m) = m.dns

  unfoldable pub get_dns_group : String → Memo (Option String)
  unfolding find
  get_dns_group host = and_then (find host) (λ m. ret (dns_of m))

  abbrev pub is_group : String → Option String → Bool
  is_group name none = false
  is_group name (some g) = test (String-discrete (py.casefold g) name)

  unfoldable pub is_writer_cluster_dns : String → Memo Bool
  unfolding get_dns_group
  is_writer_cluster_dns host = and_then (get_dns_group host) (λ g. ret (is_group "cluster-" g))

  unfoldable pub is_reader_cluster_dns : String → Memo Bool
  unfolding get_dns_group
  is_reader_cluster_dns host = and_then (get_dns_group host) (λ g. ret (is_group "cluster-ro-" g))

  unfoldable pub is_rds_cluster_dns : String → Memo Bool
  unfolding get_dns_group
  is_rds_cluster_dns host =
      and_then (get_dns_group host) (λ g. ret (is_group "cluster-" g || is_group "cluster-ro-" g))

  unfoldable pub is_rds_custom_cluster_dns : String → Memo Bool
  unfolding get_dns_group
  is_rds_custom_cluster_dns host =
      and_then (get_dns_group host) (λ g. ret (is_group "cluster-custom-" g))

  unfoldable pub is_rds_proxy_dns : String → Memo Bool
  unfolding get_dns_group
  is_rds_proxy_dns host = and_then (get_dns_group host) (λ g. ret (is_group "proxy-" g))

  unfoldable pub is_rds_dns : String → Memo Bool
  unfolding find
  is_rds_dns host = and_then (find host) (λ m. ret (is_some m))

  unfoldable pub is_rds_instance : String → Memo Bool
  unfolding get_dns_group is_rds_dns
  is_rds_instance host =
      and_then (get_dns_group host) (λ g. if is_some g then ret false else is_rds_dns host)

  unfoldable pub is_ipv4 : String → Bool
  is_ipv4 host = not (py.is_blank host) && is_some (py.search ip_v4 host)

  unfoldable pub is_ipv6 : String → Bool
  is_ipv6 host =
      not (py.is_blank host)
      && (is_some (py.search ip_v6_compressed host) || is_some (py.search ip_v6 host))

  -- `elif m: return t`
  abbrev pub choose : Memo Bool → RdsUrlType → Memo RdsUrlType → Memo RdsUrlType
  choose m t rest = and_then m (λ b. if b then ret t else rest)

  unfoldable pub identify_dns : String → Memo RdsUrlType
  unfolding is_writer_cluster_dns is_reader_cluster_dns is_rds_custom_cluster_dns is_rds_proxy_dns
      is_rds_instance
  identify_dns host = choose (is_writer_cluster_dns host) rds_writer_cluster (
      choose (is_reader_cluster_dns host) rds_reader_cluster (
        choose (is_rds_custom_cluster_dns host) rds_custom_cluster (
          choose (is_rds_proxy_dns host) rds_proxy
            (choose (is_rds_instance host) rds_instance (ret other)))))

  unfoldable pub identify_rds_type : Option String → Memo RdsUrlType
  unfolding identify_dns is_ipv4 is_ipv6
  identify_rds_type none = ret other
  identify_rds_type (some host) =
      if py.is_blank host
      then ret other
      else if is_ipv4 host || is_ipv6 host
      then ret ip_address
      else identify_dns host
