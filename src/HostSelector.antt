-- ===== src/HostSelector.antt =====
-- host_selector.py: `RoundRobinHostSelector.get_host` over the record of the cluster,
-- `RoundRobinClusterInfo`. The eligible hosts come sorted by name, and the record has been found in
-- the cache.
pub mod Rotation
mod Tests
use aws_advanced_python_wrap.Prelude.{
  ℕ, suc, ◌+◌, ◌-◌, Bool, true, false, not, ◌&&◌, Option, none, some, List, [], ◌∷◌, if◌then◌else◌,
  ltb, ◌==◌, String, String-discrete, test, length, get_elem?, select,
}
use aws_advanced_python_wrap.Dict.{Dict, get}
use aws_advanced_python_wrap.Errors.{Exc, aws_wrapper_error}
use aws_advanced_python_wrap.Exec.{Exec, ok, raised, throw}
use aws_advanced_python_wrap.Host.{HostInfo, get_availability}
use aws_advanced_python_wrap.Host.Role.{HostRole, role_eq, is_available}

pub record RoundRobinClusterInfo : Type 0 where
  pub last_host : Option HostInfo
  pub cluster_weights_dict : Dict String ℕ
  pub default_weight : ℕ
  pub weight_counter : ℕ

-- The hosts of the role that are available at the time `now`.
unfoldable pub eligible_hosts : HostRole → ℕ → List HostInfo → List HostInfo
unfolding get_availability
eligible_hosts role now hosts =
    select (λ h. role_eq h.role role && is_available (get_availability h now)) hosts

-- The loop that looks for the last host: the last index with its name.
unfoldable pub index_from : String → ℕ → Option ℕ → List HostInfo → Option ℕ
index_from name i found [] = found
index_from name i found (h ∷ hosts) =
    index_from name (suc i) (if test (String-discrete h.host name) then some i else found) hosts

unfoldable pub last_host_index : RoundRobinClusterInfo → List HostInfo → Option ℕ
unfolding index_from
last_host_index info hosts = elim info.last_host [
  | none ↦ none
  | some h ↦ index_from h.host 0 none hosts
]

unfoldable pub next_index : Option ℕ → List HostInfo → ℕ
next_index none hosts = 0
next_index (some i) hosts = if not (suc i == length hosts) then suc i else 0

unfoldable pub weight_of : RoundRobinClusterInfo → HostInfo → ℕ
weight_of info h = elim (get String-discrete h.host info.cluster_weights_dict) [
  | none ↦ info.default_weight
  | some weight ↦ weight
]

unfoldable pub answer : Option HostInfo → Exec RoundRobinClusterInfo Exc HostInfo
answer none info = throw aws_wrapper_error info
answer (some h) info =
    (ok h, record info { weight_counter = info.weight_counter - 1; last_host = some h })

unfoldable pub take_next : Option HostInfo → Exec RoundRobinClusterInfo Exc HostInfo
unfolding weight_of answer
take_next none info = throw aws_wrapper_error info
take_next (some h) info = answer (some h) (record info { weight_counter = weight_of info h })

unfoldable pub serve : Option ℕ → List HostInfo → Exec RoundRobinClusterInfo Exc HostInfo
unfolding next_index take_next answer
serve none hosts info = take_next (get_elem? hosts (next_index none hosts)) info
serve (some i) hosts info =
    if ltb 0 info.weight_counter
    then answer (get_elem? hosts i) info
    else take_next (get_elem? hosts (next_index (some i) hosts)) info

-- `get_host` for eligible hosts in the order of their names.
unfoldable pub get_host : List HostInfo → Exec RoundRobinClusterInfo Exc HostInfo
unfolding last_host_index serve
get_host [] info = throw aws_wrapper_error info
get_host (h ∷ hosts) info = serve (last_host_index info (h ∷ hosts)) (h ∷ hosts) info
