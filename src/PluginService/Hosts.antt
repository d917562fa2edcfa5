-- ===== src/PluginService/Hosts.antt =====
-- plugin_service.py: `PluginServiceImpl.hosts`, over allowed_and_blocked_hosts.py.
use aws_advanced_python_wrap.Prelude.{
  In-of_select, select_of_In, ◌≡◌, refl, ◌↔◌, Bool, true, false, not, Option, none, some, List, [],
  ◌∷◌, String, In, arith, select, some_inj, ap, subst,
}
use aws_advanced_python_wrap.Host.{HostInfo, mem}

pub record AllowedAndBlockedHosts : Type 0 where
  pub allowed_host_ids : Option (List String)
  pub blocked_host_ids : Option (List String)

none_if_empty : Option (List String) → Option (List String)
none_if_empty none = none
none_if_empty (some []) = none
none_if_empty (some (x ∷ xs)) = some (x ∷ xs)

-- `__init__`: an empty set of ids is no restriction.
unfoldable pub init : Option (List String) → Option (List String) → AllowedAndBlockedHosts
unfolding none_if_empty
init allowed blocked = record {
  allowed_host_ids = none_if_empty allowed;
  blocked_host_ids = none_if_empty blocked;
}

-- `host.host_id in ids`: a host without an id is in no set of ids.
unfoldable pub id_in : HostInfo → List String → Bool
id_in h ids = elim h.host_id [ none ↦ false | some i ↦ mem i ids ]

allow : Option (List String) → List HostInfo → List HostInfo
unfolding id_in
allow none hosts = hosts
allow (some ids) hosts = select (λ h. id_in h ids) hosts

block : Option (List String) → List HostInfo → List HostInfo
unfolding id_in
block none hosts = hosts
block (some ids) hosts = select (λ h. not (id_in h ids)) hosts

unfoldable pub hosts : Option AllowedAndBlockedHosts → List HostInfo → List HostInfo
unfolding allow block
hosts none all_hosts = all_hosts
hosts (some p) all_hosts = block p.blocked_host_ids (allow p.allowed_host_ids all_hosts)

-- What the permissions say of one host.
unfoldable pub Permits : Option AllowedAndBlockedHosts → HostInfo → Type 0
Permits none h = Unit
Permits (some p) h =
    ((ids : List String) → p.allowed_host_ids ≡ some ids → id_in h ids ≡ true)
    × ((ids : List String) → p.blocked_host_ids ≡ some ids → id_in h ids ≡ false)

not-true : (b : Bool) → not b ≡ true → b ≡ false
not-true b h = ground arith

In-allow :
    (o : Option (List String)) (h : HostInfo) (xs : List HostInfo)
    → In h (allow o xs) ↔ (In h xs × ((ids : List String) → o ≡ some ids → id_in h ids ≡ true))
unfolding allow
In-allow none h xs = (λ i. (i, λ ids e. cc), λ p. p.0)
In-allow (some ids) h xs = (
  λ i.
      let (j, k) = In-of_select _ h xs i in
      (j, λ ids' e. subst (λ (l : List String). id_in h l ≡ true) (some_inj e) k),
  λ p. select_of_In _ h xs p.0 (p.1 ids refl),
)

In-block :
    (o : Option (List String)) (h : HostInfo) (xs : List HostInfo)
    → In h (block o xs) ↔ (In h xs × ((ids : List String) → o ≡ some ids → id_in h ids ≡ false))
unfolding block
In-block none h xs = (λ i. (i, λ ids e. cc), λ p. p.0)
In-block (some ids) h xs = (
  λ i.
      let (j, k) = In-of_select _ h xs i in
      (
        j,
        λ ids' e.
            subst (λ (l : List String). id_in h l ≡ false) (some_inj e) (not-true (id_in h ids) k),
      ),
  λ p. select_of_In _ h xs p.0 (ap not (p.1 ids refl)),
)

-- An empty set of allowed ids allows every host.
pub hosts-init_empty :
    (h : HostInfo) (blocked : Option (List String)) (all_hosts : List HostInfo)
    → hosts (some (init (some []) blocked)) all_hosts ≡ hosts (some (init none blocked)) all_hosts
unfolding hosts init
hosts-init_empty h blocked all_hosts = refl

-- A host is offered exactly when it is in the topology and no permission speaks against it: its
-- id is among the allowed ids, if there are any, and not among the blocked ones.
pub In-hosts :
    (p : Option AllowedAndBlockedHosts) (h : HostInfo) (all_hosts : List HostInfo)
    → In h (hosts p all_hosts) ↔ (In h all_hosts × Permits p h)
unfolding hosts Permits
In-hosts none h all_hosts = (λ i. (i, tt), λ q. q.0)
In-hosts (some p) h all_hosts = (
  λ i.
      let (j, b) = (In-block p.blocked_host_ids h _).0 i in
      let (k, a) = (In-allow p.allowed_host_ids h all_hosts).0 j in (k, (a, b)),
  λ q.
      (In-block p.blocked_host_ids h _).1
        ((In-allow p.allowed_host_ids h all_hosts).1 (q.0, q.1.0), q.1.1),
)
