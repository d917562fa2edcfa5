-- ===== src/PluginService/Topology.antt =====
-- plugin_service.py: `refresh_host_list`, `_update_host_availability`, `_update_hosts`, `_compare`.
-- `now` is the one time at which a call reads the availability of hosts.
pub mod Changes
use aws_advanced_python_wrap.Prelude.{
  ℕ, Bool, true, false, not, ◌&&◌, ◌||◌, Option, none, some, List, [], ◌∷◌, ◌++◌, String,
  String-discrete, test, is_some, if◌then◌else◌,
}
use aws_advanced_python_wrap.Dict.{Dict}
use aws_advanced_python_wrap.Dict
use aws_advanced_python_wrap.Cache.Map
use aws_advanced_python_wrap.Cache.Map.{CacheMap}
use aws_advanced_python_wrap.Host
use aws_advanced_python_wrap.Host.{HostInfo, port_eq, url, get_availability}
use aws_advanced_python_wrap.Host.Role.{
  HostRole, HostAvailability, reader, writer, unknown, role_eq, availability_eq, is_available,
}

-- utils/notifications.py
pub data HostEvent : Type 0 where
  url_changed converted_to_writer converted_to_reader went_up went_down : HostEvent
  host_added host_deleted host_changed : HostEvent

abbrev pub Changes : Type 0
Changes = Dict String (List HostEvent)

url_events : HostInfo → HostInfo → List HostEvent
unfolding port_eq
url_events a b =
    if not (test (String-discrete a.host b.host)) || not (port_eq a.port b.port)
    then url_changed ∷ []
    else []

converted : HostRole → List HostEvent
converted writer = converted_to_writer ∷ []
converted reader = converted_to_reader ∷ []
converted unknown = []

role_events : HostRole → HostRole → List HostEvent
unfolding converted
role_events a b = if role_eq a b then [] else converted b

availability_events : HostAvailability → HostAvailability → List HostEvent
availability_events a b =
    if availability_eq a b then [] else if is_available b then went_up ∷ [] else went_down ∷ []

mark_changed : List HostEvent → List HostEvent
mark_changed [] = []
mark_changed (e ∷ es) = (e ∷ es) ++ host_changed ∷ []

unfoldable pub compare : ℕ → HostInfo → HostInfo → List HostEvent
unfolding url_events role_events availability_events mark_changed
compare now a b = mark_changed (
    url_events a b
    ++ (role_events a.role b.role
        ++ availability_events (get_availability a now) (get_availability b now)))

-- `{x.url: x for x in hosts}`
unfoldable pub dict_from : Dict String HostInfo → List HostInfo → Dict String HostInfo
dict_from d [] = d
dict_from d (h ∷ hs) = dict_from (Dict.put String-discrete (url h) h d) hs

-- A host without events gets no entry.
unfoldable pub record_events : String → List HostEvent → Changes → Changes
record_events u [] ch = ch
record_events u (e ∷ es) ch = Dict.put String-discrete u (e ∷ es) ch

unfoldable pub host_events : ℕ → HostInfo → Option HostInfo → List HostEvent
host_events now h none = host_deleted ∷ []
host_events now h (some new) = compare now h new

-- The loop over the old hosts.
unfoldable pub changed_hosts : ℕ → Dict String HostInfo → List HostInfo → Changes → Changes
changed_hosts now new [] ch = ch
changed_hosts now new (h ∷ hs) ch =
    changed_hosts now new hs
      (record_events (url h) (host_events now h (Dict.get String-discrete (url h) new)) ch)

-- The loop over the new hosts.
unfoldable pub added_hosts : Dict String HostInfo → Dict String HostInfo → Changes → Changes
added_hosts old [] ch = ch
added_hosts old ((u, h) ∷ new) ch = added_hosts old new (
    if is_some (Dict.get String-discrete u old)
    then ch
    else Dict.put String-discrete u (host_added ∷ []) ch)

unfoldable pub changes : ℕ → List HostInfo → List HostInfo → Changes
unfolding dict_from changed_hosts added_hosts record_events host_events
changes now old new =
    added_hosts (dict_from [] old) (dict_from [] new) (changed_hosts now (dict_from [] new) old [])

notify : Changes → List HostInfo → List HostInfo → List HostInfo × Option Changes
notify [] old new = (old, none)
notify (e ∷ ch) old new = (new, some (e ∷ ch))

-- `_update_hosts`: the hosts that are kept, and the changes that the plugins are notified of.
unfoldable pub update_hosts : ℕ → List HostInfo → List HostInfo → List HostInfo × Option Changes
unfolding changes notify
update_hosts now old new = notify (changes now old new) old new
