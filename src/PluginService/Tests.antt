-- ===== src/PluginService/Tests.antt =====
-- Runs of the plugin service at concrete hosts.
use aws_advanced_python_wrap.Prelude.{
  ◌≡◌, refl, ◌⊎◌, ◌↔◌, ◌≢◌, none, some, [], ◌∷◌, In, String, String-discrete,
}
use aws_advanced_python_wrap.Dict
use aws_advanced_python_wrap.Host
use aws_advanced_python_wrap.Host.{HostInfo, url, get_availability}
use aws_advanced_python_wrap.Host.Role.{reader, writer, unknown, available}
use aws_advanced_python_wrap.PluginService.Hosts.{AllowedAndBlockedHosts, hosts, Permits, In-hosts}
use aws_advanced_python_wrap.PluginService.Topology.{
  host_deleted, converted_to_writer, host_changed, Changes, changes, compare, update_hosts,
}
use aws_advanced_python_wrap.PluginService.Topology.Changes.{
  find, UniqueUrls, reported, get-changes, compare-nil_iff, update_hosts-cases,
}

program : Unit {0}
unfolding update_hosts changes compare Host.init Host.address url get_availability String-discrete
program = tt

abbrev one : HostInfo
one = record {
  host = "db-1";
  port = none;
  role = reader;
  raw_availability = available;
  backoff = none;
  host_id = some "1";
  last_update_time = none;
  aliases = [];
  all_aliases = "db-1" ∷ [];
}

abbrev two : HostInfo
two = record one { host = "db-2"; role = writer; host_id = some "2"; all_aliases = "db-2" ∷ [] }

abbrev promoted : HostInfo
promoted = record one { role = writer }

abbrev only_one : AllowedAndBlockedHosts
only_one = record { allowed_host_ids = some ("1" ∷ []); blocked_host_ids = none }

In-hosts_example :
    In one (hosts (some only_one) (one ∷ two ∷ []))
    ↔ (In one (one ∷ two ∷ []) × Permits (some only_one) one)
In-hosts_example = In-hosts (some only_one) one (one ∷ two ∷ [])

-- The reader is promoted and the old writer is gone.
changed :
    changes 0 (one ∷ two ∷ []) (promoted ∷ [])
    ≡ ("db-1", converted_to_writer ∷ host_changed ∷ []) ∷ ("db-2", host_deleted ∷ []) ∷ []
unfolding program
changed = refl

old_UniqueUrls : UniqueUrls (one ∷ two ∷ [])
unfolding program
old_UniqueUrls = (refl, (refl, tt))

new_UniqueUrls : UniqueUrls (promoted ∷ [])
new_UniqueUrls = (refl, tt)

get-changes_example :
    Dict.get String-discrete "db-2" (changes 0 (one ∷ two ∷ []) (promoted ∷ []))
    ≡ reported 0 (find "db-2" (one ∷ two ∷ [])) (find "db-2" (promoted ∷ []))
get-changes_example =
    get-changes "db-2" 0 (one ∷ two ∷ []) (promoted ∷ []) old_UniqueUrls new_UniqueUrls

compare-nil_iff_example : (compare 0 one one ≡ []) ↔ (
    (one.host ≡ one.host)
    × (one.port ≡ one.port)
    × ((one.role ≡ one.role) ⊎ (one.role ≡ unknown))
    × (get_availability one 0 ≡ get_availability one 0))
compare-nil_iff_example = compare-nil_iff 0 one one

update_hosts-cases_example :
    ((update_hosts 0 (one ∷ two ∷ []) (promoted ∷ []) ≡ (one ∷ two ∷ [], none))
      × ((u : String) → reported 0 (find u (one ∷ two ∷ [])) (find u (promoted ∷ [])) ≡ none))
    ⊎ ((ch : Changes) × (update_hosts 0 (one ∷ two ∷ []) (promoted ∷ []) ≡ (promoted ∷ [], some ch))
        × ((u : String)
            → Dict.get String-discrete u ch
              ≡ reported 0 (find u (one ∷ two ∷ [])) (find u (promoted ∷ [])))
        × (ch ≢ []))
update_hosts-cases_example =
    update_hosts-cases 0 (one ∷ two ∷ []) (promoted ∷ []) old_UniqueUrls new_UniqueUrls
