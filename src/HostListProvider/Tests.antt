-- ===== src/HostListProvider/Tests.antt =====
-- Topologies made of concrete rows.
use aws_advanced_python_wrap.Prelude.{
  ℕ, ◌≡◌, ◌↔◌, In, refl, arith, String, true, false, none, some, List, [], ◌∷◌, map,
  String-discrete,
}
use aws_advanced_python_wrap.Host.{HostInfo}
use aws_advanced_python_wrap.HostListProvider.{
  Row, Template, create_host, host_map, process_hosts, process_query_results, process_multi_az,
}
use aws_advanced_python_wrap.Cache.Map
use aws_advanced_python_wrap.Cache.Map.{CacheMap, Sweep}
use aws_advanced_python_wrap.Dict.{values}
use aws_advanced_python_wrap.Errors.{Exc, type_error}
use aws_advanced_python_wrap.Exec.{Result, ok, raised}
use aws_advanced_python_wrap.HostListProvider.Caches.{
  Caches, Provider, Readings, Outside, get_topology, adopt_suggested,
}
use aws_advanced_python_wrap.HostListProvider.Caches.Shared.{get_topology-shared}
use aws_advanced_python_wrap.HostListProvider.Found.{Last, In-host_map}

abbrev template : Template
template = record {
  host_pattern = "?.xyz.rds";
  template_port = some 5432;
  initial_port = none;
  strategy = none;
}

abbrev rows : List Row
rows =
    record { id = some "w1"; is_writer_row = true; last_update = some 5 }
    ∷ record { id = some "r1"; is_writer_row = false; last_update = some 6 }
    ∷ record { id = some "w2"; is_writer_row = true; last_update = some 9 }
    ∷ []

abbrev host_names : Result Exc (List HostInfo) → Result Exc (List String)
host_names (ok hosts) = ok (map (λ (h : HostInfo). h.host) hosts)
host_names (raised e) = raised e

latest_writer :
    host_names (process_query_results template 0 rows) ≡ ok ("r1.xyz.rds" ∷ "w2.xyz.rds" ∷ [])
unfolding process_query_results String-discrete
latest_writer = refl

abbrev created : List HostInfo
created = map (create_host template 0) rows

abbrev early : HostInfo
early =
    create_host template 0 (record { id = some "w1"; is_writer_row = true; last_update = some 1 })

-- Of two rows with one address the later one counts.
later_row : values (host_map [] (early ∷ created)) ≡ values (host_map [] created)
unfolding host_map create_host String-discrete
later_row = refl

In-host_map_example :
    In early (values (host_map [] (early ∷ created))) ↔ Last early (early ∷ created)
In-host_map_example = In-host_map early (early ∷ created)

abbrev untimed : HostInfo
untimed =
    record (create_host template 0
      (record { id = some "w0"; is_writer_row = true; last_update = none })) {
        last_update_time = none;
      }

-- A writer without a time, beside one that has a time.
mixed_writers : process_hosts (untimed ∷ created) ≡ raised type_error
unfolding process_hosts create_host String-discrete
mixed_writers = refl

first_of_writers :
    map (λ (h : HostInfo). h.host) (process_multi_az created) ≡ "r1.xyz.rds" ∷ "w1.xyz.rds" ∷ []
unfolding process_multi_az create_host String-discrete
first_of_writers = refl

abbrev sweep : Sweep String
sweep = record { check = 20; next = 20; scan = λ k. 20 }

abbrev readings : Readings
readings = record {
  id_at = 20;
  cached_at = 20;
  put_at = 20;
  put_sweep = sweep;
  primary_at = λ k. 20;
  primary_later = λ k. 20;
  suggested_at = λ k. 20;
  suggest_at = λ k. 20;
  suggest_sweep = λ k. sweep;
}

abbrev no_caches : Caches
no_caches = record {
  topology_cache = Map.init 0;
  is_primary_cluster_id_cache = Map.init 0;
  cluster_ids_to_update = Map.init 0;
}

-- The world counts the queries.
abbrev provider : Caches → ℕ → Provider ℕ
provider c n = record {
  cluster_id = "cluster";
  is_primary_cluster_id = false;
  hosts = [];
  initial_hosts = [];
  refresh_rate_ns = 30;
  caches = c;
  world = n;
}

abbrev outside : HostInfo → Outside ℕ
outside h = record {
  current_connection = λ w. none;
  query_for_topology = λ c w. (ok (some (h ∷ [])), 1);
  query_host_id = λ c w. (ok none, w);
  is_timeout = λ e. false;
}

abbrev queried_host : HostInfo
queried_host =
    create_host template 0 (record { id = some "w1"; is_writer_row = true; last_update = some 5 })

abbrev client : Provider ℕ
client = provider no_caches 0

abbrev other_client : Provider ℕ
other_client =
    provider (get_topology (outside queried_host) readings (some 1) true client).1.caches 7

client-id : (adopt_suggested (outside queried_host) 20 client).cluster_id ≡ "cluster"
unfolding adopt_suggested Map.get Map.init Map.after_get
client-id = refl

other_client-unsuggested :
    (Map.get String-discrete "cluster" 20 other_client.caches.cluster_ids_to_update).1 ≡ none
unfolding get_topology adopt_suggested Map.get Map.init Map.after_get Map.put
other_client-unsuggested = refl

get_topology-shared_example :
    ((get_topology (outside queried_host) readings none false other_client).0
      ≡ ok (record { fetched = queried_host ∷ []; is_cached_data = true }))
    × ((get_topology (outside queried_host) readings none false other_client).1.world ≡ 7)
unfolding Map.init
get_topology-shared_example =
    get_topology-shared (outside queried_host) readings readings 1 none queried_host [] client
      other_client 1 "cluster" tt refl client-id refl refl other_client-unsuggested (omega arith)
      (omega arith)
