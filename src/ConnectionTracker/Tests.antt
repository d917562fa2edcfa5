-- ===== src/ConnectionTracker/Tests.antt =====
-- Runs of the connection tracker at concrete inputs.
use aws_advanced_python_wrap.Prelude.{
  refl, Bool, none, some, [], ◌∷◌, String, String-discrete, test, In,
}
use aws_advanced_python_wrap.Host.{HostInfo, as_alias}
use aws_advanced_python_wrap.Host.Role.{writer, available}
use aws_advanced_python_wrap.ConnectionTracker.{
  Tracker, populate_opened_connection_set, invalidate_all_connections,
}
use aws_advanced_python_wrap.ConnectionTracker.Closed.{
  TrackedUnder, populate_all, invalidate-populate,
}

abbrev node : HostInfo
node = record {
  host = "w1";
  port = none;
  role = writer;
  raw_availability = available;
  backoff = none;
  host_id = none;
  last_update_time = none;
  aliases = [];
  all_aliases = "db.cluster-xyz" ∷ "w1" ∷ [];
}

abbrev is_instance : String → Bool
is_instance host = test (String-discrete host "w1")

abbrev tracker : Tracker
tracker = record { opened_connections = []; closed = [] }

node-TrackedUnder : TrackedUnder is_instance is_instance node "w1"
unfolding as_alias String-discrete
node-TrackedUnder = (refl, λ e. refl)

invalidate-populate_example :
    In 5
      (invalidate_all_connections is_instance is_instance (some node) (
        populate_all is_instance is_instance
          ((node, 6) ∷ [])
          (populate_opened_connection_set is_instance is_instance node 5 tracker))).closed
invalidate-populate_example =
    invalidate-populate is_instance is_instance node "w1" 5 ((node, 6) ∷ []) tracker
      node-TrackedUnder
