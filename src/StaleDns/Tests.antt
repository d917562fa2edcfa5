-- ===== src/StaleDns/Tests.antt =====
-- Runs of the stale DNS plugin at concrete inputs.
use aws_advanced_python_wrap.Prelude.{
  ℕ, true, false, Option, none, some, [], ◌∷◌, String-discrete, test, if◌then◌else◌,
}
use aws_advanced_python_wrap.Exec.{ok, pure}
use aws_advanced_python_wrap.Exec.Endings.{Ends}
use aws_advanced_python_wrap.Host.{HostInfo}
use aws_advanced_python_wrap.Host.Role.{reader, writer, available}
use aws_advanced_python_wrap.StaleDns.{State, Outside, Act, get_verified_connection}
use aws_advanced_python_wrap.StaleDns.Verified.{Answered, get_verified_connection-Answered}

abbrev node : HostInfo
node = record {
  host = "w1";
  port = none;
  role = writer;
  raw_availability = available;
  backoff = none;
  host_id = none;
  last_update_time = none;
  aliases = [];
  all_aliases = "w1" ∷ [];
}

-- The world is the connection that was closed.
abbrev outside : Outside (Option ℕ)
outside = record {
  is_writer_cluster_dns = λ h. true;
  is_rds_cluster_dns = λ h. false;
  gethostbyname = λ h w. some (if test (String-discrete h "w1") then "10.0.0.1" else "10.0.0.2");
  get_host_role = λ c. pure reader;
  force_refresh_host_list = λ c. pure tt;
  refresh_host_list = λ c. pure tt;
  all_hosts = λ w. node ∷ [];
  hosts = λ w. node ∷ [];
  connect = λ h. pure 2;
  close = λ c s. (ok tt, record s { world = some c });
  set_initial_connection_host_info = λ h w. w;
}

abbrev helper : State (Option ℕ)
helper = record { writer_host_info = none; writer_host_address = none; world = none }

abbrev connect_func : Act (Option ℕ) ℕ
connect_func = pure 1

get_verified_connection-Answered_example :
    Ends
      (λ c t. Answered outside "db.cluster-xyz" connect_func c)
      (λ e t. Unit {0})
      (get_verified_connection outside true "db.cluster-xyz" connect_func helper)
get_verified_connection-Answered_example =
    get_verified_connection-Answered outside true "db.cluster-xyz" connect_func helper
