-- ===== src/InitialConnection/Tests.antt =====
-- Runs of the initial connection plugin at concrete inputs.
use aws_advanced_python_wrap.Prelude.{ℕ, ◌+◌, true, false, none, [], ◌∷◌}
use aws_advanced_python_wrap.Exec.{pure}
use aws_advanced_python_wrap.Exec.Endings.{Ends}
use aws_advanced_python_wrap.Host.{HostInfo}
use aws_advanced_python_wrap.Host.Role.{writer, available}
use aws_advanced_python_wrap.RdsUtils.{rds_writer_cluster}
use aws_advanced_python_wrap.InitialConnection.{Service, get_verified_writer_connection}
use aws_advanced_python_wrap.InitialConnection.Verified.{
  Answers, get_verified_writer_connection-Answers,
}

abbrev node : HostInfo
node = record {
  host = "w1";
  port = none;
  role = writer;
  raw_availability = available;
  backoff = none;
  host_id = none;
  last_update_time = none;
  aliases = [];
  all_aliases = "w1" ∷ [];
}

-- The world is the clock.
abbrev service : Service ℕ
service = record {
  identify_rds_type = λ h. rds_writer_cluster;
  is_rds_cluster_dns = λ h. false;
  perf_counter_ns = λ w. w;
  retry_interval_ms = 1;
  all_hosts = λ w. node ∷ [];
  connect = λ h. pure 2;
  get_host_role = λ c. pure writer;
  force_refresh_host_list = λ c. pure tt;
  identify_connection = λ c. pure none;
  close = λ c. pure tt;
  delay = λ n w. w + n;
  has_host_list_provider_service = true;
  set_initial_connection_host_info = λ o w. w;
}

get_verified_writer_connection-Answers_example :
    Ends
      (λ o z. Answers service true (pure 1) o)
      (λ e z. Unit {0})
      (get_verified_writer_connection service true (pure 1) 3 5)
get_verified_writer_connection-Answers_example =
    get_verified_writer_connection-Answers service true (pure 1) 3 5
