-- ===== src/WriterFailover/Tests.antt =====
-- Runs of the writer failover handler at concrete inputs.
use aws_advanced_python_wrap.Prelude.{
  ℕ, String, String-discrete, ◌-◌, ◌≡◌, true, none, some, is_some, [], ◌∷◌, ◌==◌, arith,
}
use aws_advanced_python_wrap.Exec.{ok}
use aws_advanced_python_wrap.Host.{HostInfo}
use aws_advanced_python_wrap.Host.Role.{HostRole, writer, reader, available}
use aws_advanced_python_wrap.WriterFailover.{Service, is_same, get_writer}
use aws_advanced_python_wrap.WriterFailover.Reconnect.{reconnect_to_writer}
use aws_advanced_python_wrap.WriterFailover.Reconnect.Connected.{Sound, reconnect_to_writer-Sound}
use aws_advanced_python_wrap.WriterFailover.Reconnect.Ended.{Timed, reconnect_to_writer-ends}
use aws_advanced_python_wrap.WriterFailover.NewWriter.{State, wait_for_new_writer}
use aws_advanced_python_wrap.WriterFailover.NewWriter.Answer.{wait_for_new_writer-Answered}
use aws_advanced_python_wrap.WriterFailover.NewWriter.Found.{Found}

abbrev node : HostRole → HostInfo
node r = record {
  host = "db";
  port = none;
  role = r;
  raw_availability = available;
  backoff = none;
  host_id = none;
  last_update_time = none;
  aliases = [];
  all_aliases = "db" ∷ [];
}

-- The world is the time left until the event is set.
abbrev service : Service ℕ
service = record {
  force_connect = λ h w. (ok 7, w);
  force_refresh_host_list = λ c w. (ok tt, w);
  all_hosts = λ w. node writer ∷ node reader ∷ [];
  close = λ c w. (ok tt, w);
  is_network_exception = λ e. true;
  set_availability = λ a b w. w;
  get_reader_connection = λ hosts w. (
    ok (record {
      connection = some 8;
      is_connected = true;
      new_host = some (node reader);
      exception = none;
    }),
    w,
  );
  is_set = λ w. w == 0;
  set_event = λ w. 0;
  sleep = λ n w. w - 1;
  reconnect_writer_interval_sec = 5;
  read_topology_interval_sec = 5;
}

reconnect_to_writer-Sound_example :
    Sound service (node writer) (reconnect_to_writer service (node writer) 1 3).0
reconnect_to_writer-Sound_example = reconnect_to_writer-Sound service (node writer) 1 3

service-Timed : Timed service (λ w. w)
service-Timed = record {
  at_end = λ w e. ground arith;
  sleep = λ w. omega arith;
  force_connect = λ h w. omega arith;
  force_refresh_host_list = λ c w. omega arith;
  close = λ c w. omega arith;
}

reconnect_to_writer-ends_example : is_some (reconnect_to_writer service (node writer) 4 3).0 ≡ true
reconnect_to_writer-ends_example =
    reconnect_to_writer-ends service (node writer) (λ w. w) service-Timed 3

abbrev handler : State ℕ
handler = record {
  current_connection = none;
  current_topology = [];
  current_reader_connection = none;
  current_reader_host = none;
  world = 1;
}

-- The cluster after its writer changed, with the old writer as a reader.
abbrev host_of : String → HostRole → HostInfo
host_of name r = record (node r) { host = name; all_aliases = name ∷ [] }

abbrev changed : Service ℕ
changed = record service {
  all_hosts = λ w. host_of "db-2" writer ∷ host_of "db-1" reader ∷ [];
  get_reader_connection = λ hosts w. (
    ok (record {
      connection = some 8;
      is_connected = true;
      new_host = some (host_of "db-1" reader);
      exception = none;
    }),
    w,
  );
}

-- Where the loop ends: over connection 7 to the new writer, with the event not set.
abbrev found : State ℕ
found = record {
  current_connection = some 7;
  current_topology = host_of "db-2" writer ∷ host_of "db-1" reader ∷ [];
  current_reader_connection = some 8;
  current_reader_host = some (host_of "db-1" reader);
  world = 1;
}

wait_for_new_writer-Answered_example :
    ((wait_for_new_writer changed 5 (host_of "db-1" writer ∷ []) (host_of "db-1" writer) handler).0
      ≡ some (record {
        is_connected = true;
        topology = some found.current_topology;
        new_connection = some 7;
        exception = none;
      }))
    × Found changed (host_of "db-1" writer) found
unfolding wait_for_new_writer is_same get_writer String-discrete
wait_for_new_writer-Answered_example =
    wait_for_new_writer-Answered changed (host_of "db-1" writer) 5 (host_of "db-1" writer ∷ [])
      handler
