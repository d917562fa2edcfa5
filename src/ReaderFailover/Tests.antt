-- ===== src/ReaderFailover/Tests.antt =====
-- Runs of the reader failover handler at concrete inputs.
use aws_advanced_python_wrap.Prelude.{
  ℕ, All, In, ◌⊎◌, inl, inr, ◌↔◌, ◌≡◌, refl, ◌≢◌, true, false, none, some, List, [], ◌∷◌, map,
}
use aws_advanced_python_wrap.Errors.{Exc}
use aws_advanced_python_wrap.Exec.{Result, ok}
use aws_advanced_python_wrap.Host.{HostInfo}
use aws_advanced_python_wrap.Host.Role.{is_writer, HostRole, writer, reader, available}
use aws_advanced_python_wrap.ReaderFailover.{
  Service, State, failed_reader_failover_result, writer_from, get_reader_connection,
  get_hosts_by_priority, internal_failover_task, failover,
}
use aws_advanced_python_wrap.ReaderFailover.Priority.{
  IsShuffle, In-get_hosts_by_priority, In-get_hosts_by_priority_strict,
}
use aws_advanced_python_wrap.ReaderFailover.Connected.{IsRace, get_reader_connection-reader}
use aws_advanced_python_wrap.ReaderFailover.Event.{internal_failover_task-fuel, failover-failover}

program : Unit {0}
unfolding failover
program = tt

abbrev node : HostRole → HostInfo
node r = record {
  host = "db";
  port = none;
  role = r;
  raw_availability = available;
  backoff = none;
  host_id = none;
  last_update_time = none;
  aliases = [];
  all_aliases = [];
}

abbrev connected : HostInfo → HostInfo × Result Exc ℕ
connected h = (h, ok 5)

-- Every attempt connects, as connection 5.
abbrev service : Service (Unit {0})
service = record {
  race = λ hosts w. (map connected hosts, w);
  all_hosts = λ w. node writer ∷ node reader ∷ [];
  force_refresh_host_list = λ c w. (ok tt, w);
  close = λ c w. (ok tt, w);
  is_network_exception = λ e. true;
  shuffle = λ hosts. hosts;
}

abbrev fresh : State (Unit {0})
fresh = record { timeout_event = false; world = tt }

abbrev topology : List HostInfo
topology = node writer ∷ node reader ∷ []

failover-first : (failover service 1 false false topology fresh).0 ≡ record {
  connection = some 5;
  is_connected = true;
  new_host = some (node reader);
  exception = none;
}
unfolding program
failover-first = refl

some_hosts : get_hosts_by_priority service topology false ≢ []
unfolding program
some_hosts e = cc

internal_failover_task-fuel_example :
    internal_failover_task service 4 false topology fresh
    ≡ internal_failover_task service 1 false topology fresh
internal_failover_task-fuel_example =
    internal_failover_task-fuel service 3 false topology fresh some_hosts

failover-failover_example :
    failover service 1 false false topology (failover service 1 false false topology fresh).1
    ≡ (failed_reader_failover_result, (failover service 1 false false topology fresh).1)
failover-failover_example =
    failover-failover service 0 1 false false false (node writer) (node reader ∷ []) topology fresh
      some_hosts

service-IsShuffle : IsShuffle service
service-IsShuffle = record { members = λ h hosts. (λ i. i, λ i. i) }

In-get_hosts_by_priority_example :
    In (node writer) (get_hosts_by_priority service topology false) ↔ (
      (In (node writer) topology × (is_writer writer ≡ false))
      ⊎ (writer_from none topology ≡ some (node writer)))
In-get_hosts_by_priority_example =
    In-get_hosts_by_priority service service-IsShuffle (node writer) topology

In-get_hosts_by_priority_strict_example :
    In (node writer) (get_hosts_by_priority service topology true)
    ↔ (In (node writer) topology × (is_writer writer ≡ false))
In-get_hosts_by_priority_strict_example =
    In-get_hosts_by_priority_strict service service-IsShuffle (node writer) (node reader) topology
      (inr (inl refl)) refl

own-connected :
    (batch hosts : List HostInfo)
    → ((h : HostInfo) → In h hosts → In h batch)
    → All (λ a. In a.0 batch) (map connected hosts)
own-connected batch [] sub = tt
own-connected batch (h ∷ hosts) sub =
    (sub h (inl refl), own-connected batch hosts (λ g i. sub g (inr i)))

service-IsRace : IsRace service
service-IsRace = record { own = λ batch w. own-connected batch batch (λ h i. i) }

get_reader_connection-reader_example :
    (h : HostInfo) × ((get_reader_connection service topology fresh).0.new_host ≡ some h)
    × In h topology
    × (is_writer h.role ≡ false)
unfolding get_reader_connection
get_reader_connection-reader_example =
    get_reader_connection-reader service service-IsRace service-IsShuffle topology fresh refl
