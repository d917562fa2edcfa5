-- ===== src/ReaderFailover.antt =====
-- reader_failover_handler.py: `ReaderFailoverHandlerImpl`. Up to two attempts run at a time, in
-- threads; `race` stands for the threads and the plugin service: it gives the outcomes of the
-- attempts in the order in which they finish before the timeout. `shuffle` is Python's. Marking the
-- availability of a host is left out, since `PluginServiceImpl.set_availability` does nothing.
pub mod Event
pub mod Priority
pub mod Connected
mod Tests
use aws_advanced_python_wrap.Prelude.{
  ℕ, zero, suc, ◌+◌, Bool, true, false, not, ◌&&◌, ◌||◌, Option, none, some, List, [], ◌∷◌, ◌++◌,
  if◌then◌else◌, ◌==◌, String-discrete, test, is_some, length, select, first,
}
use aws_advanced_python_wrap.Errors.{Exc}
use aws_advanced_python_wrap.Exec.{Result, ok, raised}
use aws_advanced_python_wrap.Host.{HostInfo, url}
use aws_advanced_python_wrap.Host.Role.{is_writer, is_reader, is_available}
use aws_advanced_python_wrap.Failover.{ReaderFailoverResult}

-- What a pass of the loop of `_internal_failover_task` decides: to return, or to go on with a
-- topology.
pub data Pass : Type 0 where
  finished : ReaderFailoverResult → Pass
  again : List HostInfo → Pass

pub record Service (W : Type 0) : Type 0 where
  pub race : List HostInfo → W → List (HostInfo × Result Exc ℕ) × W
  pub all_hosts : W → List HostInfo
  pub force_refresh_host_list : Option ℕ → W → Result Exc (Unit {0}) × W
  pub close : ℕ → W → Result Exc (Unit {0}) × W
  pub is_network_exception : Exc → Bool
  pub shuffle : List HostInfo → List HostInfo

-- `_timeout_event` of the handler, and the world outside.
pub record State (W : Type 0) : Type 0 where
  pub timeout_event : Bool
  pub world : W

abbrev pub failed_reader_failover_result : ReaderFailoverResult
failed_reader_failover_result = record {
  connection = none;
  is_connected = false;
  new_host = none;
  exception = none;
}

abbrev pub is_final : ReaderFailoverResult → Bool
is_final r = r.is_connected || is_some r.exception

abbrev pub active_readers : List HostInfo → List HostInfo
active_readers = select (λ h. not (is_writer h.role) && is_available h.raw_availability)

abbrev pub down_hosts : List HostInfo → List HostInfo
down_hosts = select (λ h. not (is_writer h.role) && not (is_available h.raw_availability))

-- The last writer.
abbrev pub writer_from : Option HostInfo → List HostInfo → Option HostInfo
writer_from found [] = found
writer_from found (h ∷ hosts) = writer_from (if is_writer h.role then some h else found) hosts

abbrev pub listed : Bool → Option HostInfo → List HostInfo
listed use_writer none = []
listed use_writer (some w) = if use_writer then w ∷ [] else []

module _ {W : Type 0} (v : Service W) where
  unfoldable pub get_hosts_by_priority : List HostInfo → Bool → List HostInfo
  get_hosts_by_priority hosts readers_only =
      let active = v.shuffle (active_readers hosts) in
      let down = v.shuffle (down_hosts hosts) in
      active
      ++ (listed (not readers_only || length active + length down == 0) (writer_from none hosts)
          ++ down)

  unfoldable pub get_reader_hosts_by_priority : List HostInfo → List HostInfo
  get_reader_hosts_by_priority hosts =
      v.shuffle (active_readers hosts) ++ v.shuffle (down_hosts hosts)

  -- `attempt_connection`, from what connecting gave.
  unfoldable pub attempt_connection : HostInfo × Result Exc ℕ → ReaderFailoverResult
  attempt_connection (h, ok conn) = record {
    connection = some conn;
    is_connected = true;
    new_host = some h;
    exception = none;
  }
  attempt_connection (h, raised e) =
      if not (v.is_network_exception e)
      then record { connection = none; is_connected = false; new_host = none; exception = some e }
      else failed_reader_failover_result

  -- The loop over the finished attempts of a batch.
  unfoldable pub first_final : List (HostInfo × Result Exc ℕ) → ReaderFailoverResult
  unfolding attempt_connection
  first_final [] = failed_reader_failover_result
  first_final (a ∷ attempts) =
      let r = attempt_connection a in
      let rest = first_final attempts in if is_final r then r else rest

  -- `_get_result_from_next_task_batch`
  unfoldable pub run_batch : List HostInfo → State W → ReaderFailoverResult × State W
  unfolding first_final
  run_batch batch s =
      let (attempts, w) = v.race batch s.world in
      (first_final attempts, record { timeout_event = true; world = w })

  -- `_get_connection_from_host_group`
  unfoldable pub get_connection_from_host_group :
      List HostInfo → State W → ReaderFailoverResult × State W
  unfolding run_batch
  get_connection_from_host_group [] s = (failed_reader_failover_result, s)
  get_connection_from_host_group (h ∷ []) s =
      let r = run_batch (h ∷ []) s in
      if is_final r.0 then r else (failed_reader_failover_result, r.1)
  get_connection_from_host_group (h ∷ g ∷ hosts) s =
      let r = run_batch (h ∷ g ∷ []) s in
      let rest = get_connection_from_host_group hosts r.1 in if is_final r.0 then r else rest

  unfoldable pub get_reader_connection : List HostInfo → State W → ReaderFailoverResult × State W
  unfolding get_reader_hosts_by_priority get_connection_from_host_group
  get_reader_connection [] s = (failed_reader_failover_result, s)
  get_reader_connection (h ∷ hosts) s =
      get_connection_from_host_group (get_reader_hosts_by_priority (h ∷ hosts)) s

  abbrev pub failed_with : Exc → ReaderFailoverResult
  failed_with e = record {
    connection = none;
    is_connected = false;
    new_host = none;
    exception = some e;
  }

  abbrev is_listed_reader : Option HostInfo → List HostInfo → Bool
  is_listed_reader none hosts = false
  is_listed_reader (some n) hosts =
      is_some (first (λ h. test (String-discrete (url h) (url n)) && is_reader h.role) hosts)

  abbrev after_close : List HostInfo → Result Exc (Unit {0}) × W → Pass × W
  after_close topology (ok tt, w) = (again topology, w)
  after_close topology (raised e, w) = (finished (failed_with e), w)

  -- A connection that is not to a reader is given up.
  unfoldable pub give_up : Option ℕ → List HostInfo → W → Pass × W
  give_up none topology w = (again topology, w)
  give_up (some conn) topology w = after_close topology (v.close conn w)

  abbrev refreshed_topology : Option HostInfo → List HostInfo → W → List HostInfo
  refreshed_topology none topology w = topology
  refreshed_topology (some h) topology w = v.all_hosts w

  unfoldable pub confirm :
      ReaderFailoverResult → List HostInfo → Result Exc (Unit {0}) × W → Pass × W
  unfolding give_up
  confirm r topology (raised e, w) = (finished (failed_with e), w)
  confirm r topology (ok tt, w) =
      if is_listed_reader r.new_host (v.all_hosts w)
      then (finished r, w)
      else give_up r.connection (refreshed_topology r.new_host topology w) w

  unfoldable pub judge : Bool → ReaderFailoverResult → List HostInfo → W → Pass × W
  unfolding confirm
  judge strict r topology w =
      if not r.is_connected
      then (again topology, w)
      else if not strict
      then (finished r, w)
      else confirm r topology (v.force_refresh_host_list r.connection w)

  -- A pass of the loop, with `_failover_internal`.
  unfoldable pub pass : Bool → List HostInfo → State W → Pass × State W
  unfolding get_hosts_by_priority get_connection_from_host_group judge
  pass strict topology s =
      let r = get_connection_from_host_group (get_hosts_by_priority topology strict) s in
      let j = judge strict r.0 topology r.1.world in (j.0, record r.1 { world = j.1 })

  unfoldable pub resume :
      (List HostInfo → State W → ReaderFailoverResult × State W)
      → Pass × State W
      → ReaderFailoverResult × State W
  resume rest (finished r, s) = (r, s)
  resume rest (again topology, s) = rest topology s

  -- `_internal_failover_task`, for as many passes as the fuel allows.
  unfoldable pub internal_failover_task :
      ℕ → Bool → List HostInfo → State W → ReaderFailoverResult × State W
  unfolding pass resume
  internal_failover_task zero strict topology s = (failed_reader_failover_result, s)
  internal_failover_task (suc n) strict topology s =
      let rest = internal_failover_task n strict in
      if s.timeout_event
      then (failed_reader_failover_result, s)
      else resume rest (pass strict topology s)

  -- `failover`; `timed_out` says whether the task took longer than `_max_failover_timeout_sec`.
  unfoldable pub failover :
      ℕ → Bool → Bool → List HostInfo → State W → ReaderFailoverResult × State W
  unfolding internal_failover_task
  failover fuel strict timed_out [] s = (failed_reader_failover_result, s)
  failover fuel strict timed_out (h ∷ topology) s =
      let r = internal_failover_task fuel strict (h ∷ topology) s in
      if timed_out then (failed_reader_failover_result, record r.1 { timeout_event = true }) else r
