-- ===== src/WriterFailover.antt =====
-- writer_failover_handler.py: `WriterFailoverHandlerImpl` runs two tasks at once: A reconnects to the
-- old writer, B waits for a new one. What the tasks call, and the event that ends them, are the
-- record `Service` over a world `W`. A loop that may go on until the event is set runs on fuel, and
-- `none` says that the fuel did not suffice; the fields is_new_host and task_name of a result, which
-- nothing reads, and its topology None, which is [], are left out.
pub mod Reconnect
pub mod NewWriter
mod Tests
use aws_advanced_python_wrap.Prelude.{
  ℕ, Bool, true, false, not, ◌&&◌, ◌||◌, Option, none, some, is_some, List, [], ◌∷◌, String,
  String-discrete, test, if◌then◌else◌,
}
use aws_advanced_python_wrap.Errors.{Exc}
use aws_advanced_python_wrap.Exec.{Result, ok, raised, Exec}
use aws_advanced_python_wrap.Host.{HostInfo, mem, url}
use aws_advanced_python_wrap.Host.Role.{HostAvailability, is_writer}
use aws_advanced_python_wrap.Failover.{WriterFailoverResult, ReaderFailoverResult}

pub record Service (W : Type 0) : Type 0 where
  pub force_connect : HostInfo → Exec W Exc ℕ
  pub force_refresh_host_list : Option ℕ → Exec W Exc (Unit {0})
  pub all_hosts : W → List HostInfo
  pub close : ℕ → Exec W Exc (Unit {0})
  pub is_network_exception : Exc → Bool
  pub set_availability : List String → HostAvailability → W → W
  pub get_reader_connection : List HostInfo → Exec W Exc ReaderFailoverResult
  pub is_set : W → Bool
  pub set_event : W → W
  pub sleep : ℕ → W → W
  pub reconnect_writer_interval_sec : ℕ
  pub read_topology_interval_sec : ℕ

abbrev pub failed_writer_failover_result : WriterFailoverResult
failed_writer_failover_result = record {
  is_connected = false;
  topology = none;
  new_connection = none;
  exception = none;
}

unfoldable pub get_writer : List HostInfo → Option HostInfo
get_writer [] = none
get_writer (h ∷ hosts) = if is_writer h.role then some h else get_writer hosts

unfoldable pub is_same : Option HostInfo → Option HostInfo → Bool
unfolding url
is_same none current = false
is_same (some h) none = false
is_same (some h) (some current) = test (String-discrete (url h) (url current))

-- The two sets have a common alias.
unfoldable pub intersects : List String → List String → Bool
intersects [] ys = false
intersects (x ∷ xs) ys = mem x ys || intersects xs ys

unfoldable pub shares_alias : HostInfo → Option HostInfo → Bool
unfolding intersects
shares_alias initial none = false
shares_alias initial (some latest) = intersects initial.all_aliases latest.all_aliases

unfoldable pub is_current_host_writer : List HostInfo → HostInfo → Bool
unfolding shares_alias get_writer
is_current_host_writer latest_topology initial = shares_alias initial (get_writer latest_topology)

-- The results of the futures in the order in which they are completed before the timeout.
unfoldable pub first_final :
    List (Result Exc WriterFailoverResult) → Result Exc WriterFailoverResult
first_final [] = ok failed_writer_failover_result
first_final (raised e ∷ results) = raised e
first_final (ok r ∷ results) =
    if r.is_connected || is_some r.exception then ok r else first_final results

-- What `failover` makes of the result.
unfoldable pub checked_result : Result Exc WriterFailoverResult → Result Exc WriterFailoverResult
checked_result (raised e) = raised e
checked_result (ok r) =
    if r.is_connected || is_some r.exception then ok r else ok failed_writer_failover_result

module _ {W : Type 0} (v : Service W) where
  -- `tasks` runs both tasks until the first final result or the timeout, and gives the results that
  -- were completed, in that order.
  unfoldable pub get_result_from_future :
      (HostInfo → List HostInfo → W → List (Result Exc WriterFailoverResult) × W)
      → List HostInfo
      → Option HostInfo
      → Exec W Exc WriterFailoverResult
  unfolding first_final
  get_result_from_future tasks topology none w = (ok failed_writer_failover_result, w)
  get_result_from_future tasks topology (some h) w =
      let (results, w') =
        tasks h topology (v.set_availability h.all_aliases HostAvailability.unavailable w) in
      (first_final results, v.set_event w')

  unfoldable pub failover :
      (HostInfo → List HostInfo → W → List (Result Exc WriterFailoverResult) × W)
      → List HostInfo
      → Exec W Exc WriterFailoverResult
  unfolding get_result_from_future checked_result get_writer
  failover tasks [] w = (ok failed_writer_failover_result, w)
  failover tasks (h ∷ hosts) w =
      let (r, w') = get_result_from_future tasks (h ∷ hosts) (get_writer (h ∷ hosts)) w in
      (checked_result r, w')
