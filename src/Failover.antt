-- ===== src/Failover.antt =====
-- failover_plugin.py: `FailoverPlugin` runs the calls of the client and, when one fails with a
-- network error, moves the session to another host. `W` is the world outside the plugin: what it
-- asks of the plugin service and of the two failover handlers is the record `Service`. Telemetry
-- and logging leave no trace here.
pub mod Execute
pub mod Outcome
mod Tests
use aws_advanced_python_wrap.Prelude.{
  ℕ, Bool, true, false, not, ◌&&◌, ◌||◌, Option, none, some, List, [], ◌∷◌, ◌==◌, if◌then◌else◌,
  String, String-discrete, test, is_some, first, map,
}
use aws_advanced_python_wrap.Errors.{
  Exc, driver_error, aws_wrapper_error, failover_failed_error, failover_success_error,
  transaction_resolution_unknown_error, attribute_error,
}
use aws_advanced_python_wrap.Exec.{
  Result, ok, raised, Exec, pure, throw, gets, modify, catch, ignore, ◌>>=◌, ◌>>◌,
}
use aws_advanced_python_wrap.Host.{HostInfo, mem, as_alias}
use aws_advanced_python_wrap.Host.Role.{
  HostAvailability, unavailable, is_available, is_reader, is_writer,
}

-- failover_result.py
pub record ReaderFailoverResult : Type 0 where
  pub connection : Option ℕ
  pub is_connected : Bool
  pub new_host : Option HostInfo
  pub exception : Option Exc

pub record WriterFailoverResult : Type 0 where
  pub is_connected : Bool
  pub topology : Option (List HostInfo)
  pub new_connection : Option ℕ
  pub exception : Option Exc

-- utils/failover_mode.py
pub data FailoverMode : Type 0 where
  strict_writer strict_reader reader_or_writer : FailoverMode

abbrev pub is_strict_writer : FailoverMode → Bool
is_strict_writer strict_writer = true
is_strict_writer _ = false

-- What the plugin reads once: its settings, its mode, and whether the endpoint is an RDS proxy.
pub record Settings : Type 0 where
  pub enable_failover : Bool
  pub failover_mode : FailoverMode
  pub is_rds_proxy : Bool

pub record State (W : Type 0) : Type 0 where
  pub is_in_transaction : Bool
  pub is_closed : Bool
  pub closed_explicitly : Bool
  pub last_exception : Option Exc
  pub world : W

pub record Service (W : Type 0) : Type 0 where
  pub current_connection : W → Option ℕ
  pub current_host_info : W → Option HostInfo
  pub hosts : W → List HostInfo
  pub all_hosts : W → List HostInfo
  pub is_in_transaction : W → Bool
  pub is_closed : ℕ → W → Bool
  pub is_network_exception : Exc → Bool
  pub set_availability : List String → HostAvailability → W → W
  pub update_in_transaction : Bool → W → W
  pub connect : HostInfo → W → Result Exc ℕ × W
  pub set_current_connection : Option ℕ → HostInfo → W → Result Exc (Unit {0}) × W
  pub refresh_host_list : W → Result Exc (Unit {0}) × W
  pub force_refresh_host_list : W → Result Exc (Unit {0}) × W
  pub rollback : ℕ → W → Result Exc (Unit {0}) × W
  pub close : ℕ → W → Result Exc (Unit {0}) × W
  pub reader_failover : List HostInfo → Option HostInfo → W → ReaderFailoverResult × W
  pub writer_failover : List HostInfo → W → WriterFailoverResult × W

abbrev pub Act : Type 0 → Type 0 → Type 0
Act W A = Exec (State W) Exc A

module _ {W A : Type 0} where
  abbrev pub put_world : State W → Result Exc A × W → Result Exc A × State W
  put_world s (r, w) = (r, record s { world = w })

  abbrev pub outside : (W → Result Exc A × W) → Act W A
  outside op s = put_world s (op s.world)

  abbrev put_answer : State W → A × W → Result Exc A × State W
  put_answer s (a, w) = (ok a, record s { world = w })

  -- An operation that does not raise.
  abbrev pub answered : (W → A × W) → Act W A
  answered op s = put_answer s (op s.world)

module _ {W : Type 0} where
  abbrev pub change : (W → W) → Act W (Unit {0})
  change f = modify (λ s. record s { world = f s.world })

-- `_get_writer`
abbrev pub get_writer : List HostInfo → Option HostInfo
get_writer hosts = first (λ h. is_writer h.role) hosts

abbrev pub names : List HostInfo → List String
names hosts = map (λ h. h.host) hosts

abbrev pub has_reader : List HostInfo → Bool
has_reader hosts = is_some (first (λ h. is_reader h.role) hosts)

module _ {W : Type 0} (v : Service W) (g : Settings) where
  unfoldable pub is_failover_enabled : W → Bool
  is_failover_enabled w =
      g.enable_failover && not g.is_rds_proxy && is_some (first (λ h. true) (v.all_hosts w))

  unfoldable update_topology_over : Option ℕ → Bool → Act W (Unit {0})
  update_topology_over none force_update s = pure tt s
  update_topology_over (some conn) force_update s =
      if v.is_closed conn s.world
      then pure tt s
      else if force_update
      then outside v.force_refresh_host_list s
      else outside v.refresh_host_list s

  -- `_update_topology`
  unfoldable pub update_topology : Bool → Act W (Unit {0})
  unfolding is_failover_enabled update_topology_over
  update_topology force_update s =
      if not (is_failover_enabled s.world)
      then pure tt s
      else update_topology_over (v.current_connection s.world) force_update s

  abbrev pub raise_given : Option Exc → Act W (Unit {0})
  raise_given none = pure tt
  raise_given (some e) = throw e

  unfoldable pub adopt : Option ℕ → Option HostInfo → Act W (Unit {0})
  adopt (some conn) (some host) = outside (v.set_current_connection (some conn) host)
  adopt _ _ = pure tt

  -- A host that is known to be available is not passed to the handler as the failed one.
  unfoldable pub failed_for_handler : Option HostInfo → Option HostInfo
  failed_for_handler none = none
  failed_for_handler (some h) = if not (is_available h.raw_availability) then some h else none

  -- `_failover_reader`. `remove_alias(old_aliases)` removes nothing: its one argument is a set, and
  -- no alias is a set.
  unfoldable pub failover_reader : Option HostInfo → Act W (Unit {0})
  unfolding adopt failed_for_handler update_topology
  failover_reader failed_host = do
    result ← λ s. answered (v.reader_failover (v.hosts s.world) (failed_for_handler failed_host)) s
    if not result.is_connected
        then throw failover_failed_error
        else do raise_given result.exception; adopt result.connection result.new_host
    update_topology true

  unfoldable pub switch_to_writer : Option ℕ → Option HostInfo → Act W (Unit {0})
  switch_to_writer conn none s = throw attribute_error s
  switch_to_writer conn (some writer_host) s =
      if not (mem writer_host.host (names (v.hosts s.world)))
      then throw failover_failed_error s
      else outside (v.set_current_connection conn writer_host) s

  unfoldable pub writer_of : Option (List HostInfo) → Act W (Option HostInfo)
  writer_of none = throw attribute_error
  writer_of (some topology) = pure (get_writer topology)

  unfoldable pub use_writer : WriterFailoverResult → Act W (Unit {0})
  unfolding switch_to_writer writer_of
  use_writer result = if not result.is_connected then throw failover_failed_error else do
    writer_host ← writer_of result.topology
    switch_to_writer result.new_connection writer_host

  -- `_failover_writer`
  unfoldable pub failover_writer : Act W (Unit {0})
  unfolding use_writer
  failover_writer = do
    result ← λ s. answered (v.writer_failover (v.all_hosts s.world)) s
    raise_given result.exception
    use_writer result
    outside v.refresh_host_list

  -- The end of `_failover`.
  unfoldable pub conclude : Act W (Unit {0})
  conclude s =
      if s.is_in_transaction || v.is_in_transaction s.world
      then (do change (v.update_in_transaction false); throw transaction_resolution_unknown_error) s
      else throw failover_success_error s
