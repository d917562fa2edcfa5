-- ===== src/Failover/Execute.antt =====
-- failover_plugin.py: `_failover`, `_pick_new_connection` and `execute`.
use aws_advanced_python_wrap.Prelude.{
  ℕ, Bool, true, false, not, ◌&&◌, ◌||◌, Option, none, some, List, [], ◌∷◌, ◌==◌, if◌then◌else◌,
  String, String-discrete, test, is_some,
}
use aws_advanced_python_wrap.Errors.{
  Exc, driver_error, aws_wrapper_error, failover_success_error, attribute_error,
}
use aws_advanced_python_wrap.Exec.{pure, throw, modify, catch, ignore, ◌>>=◌, ◌>>◌}
use aws_advanced_python_wrap.Host.{HostInfo, mem}
use aws_advanced_python_wrap.Host.Role.{unavailable}
use aws_advanced_python_wrap.Failover.{
  Settings, Service, Act, outside, change, is_strict_writer, is_failover_enabled, update_topology,
  failover_reader, failover_writer, conclude, get_writer, has_reader,
}

-- An exception object is compared by identity: each raise of the wrapper makes a new object.
abbrev same_exception : Option Exc → Exc → Bool
same_exception (some (driver_error m)) (driver_error n) = m == n
same_exception _ _ = false

abbrev requires_updated_topology : List String
requires_updated_topology =
    "Connection.commit" ∷ "Connection.autocommit" ∷ "Connection.autocommit_setter"
    ∷ "Connection.rollback" ∷ "Connection.cursor" ∷ "Cursor.callproc" ∷ "Cursor.execute" ∷ []

unfoldable pub can_direct_execute : String → Bool
can_direct_execute method_name =
    mem method_name ("Connection.close" ∷ "Connection.is_closed" ∷ "Cursor.close" ∷ [])

unfoldable pub allowed_on_closed_connection : String → Bool
allowed_on_closed_connection method_name =
    test (String-discrete method_name "Connection.autocommit")

unfoldable pub requires_update_topology : String → Bool
requires_update_topology method_name = mem method_name requires_updated_topology

module _ {W : Type 0} (v : Service W) (g : Settings) where
  abbrev pub mark_failed : Option HostInfo → Act W (Unit {0})
  mark_failed none = pure tt
  mark_failed (some h) = change (v.set_availability h.all_aliases unavailable)

  -- `_failover`
  unfoldable pub failover : Option HostInfo → Act W (Unit {0})
  unfolding failover_reader failover_writer conclude
  failover failed_host = do
    mark_failed failed_host
    if is_strict_writer g.failover_mode
        then failover_writer v g
        else failover_reader v g failed_host
    conclude v g

  -- `_connect_to`
  unfoldable pub connect_to : Option HostInfo → Act W (Unit {0})
  connect_to none = throw attribute_error
  connect_to (some host) = do
    conn ← outside (v.connect host)
    outside (v.set_current_connection (some conn) host)
    change (v.update_in_transaction false)

  unfoldable pub should_attempt_reader_connection : W → Bool
  should_attempt_reader_connection w =
      if is_strict_writer g.failover_mode then false else has_reader (v.hosts w)

  -- `_pick_new_connection`
  unfoldable pub pick_new_connection : Act W (Unit {0})
  unfolding failover connect_to should_attempt_reader_connection
  pick_new_connection s =
      if s.is_closed && s.closed_explicitly
      then pure tt s
      else if not (is_some (v.current_connection s.world))
          && not (should_attempt_reader_connection s.world)
      then (let writer_host = get_writer (v.all_hosts s.world) in
          catch (connect_to writer_host) (λ e. failover writer_host) s)
      else failover (v.current_host_info s.world) s

  unfoldable pub end_transaction : ℕ → Act W (Unit {0})
  end_transaction conn s =
      if v.is_in_transaction s.world
      then (do change (v.update_in_transaction true); ignore (outside (v.rollback conn))) s
      else pure tt s

  unfoldable pub invalidate : Option ℕ → Act W (Unit {0})
  unfolding end_transaction
  invalidate none = pure tt
  invalidate (some conn) = do
    end_transaction conn
    λ s. if not (v.is_closed conn s.world) then ignore (outside (v.close conn)) s else pure tt s

  -- `_invalidate_current_connection`
  unfoldable pub invalidate_current_connection : Act W (Unit {0})
  unfolding invalidate
  invalidate_current_connection s = invalidate (v.current_connection s.world) s

  unfoldable pub mark_current : Option HostInfo → Act W (Unit {0})
  mark_current none = pure tt
  mark_current (some h) = change (v.set_availability h.aliases unavailable)

  -- `_should_exception_trigger_connection_switch`
  unfoldable pub should_switch : Exc → W → Bool
  unfolding is_failover_enabled
  should_switch e w = if not (is_failover_enabled v g w) then false else v.is_network_exception e

  -- The `except` block of `execute`.
  unfoldable pub handle : {A : Type 0} → Exc → Act W A
  unfolding should_switch invalidate_current_connection mark_current pick_new_connection
  handle e = do
    (λ s.
        if not (same_exception s.last_exception e) && should_switch e s.world
        then (do
          invalidate_current_connection
          λ s. mark_current (v.current_host_info s.world) s
          pick_new_connection
          modify (λ s. record s { last_exception = some e }))
            s
        else pure tt s)
    throw aws_wrapper_error

  -- `_invalid_invocation_on_closed_connection`
  unfoldable pub invalid_invocation_on_closed_connection : Act W (Unit {0})
  unfolding pick_new_connection
  invalid_invocation_on_closed_connection s =
      if not s.closed_explicitly
      then (do
        modify (λ s. record s { is_closed = false })
        pick_new_connection
        throw failover_success_error)
          s
      else throw aws_wrapper_error s

  unfoldable pub guarded : {A : Type 0} → String → Act W A → Act W A
  unfolding requires_update_topology update_topology handle
  guarded method_name execute_func =
      catch
        (do
          if requires_update_topology method_name then update_topology v g false else pure tt
          execute_func)
        handle

  unfoldable pub execute : {A : Type 0} → String → Act W A → Act W A
  unfolding can_direct_execute allowed_on_closed_connection invalid_invocation_on_closed_connection
      guarded
  execute method_name execute_func = do
    modify (λ s. record s { is_in_transaction = v.is_in_transaction s.world })
    λ s.
        if not g.enable_failover || can_direct_execute method_name
        then execute_func s
        else (do
          (λ s.
              if s.is_closed && not (allowed_on_closed_connection method_name)
              then invalid_invocation_on_closed_connection s
              else pure tt s)
          guarded method_name execute_func)
            s
