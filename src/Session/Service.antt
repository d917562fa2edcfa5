-- ===== src/Session/Service.antt =====
-- states/session_state_service.py (`SessionStateServiceImpl`). A connection is a number. `W` is the
-- world outside: the driver and its connections, and the plugins that are notified; its operations
-- are parameters.
use aws_advanced_python_wrap.Prelude.{
  ℕ, Bool, true, false, not, ◌&&◌, Option, none, some, is_some, if◌then◌else◌,
}
use aws_advanced_python_wrap.Errors.{Exc, aws_wrapper_error}
use aws_advanced_python_wrap.Exec.{Result, Exec, pure, throw, modify, ignore, ◌>>=◌, ◌>>◌}
use aws_advanced_python_wrap.Host.{HostInfo}
use aws_advanced_python_wrap.Session
use aws_advanced_python_wrap.Session.{
  SessionState, SessionStateField, reset_pristine_value, can_restore_pristine,
}

pub data OldConnectionSuggestedAction : Type 0 where
  no_opinion dispose preserve : OldConnectionSuggestedAction

pub data ConnectionEvent : Type 0 where
  connection_object_changed initial_connection : ConnectionEvent

abbrev pub is_preserve : OldConnectionSuggestedAction → Bool
is_preserve preserve = true
is_preserve _ = false

-- The settings that the modelled code reads from the properties.
pub record Settings : Type 0 where
  pub transfer_session_state_on_switch : Bool
  pub reset_session_state_on_close : Bool
  pub rollback_on_switch : Bool

-- The driver dialect over a driver, the notification of the plugins, and the handler that
-- `SessionStateTransferHandlers` holds.
pub record Outside (W : Type 0) : Type 0 where
  pub is_closed : ℕ → W → Bool
  pub get_autocommit : ℕ → W → Result Exc Bool × W
  pub set_autocommit : ℕ → Bool → W → Result Exc (Unit {0}) × W
  pub is_read_only : ℕ → W → Result Exc Bool × W
  pub set_read_only : ℕ → Bool → W → Result Exc (Unit {0}) × W
  pub in_transaction : ℕ → W → Result Exc Bool × W
  pub rollback : ℕ → W → Result Exc (Unit {0}) × W
  pub close : ℕ → W → Result Exc (Unit {0}) × W
  pub notify : ConnectionEvent → W → Result Exc OldConnectionSuggestedAction × W
  pub transfer_handler : Option (SessionState → ℕ → W → Result Exc Bool × W)

pub record State (W : Type 0) : Type 0 where
  pub session_state : SessionState
  pub copy_session_state : Option SessionState
  pub current_connection : Option ℕ
  pub current_host_info : Option HostInfo
  pub is_in_transaction : Bool
  pub world : W

module _ {W A : Type 0} where
  abbrev pub put_world : State W → Result Exc A × W → Result Exc A × State W
  put_world s (r, w) = (r, record s { world = w })

  -- An operation of the outside world.
  abbrev pub outside : (W → Result Exc A × W) → Exec (State W) Exc A
  outside op s = put_world s (op s.world)

-- The two fields of the session state are read and written alike.
pub data Field : Type 0 where
  auto_commit readonly : Field

unfoldable pub field : Field → SessionState → SessionStateField
field auto_commit s = s.auto_commit
field readonly s = s.readonly

unfoldable pub set_field : Field → SessionStateField → SessionState → SessionState
set_field auto_commit f s = record s { auto_commit = f }
set_field readonly f s = record s { readonly = f }

-- An action of the service.
abbrev pub Act : Type 0 → Type 0 → Type 0
Act W A = Exec (State W) Exc A

module _ {W : Type 0} where
  abbrev pub set_pristine : Field → Option Bool → State W → State W
  set_pristine fd b s = record s {
    session_state =
        set_field fd (record (field fd s.session_state) { pristine_value = b }) s.session_state;
  }

module _ {W : Type 0} (o : Outside W) where
  unfoldable pub read_op : Field → ℕ → W → Result Exc Bool × W
  read_op auto_commit conn = o.get_autocommit conn
  read_op readonly conn = o.is_read_only conn

  unfoldable pub write_op : Field → ℕ → Bool → W → Result Exc (Unit {0}) × W
  write_op auto_commit conn b = o.set_autocommit conn b
  write_op readonly conn b = o.set_read_only conn b

module _ {W : Type 0} (o : Outside W) (g : Settings) where
  -- `set_autocommit`, `set_read_only`.
  unfoldable pub set_value : Field → Bool → Act W (Unit {0})
  unfolding field set_field
  set_value fd b =
      if g.transfer_session_state_on_switch
      then modify (λ s. record s {
        session_state =
            set_field fd (record (field fd s.session_state) { value = some b }) s.session_state;
      })
      else pure tt

  unfoldable pub pristine_from : Field → Option Bool → Option ℕ → Act W (Unit {0})
  unfolding read_op field set_field
  pristine_from fd (some b) conn = modify (set_pristine fd (some b))
  pristine_from fd none none = modify (set_pristine fd none)
  pristine_from fd none (some conn) = do
    b ← outside (read_op o fd conn)
    modify (set_pristine fd (some b))

  -- `setup_pristine_autocommit`, `setup_pristine_readonly`.
  unfoldable pub setup_pristine : Field → Option Bool → Act W (Unit {0})
  unfolding pristine_from field
  setup_pristine fd given s =
      if not g.transfer_session_state_on_switch
      then pure tt s
      else if is_some (field fd s.session_state).pristine_value
      then pure tt s
      else pristine_from fd given s.current_connection s

  -- `reset`
  unfoldable pub reset : State W → State W
  unfolding Session.reset
  reset s = record s {
    session_state = record {
      auto_commit = Session.reset s.session_state.auto_commit;
      readonly = Session.reset s.session_state.readonly;
    };
  }

  -- `begin`
  unfoldable pub begin : Act W (Unit {0})
  unfolding Session.copy
  begin s =
      if not g.transfer_session_state_on_switch && not g.reset_session_state_on_close
      then pure tt s
      else if is_some s.copy_session_state
      then throw aws_wrapper_error s
      else pure tt (record s { copy_session_state = some (Session.copy s.session_state) })

  -- `complete`
  unfoldable pub complete : State W → State W
  complete s = record s { copy_session_state = none }

  unfoldable pub transfer_by : Option (SessionState → ℕ → W → Result Exc Bool × W) → ℕ → Act W Bool
  transfer_by none conn = pure false
  transfer_by (some func) conn = λ s. outside (func s.session_state conn) s

  unfoldable pub transfer_value : Field → ℕ → Option Bool → Act W (Unit {0})
  unfolding setup_pristine write_op
  transfer_value fd conn none = pure tt
  transfer_value fd conn (some b) = do
    modify (set_pristine fd none)
    setup_pristine fd none
    outside (write_op o fd conn b)

  -- The block of `apply_current_session_state` for one field.
  unfoldable pub transfer_field : Field → ℕ → Act W (Unit {0})
  unfolding transfer_value field
  transfer_field fd conn s = transfer_value fd conn (field fd s.session_state).value s

  unfoldable pub apply_current_session_state : ℕ → Act W (Unit {0})
  unfolding transfer_field transfer_by
  apply_current_session_state conn = if not g.transfer_session_state_on_switch then pure tt else do
    handled ← transfer_by o.transfer_handler conn
    if handled then pure tt else do transfer_field auto_commit conn; transfer_field readonly conn

  unfoldable pub restore_value : Field → ℕ → Option Bool → Act W (Unit {0})
  unfolding write_op
  restore_value fd conn none = pure tt
  restore_value fd conn (some b) = ignore (outside (write_op o fd conn b))

  -- The block of `apply_pristine_session_state` for one field of the copy.
  unfoldable pub restore_field : Field → ℕ → SessionState → Act W (Unit {0})
  unfolding restore_value Session.can_restore_pristine field
  restore_field fd conn c =
      if can_restore_pristine (field fd c)
      then restore_value fd conn (field fd c).pristine_value
      else pure tt

  unfoldable pub restore_from : ℕ → Option SessionState → Act W (Unit {0})
  unfolding restore_field
  restore_from conn none = pure tt
  restore_from conn (some c) = do restore_field auto_commit conn c; restore_field readonly conn c

  unfoldable pub apply_pristine_session_state : ℕ → Act W (Unit {0})
  unfolding restore_from transfer_by
  apply_pristine_session_state conn = if not g.transfer_session_state_on_switch then pure tt else do
    handled ← transfer_by o.transfer_handler conn
    if handled then pure tt else λ s. restore_from conn s.copy_session_state s
