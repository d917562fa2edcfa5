-- ===== src/ReadWriteSplitting.antt =====
-- read_write_splitting_plugin.py: `ReadWriteSplittingPlugin` keeps a connection to the writer and
-- one to a reader, and switches between them when the client calls `set_read_only`. `W` is the world
-- outside the plugin; what the plugin asks of the plugin service is the record `Service`. An
-- operation of the service that notifies the plugins acts on the plugin's own state too. The writer
-- side stands here.
pub mod Switch
pub mod Connect
pub mod Writer
pub mod Transactions
pub mod Reliable
mod Tests
use aws_advanced_python_wrap.Prelude.{
  ℕ, zero, suc, ◌*◌, Bool, true, false, not, ◌&&◌, ◌||◌, Option, none, some, List, [], ◌∷◌, ◌==◌,
  if◌then◌else◌, length, String, String-discrete, test, is_some,
}
use aws_advanced_python_wrap.Errors.{
  Exc, aws_wrapper_error, read_write_splitting_error, is_failover_error,
}
use aws_advanced_python_wrap.Exec.{Exec, pure, throw, gets, modify, catch, ignore, ◌>>=◌, ◌>>◌}
use aws_advanced_python_wrap.Host.{HostInfo}
use aws_advanced_python_wrap.Host.Role.{HostRole, is_reader, is_writer, role_eq, unknown}
use aws_advanced_python_wrap.Session.Service.{OldConnectionSuggestedAction, preserve, no_opinion}

pub record State (W : Type 0) : Type 0 where
  pub in_read_write_split : Bool
  pub writer_connection : Option ℕ
  pub reader_connection : Option ℕ
  pub reader_host_info : Option HostInfo
  pub is_reader_conn_from_internal_pool : Bool
  pub is_writer_conn_from_internal_pool : Bool
  pub world : W

pub record Service (W : Type 0) : Type 0 where
  pub current_connection : W → Option ℕ
  pub current_host_info : W → Option HostInfo
  pub initial_connection_host_info : W → Option HostInfo
  pub hosts : W → List HostInfo
  pub is_in_transaction : W → Bool
  pub is_static_host_list_provider : W → Bool
  pub is_closed : ℕ → W → Bool
  pub can_execute_query : ℕ → W → Bool
  pub is_pooled : HostInfo → W → Bool
  pub get_host_role : ℕ → Exec (State W) Exc HostRole
  pub refresh_host_list : Exec (State W) Exc (Unit {0})
  pub connect : HostInfo → Exec (State W) Exc ℕ
  pub close : ℕ → Exec (State W) Exc (Unit {0})
  pub set_current_connection : ℕ → HostInfo → Exec (State W) Exc (Unit {0})
  pub set_initial_connection_host_info : HostInfo → W → W
  pub get_host_info_by_strategy : Exec (State W) Exc (Option HostInfo)

abbrev pub Act : Type 0 → Type 0 → Type 0
Act W A = Exec (State W) Exc A

abbrev pub is_connection : Option ℕ → ℕ → Bool
is_connection none c = false
is_connection (some d) c = d == c

abbrev pub host_role : Option HostInfo → HostRole
host_role none = unknown
host_role (some h) = h.role

-- `log_and_raise_exception`
abbrev pub raise : {W A : Type 0} → Act W A
raise = throw read_write_splitting_error

module _ {W : Type 0} where
  unfoldable pub set_writer_connection : ℕ → State W → State W
  set_writer_connection c s = record s { writer_connection = some c }

  unfoldable pub set_reader_connection : ℕ → HostInfo → State W → State W
  set_reader_connection c h s = record s { reader_connection = some c; reader_host_info = some h }

  unfoldable pub get_writer : List HostInfo → Act W HostInfo
  get_writer [] = raise
  get_writer (h ∷ hosts) = if is_writer h.role then pure h else get_writer hosts

module _ {W : Type 0} (v : Service W) where
  unfoldable pub is_connection_usable : Option ℕ → W → Bool
  is_connection_usable none w = false
  is_connection_usable (some c) w = not (v.is_closed c w)

  unfoldable update_from : Option ℕ → Option HostInfo → State W → State W
  unfolding set_writer_connection set_reader_connection
  update_from none host s = s
  update_from (some c) none s = s
  update_from (some c) (some h) s =
      if is_writer h.role then set_writer_connection c s else set_reader_connection c h s

  -- `_update_internal_connection_info`
  unfoldable pub update_internal_connection_info : State W → State W
  unfolding update_from
  update_internal_connection_info s =
      update_from (v.current_connection s.world) (v.current_host_info s.world) s

  unfoldable pub notify_connection_changed : Act W OldConnectionSuggestedAction
  unfolding update_internal_connection_info
  notify_connection_changed s =
      let s' = update_internal_connection_info s in
      if s'.in_read_write_split then pure preserve s' else pure no_opinion s'

  unfoldable pub switch_current_connection_to : ℕ → HostInfo → Act W (Unit {0})
  switch_current_connection_to c h s =
      if is_connection (v.current_connection s.world) c
      then pure tt s
      else v.set_current_connection c h s

  unfoldable pub get_new_writer_connection : HostInfo → Act W (Unit {0})
  unfolding switch_current_connection_to set_writer_connection
  get_new_writer_connection h = do
    c ← v.connect h
    modify (λ s. record s { is_writer_conn_from_internal_pool = v.is_pooled h s.world })
    modify (set_writer_connection c)
    switch_current_connection_to c h

  unfoldable pub forget_writer : ℕ → State W → State W
  forget_writer c s =
      if is_connection s.writer_connection c then record s { writer_connection = none } else s

  unfoldable pub forget_reader : ℕ → State W → State W
  forget_reader c s =
      if is_connection s.reader_connection c
      then record s { reader_connection = none; reader_host_info = none }
      else s

  unfoldable pub close_idle : ℕ → Act W (Unit {0})
  unfolding is_connection_usable forget_writer forget_reader
  close_idle c s =
      if not (is_connection (v.current_connection s.world) c)
        && is_connection_usable (some c) s.world
      then (do v.close c; modify (forget_writer c); modify (forget_reader c)) s
      else pure tt s

  unfoldable pub close_connection_if_idle : Option ℕ → Act W (Unit {0})
  unfolding close_idle
  close_connection_if_idle none = pure tt
  close_connection_if_idle (some c) = ignore (close_idle c)

  unfoldable pub close_idle_connections : Act W (Unit {0})
  unfolding close_connection_if_idle
  close_idle_connections = do
    λ s. close_connection_if_idle s.reader_connection s
    λ s. close_connection_if_idle s.writer_connection s

  unfoldable pub switch_to_kept : Option ℕ → HostInfo → Act W (Unit {0})
  unfolding switch_current_connection_to
  switch_to_kept none h = pure tt
  switch_to_kept (some c) h = switch_current_connection_to c h

  -- The body of `_switch_to_writer_connection` after the early return.
  unfoldable pub leave_reader : List HostInfo → Act W (Unit {0})
  unfolding get_writer is_connection_usable get_new_writer_connection switch_to_kept
      close_connection_if_idle
  leave_reader hosts = do
    writer_host ← get_writer hosts
    modify (λ s. record s { in_read_write_split = true })
    (λ s.
        if not (is_connection_usable s.writer_connection s.world)
        then get_new_writer_connection writer_host s
        else switch_to_kept s.writer_connection writer_host s)
    (λ s.
        if s.is_reader_conn_from_internal_pool
        then close_connection_if_idle s.reader_connection s
        else pure tt s)

  unfoldable pub switch_to_writer_connection : List HostInfo → Act W (Unit {0})
  unfolding leave_reader is_connection_usable
  switch_to_writer_connection hosts s =
      if is_writer (host_role (v.current_host_info s.world))
        && is_connection_usable (v.current_connection s.world) s.world
      then pure tt s
      else leave_reader hosts s
