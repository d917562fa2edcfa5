-- ===== src/ReadWriteSplitting/Switch.antt =====
-- read_write_splitting_plugin.py: the reader side of `ReadWriteSplittingPlugin`, the decision of
-- `_switch_connection_if_required`, and `execute`.
use aws_advanced_python_wrap.Prelude.{
  ℕ, zero, suc, ◌*◌, Bool, true, false, not, ◌&&◌, ◌||◌, Option, none, some, List, [], ◌∷◌, ◌==◌,
  if◌then◌else◌, length, String-discrete, test,
}
use aws_advanced_python_wrap.Errors.{Exc, aws_wrapper_error, is_failover_error, attribute_error}
use aws_advanced_python_wrap.Exec.{pure, throw, gets, modify, catch, ignore, ◌>>=◌, ◌>>◌}
use aws_advanced_python_wrap.Host.{HostInfo}
use aws_advanced_python_wrap.Host.Role.{is_reader, is_writer}
use aws_advanced_python_wrap.ReadWriteSplitting.{
  Service, Act, is_connection, host_role, raise, set_reader_connection, get_writer,
  is_connection_usable, switch_current_connection_to, get_new_writer_connection,
  close_connection_if_idle, close_idle_connections, switch_to_writer_connection,
}

module _ {W : Type 0} (v : Service W) where
  -- The `try` block of the loop of `_initialize_reader_connection`; `none` when it fails.
  unfoldable pub try_reader : HostInfo → Act W (Option (ℕ × HostInfo))
  try_reader h =
      catch
        (do
          c ← v.connect h
          modify (λ s. record s { is_reader_conn_from_internal_pool = v.is_pooled h s.world })
          pure (some (c, h)))
        (λ e. pure none)

  unfoldable pub attempt : Option HostInfo → Act W (Option (ℕ × HostInfo))
  unfolding try_reader
  attempt none = pure none
  attempt (some h) = try_reader h

  -- The loop of `_initialize_reader_connection`.
  unfoldable pub attempts : ℕ → Act W (Option (ℕ × HostInfo))
  unfolding attempt
  attempts zero = pure none
  attempts (suc n) =
      let rest = attempts n in
      do
        h ← v.get_host_info_by_strategy
        found ← attempt h
        elim found [ none ↦ rest | some r ↦ pure (some r) ]

  unfoldable pub adopt_reader : Option (ℕ × HostInfo) → Act W (Unit {0})
  unfolding set_reader_connection switch_current_connection_to
  adopt_reader none = raise
  adopt_reader (some (c, h)) = do
    modify (set_reader_connection c h)
    switch_current_connection_to v c h

  -- The branch of `_initialize_reader_connection` for a single host.
  unfoldable pub keep_writer : List HostInfo → Act W (Unit {0})
  unfolding get_writer is_connection_usable get_new_writer_connection
  keep_writer hosts = do
    writer_host ← get_writer hosts
    λ s.
        if not (is_connection_usable v s.writer_connection s.world)
        then get_new_writer_connection v writer_host s
        else pure tt s

  unfoldable pub initialize_reader_connection : List HostInfo → Act W (Unit {0})
  unfolding keep_writer attempts adopt_reader
  initialize_reader_connection hosts =
      if length hosts == 1
      then keep_writer hosts
      else do n ← gets (λ s. length (v.hosts s.world) * 2); found ← attempts n; adopt_reader found

  abbrev is_listed : Option HostInfo → List HostInfo → Bool
  is_listed none hosts = true
  is_listed (some r) [] = false
  is_listed (some r) (h ∷ hosts) = test (String-discrete r.host h.host) || is_listed (some r) hosts

  unfoldable pub close_reader : Option ℕ → Act W (Unit {0})
  close_reader none = throw attribute_error
  close_reader (some c) = v.close c

  -- The `except` block of `_switch_to_reader_connection`.
  unfoldable pub replace_reader : List HostInfo → Act W (Unit {0})
  unfolding close_reader initialize_reader_connection
  replace_reader hosts = do
    λ s. close_reader s.reader_connection s
    modify (λ s. record s { reader_connection = none; reader_host_info = none })
    initialize_reader_connection hosts

  unfoldable pub switch_to_kept_reader :
      Option ℕ → Option HostInfo → List HostInfo → Act W (Unit {0})
  unfolding switch_current_connection_to replace_reader
  switch_to_kept_reader (some c) (some h) hosts =
      catch (switch_current_connection_to v c h) (λ e. replace_reader hosts)
  switch_to_kept_reader _ _ hosts = pure tt

  -- The body of `_switch_to_reader_connection` after the early return.
  unfoldable pub leave_writer : List HostInfo → Act W (Unit {0})
  unfolding close_connection_if_idle is_connection_usable initialize_reader_connection
      switch_to_kept_reader
  leave_writer hosts = do
    (λ s.
        if not (is_listed s.reader_host_info hosts)
        then close_connection_if_idle v s.reader_connection s
        else pure tt s)
    modify (λ s. record s { in_read_write_split = true })
    (λ s.
        if not (is_connection_usable v s.reader_connection s.world)
        then initialize_reader_connection hosts s
        else switch_to_kept_reader s.reader_connection s.reader_host_info hosts s)
    (λ s.
        if s.is_writer_conn_from_internal_pool
        then close_connection_if_idle v s.writer_connection s
        else pure tt s)

  unfoldable pub switch_to_reader_connection : List HostInfo → Act W (Unit {0})
  unfolding leave_writer is_connection_usable
  switch_to_reader_connection hosts s =
      if is_reader (host_role (v.current_host_info s.world))
        && is_connection_usable v (v.current_connection s.world) s.world
      then pure tt s
      else leave_writer hosts s

  -- The `except` block around `_switch_to_reader_connection`: the writer serves instead, if it can.
  unfoldable pub fall_back : Option ℕ → Act W (Unit {0})
  unfolding is_connection_usable
  fall_back conn s = if not (is_connection_usable v conn s.world) then raise s else pure tt s

  unfoldable pub request_read_only : Option ℕ → List HostInfo → HostInfo → Act W (Unit {0})
  unfolding switch_to_reader_connection fall_back
  request_read_only conn hosts host s =
      if not (v.is_in_transaction s.world) && not (is_reader host.role)
      then catch (switch_to_reader_connection hosts) (λ e. fall_back conn) s
      else pure tt s

  unfoldable pub request_writable : List HostInfo → HostInfo → Act W (Unit {0})
  unfolding switch_to_writer_connection
  request_writable hosts host s =
      if not (is_writer host.role)
      then if v.is_in_transaction s.world
        then raise s
        else catch (switch_to_writer_connection v hosts) (λ e. raise) s
      else pure tt s

  unfoldable pub request : Bool → Option ℕ → List HostInfo → Option HostInfo → Act W (Unit {0})
  unfolding request_read_only request_writable
  request read_only conn [] host = raise
  request read_only conn (h ∷ hosts) none = raise
  request read_only conn (h ∷ hosts) (some host) =
      if read_only
      then request_read_only conn (h ∷ hosts) host
      else request_writable (h ∷ hosts) host

  unfoldable pub refresh : Option ℕ → Act W (Unit {0})
  refresh none s = pure tt s
  refresh (some c) s =
      if v.can_execute_query c s.world then ignore v.refresh_host_list s else pure tt s

  abbrev pub is_closed_connection : Option ℕ → W → Bool
  is_closed_connection none w = false
  is_closed_connection (some c) w = v.is_closed c w

  unfoldable pub switch_connection_if_required : Bool → Act W (Unit {0})
  unfolding refresh request
  switch_connection_if_required read_only s =
      let conn = v.current_connection s.world in
      if is_closed_connection conn s.world
      then raise s
      else (do
        refresh conn
        λ s. request read_only conn (v.hosts s.world) (v.current_host_info s.world) s)
          s

  abbrev is_old : Option ℕ → Option ℕ → Bool
  is_old none current = false
  is_old (some c) current = not (is_connection current c)

  unfoldable pub switch_on : Option Bool → Act W (Unit {0})
  unfolding switch_connection_if_required
  switch_on none = pure tt
  switch_on (some read_only) = switch_connection_if_required read_only

  unfoldable pub after_error : {A : Type 0} → Exc → Act W A
  unfolding close_idle_connections
  after_error e = do if is_failover_error e then close_idle_connections v else pure tt; throw e

  -- `execute`: `conn` is the connection behind the target, and `read_only` the argument when the
  -- method is `Connection.set_read_only`.
  unfoldable pub execute : {A : Type 0} → Option ℕ → Option Bool → Act W A → Act W A
  unfolding switch_on after_error
  execute conn read_only execute_func s =
      if is_old conn (v.current_connection s.world)
      then throw aws_wrapper_error s
      else (do switch_on read_only; catch execute_func after_error) s
