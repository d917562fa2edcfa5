-- ===== src/Session/Connection.antt =====
-- plugin_service.py: the part of `PluginServiceImpl` that switches connections
-- (`set_current_connection`, `update_in_transaction`).
use aws_advanced_python_wrap.Prelude.{
  ℕ, Bool, false, not, ◌&&◌, Option, none, some, ◌==◌, if◌then◌else◌,
}
use aws_advanced_python_wrap.Errors.{aws_wrapper_error}
use aws_advanced_python_wrap.Exec.{pure, throw, modify, ignore, finally, ◌>>=◌, ◌>>◌}
use aws_advanced_python_wrap.Host.{HostInfo}
use aws_advanced_python_wrap.Session.Service.{
  Outside, Settings, Act, outside, OldConnectionSuggestedAction, connection_object_changed,
  initial_connection, is_preserve, begin, complete, reset, apply_current_session_state,
  apply_pristine_session_state,
}

module _ {W : Type 0} (o : Outside W) (g : Settings) where
  unfoldable pub in_transaction_on : Option ℕ → Act W (Unit {0})
  in_transaction_on none = throw aws_wrapper_error
  in_transaction_on (some conn) = do
    b ← outside (o.in_transaction conn)
    modify (λ s. record s { is_in_transaction = b })

  -- `update_in_transaction`
  unfoldable pub update_in_transaction : Option Bool → Act W (Unit {0})
  unfolding in_transaction_on
  update_in_transaction (some b) = modify (λ s. record s { is_in_transaction = b })
  update_in_transaction none = λ s. in_transaction_on s.current_connection s

  -- What `set_current_connection` does with the connection that it replaces.
  unfoldable pub retire : ℕ → OldConnectionSuggestedAction → Act W (Unit {0})
  unfolding apply_pristine_session_state
  retire old action s =
      if not (is_preserve action) && not (o.is_closed old s.world)
      then (do ignore (apply_pristine_session_state o g old); ignore (outside (o.close old))) s
      else pure tt s

  -- The `try` block of `set_current_connection`.
  unfoldable pub switch : ℕ → ℕ → Option HostInfo → Act W (Unit {0})
  unfolding apply_current_session_state update_in_transaction retire
  switch old conn host s =
      let was_in_transaction = s.is_in_transaction in
      (do
        modify (λ s. record s { current_connection = some conn; current_host_info = host })
        apply_current_session_state o g conn
        update_in_transaction (some false)
        if was_in_transaction && g.rollback_on_switch
            then ignore (outside (o.rollback old))
            else pure tt
        action ← outside (o.notify connection_object_changed)
        retire old action)
        s

  unfoldable pub replace : ℕ → Option ℕ → Option HostInfo → Act W (Unit {0})
  unfolding switch begin complete
  replace old none host = pure tt
  replace old (some conn) host =
      if old == conn then pure tt else do begin o g; finally (switch old conn host) (complete o g)

  unfoldable pub set_from : Option ℕ → Option ℕ → Option HostInfo → Act W (Unit {0})
  unfolding replace reset
  set_from none conn host = do
    modify (λ s. reset o g (record s { current_connection = conn; current_host_info = host }))
    action ← outside (o.notify initial_connection)
    pure tt
  set_from (some old) conn host = replace old conn host

  -- `set_current_connection`
  unfoldable pub set_current_connection : Option ℕ → Option HostInfo → Act W (Unit {0})
  unfolding set_from
  set_current_connection conn host s = set_from s.current_connection conn host s
