-- ===== src/Session/Switching.antt =====
-- plugin_service.py: what `set_current_connection` leaves behind, however it ends.
use aws_advanced_python_wrap.Prelude.{
  ℕ, ◌≡◌, refl, ◌≢◌, inr, sym, ap, subst, ◌∙◌, Bool, true, false, not, ◌&&◌, Option, none, some,
  ◌==◌, arith, if◌then◌else◌,
}
use aws_advanced_python_wrap.Errors.{Exc}
use aws_advanced_python_wrap.Exec.{
  Result, ok, pure, ignore, after_finally, ◌>>=◌, ◌>>◌, Keeps, Keeps-pure, Keeps-if, Keeps-catch,
  Keeps-bind,
}
use aws_advanced_python_wrap.Host.{HostInfo}
use aws_advanced_python_wrap.Session
use aws_advanced_python_wrap.Session.{SessionState, SessionStateField, can_restore_pristine}
use aws_advanced_python_wrap.Session.Service.{
  Outside, Settings, State, Field, auto_commit, readonly, field, Act, outside,
  OldConnectionSuggestedAction, write_op, apply_current_session_state, restore_value, restore_field,
  restore_from, apply_pristine_session_state, begin, complete, is_preserve,
  connection_object_changed,
}
use aws_advanced_python_wrap.Session.Connection.{
  update_in_transaction, retire, switch, replace, set_from, set_current_connection,
}
use aws_advanced_python_wrap.Session.Transfer.{
  KeepsFlags, run_pair, unhandled, apply_current-Transferred,
}

module _ {W : Type 0} (o : Outside W) (g : Settings) where
  set_from-completes :
      (current conn : Option ℕ) (host : Option HostInfo) (s : State W)
      → s.copy_session_state ≡ none
      → (set_from o g current conn host s).1.copy_session_state ≡ none
  unfolding set_from replace begin complete
  set_from-completes none conn host s h = ground arith
  set_from-completes (some old) none host s h = h
  set_from-completes (some old) (some conn) host s h = ground arith

  -- Let no session transfer be open. However it ends, a switch of connections leaves none open, so
  -- that the next one can begin.
  pub set_current_connection-completes :
      (conn : Option ℕ) (host : Option HostInfo) (s : State W)
      → s.copy_session_state ≡ none
      → (set_current_connection o g conn host s).1.copy_session_state ≡ none
  unfolding set_current_connection
  set_current_connection-completes conn host s h =
      set_from-completes s.current_connection conn host s h

differ : (a b : ℕ) → a ≢ b → (a == b) ≡ false
differ a b ne = ground arith

module _ {W : Type 0} (o : Outside W) (g : Settings) (k : KeepsFlags o)
    (on : g.transfer_session_state_on_switch ≡ true) where
  open k use {
    flag, write_done, write_self, write_frame, read_done, rollback_frame, close_frame, notify_frame,
  }

  -- The switched session: `c` and `h` are current, and the flag `fd` of `c` is `b`.
  record Switched (c : ℕ) (h : Option HostInfo) (fd : Field) (b : Bool) (s : State W) : Type 0 where
    is_current : s.current_connection ≡ some c
    is_host : s.current_host_info ≡ h
    has_flag : flag fd c s.world ≡ b

  module _ (old c : ℕ) (ne : old ≢ c) (h : Option HostInfo) (fd : Field) (b : Bool) where
    Switched-outside :
        {A : Type 0} (op : W → Result Exc A × W)
        → ((w : W) → flag fd c (op w).1 ≡ flag fd c w)
        → Keeps (Switched c h fd b) (outside op)
    Switched-outside op frame = record {
      at = λ s p. record {
        is_current = p.is_current;
        is_host = p.is_host;
        has_flag = frame s.world ∙ p.has_flag;
      };
    }

    Switched-in_transaction : Keeps (Switched c h fd b) (update_in_transaction o g (some false))
    unfolding update_in_transaction
    Switched-in_transaction = record {
      at = λ s p. record { is_current = p.is_current; is_host = p.is_host; has_flag = p.has_flag };
    }

    Switched-ignore :
        (op : W → Result Exc (Unit {0}) × W)
        → ((w : W) → flag fd c (op w).1 ≡ flag fd c w)
        → Keeps (Switched c h fd b) (ignore (outside op))
    Switched-ignore op frame =
        Keeps-catch (outside op) (λ e. pure tt) (Switched-outside op frame) (λ e. Keeps-pure tt)

    Switched-restore_value :
        (fd' : Field) (v : Option Bool) → Keeps (Switched c h fd b) (restore_value o g fd' old v)
    unfolding restore_value
    Switched-restore_value fd' none = Keeps-pure tt
    Switched-restore_value fd' (some v) =
        Switched-ignore (write_op o fd' old v)
          (λ w. write_frame fd' fd old c v w (inr (λ e. ne (sym e))))

    Switched-restore_field :
        (fd' : Field) (st : SessionState) → Keeps (Switched c h fd b) (restore_field o g fd' old st)
    unfolding restore_field
    Switched-restore_field fd' st =
        Keeps-if (can_restore_pristine (field fd' st))
          (restore_value o g fd' old (field fd' st).pristine_value) (pure tt)
          (Switched-restore_value fd' (field fd' st).pristine_value) (Keeps-pure tt)

    Switched-restore_from :
        (st : Option SessionState) → Keeps (Switched c h fd b) (restore_from o g old st)
    unfolding restore_from
    Switched-restore_from none = Keeps-pure tt
    Switched-restore_from (some st) =
        Keeps-bind (restore_field o g auto_commit old st) (λ _. restore_field o g readonly old st)
          (Switched-restore_field auto_commit st) (λ _. Switched-restore_field readonly st)

    Switched-apply_pristine :
        o.transfer_handler ≡ none → Keeps (Switched c h fd b) (apply_pristine_session_state o g old)
    unfolding apply_pristine_session_state
    Switched-apply_pristine no_handler = record {
      at = λ s p.
          subst (λ r. Switched c h fd b r.1)
            (sym (
              unhandled o g k on g.transfer_session_state_on_switch o.transfer_handler
                (λ s. restore_from o g old s.copy_session_state s) old s on no_handler))
            ((Switched-restore_from s.copy_session_state).at s p);
    }

    Switched-close :
        o.transfer_handler ≡ none
        → Keeps
            (Switched c h fd b)
            (ignore (apply_pristine_session_state o g old) >> ignore (outside (o.close old)))
    Switched-close no_handler =
        Keeps-bind (ignore (apply_pristine_session_state o g old))
          (λ _. ignore (outside (o.close old)))
          (Keeps-catch (apply_pristine_session_state o g old) (λ e. pure tt)
            (Switched-apply_pristine no_handler) (λ e. Keeps-pure tt))
          (λ _. Switched-ignore (o.close old) (close_frame fd old c))

    branch-Keeps :
        (d : Bool) (m : Act W (Unit {0})) (s : State W)
        → Keeps (Switched c h fd b) m
        → Switched c h fd b s
        → Switched c h fd b (if d then m s else pure tt s).1
    branch-Keeps true m s k p = k.at s p
    branch-Keeps false m s k p = p

    Switched-retire :
        o.transfer_handler ≡ none
        → (action : OldConnectionSuggestedAction)
        → Keeps (Switched c h fd b) (retire o g old action)
    unfolding retire
    Switched-retire no_handler action = record {
      at = λ s p.
          branch-Keeps (not (is_preserve action) && not (o.is_closed old s.world))
            (ignore (apply_pristine_session_state o g old) >> ignore (outside (o.close old))) s
            (Switched-close no_handler) p;
    }

    -- What `switch` does after the transfer.
    abbrev rest : Bool → Act W (Unit {0})
    rest was = do
      update_in_transaction o g (some false)
      if was && g.rollback_on_switch then ignore (outside (o.rollback old)) else pure tt
      action ← outside (o.notify connection_object_changed)
      retire o g old action

    Switched-rest : o.transfer_handler ≡ none → (was : Bool) → Keeps (Switched c h fd b) (rest was)
    Switched-rest no_handler was =
        Keeps-bind (update_in_transaction o g (some false)) _ Switched-in_transaction (λ _.
          Keeps-bind
            (if was && g.rollback_on_switch then ignore (outside (o.rollback old)) else pure tt) _
            (Keeps-if (was && g.rollback_on_switch) (ignore (outside (o.rollback old))) (pure tt)
              (Switched-ignore (o.rollback old) (rollback_frame fd old c)) (Keeps-pure tt))
            (λ _.
              Keeps-bind (outside (o.notify connection_object_changed)) (retire o g old)
                (Switched-outside (o.notify connection_object_changed)
                  (notify_frame fd connection_object_changed c))
                (λ action. Switched-retire no_handler action)))

    Switched-switch :
        o.transfer_handler ≡ none
        → (s : State W) → (field fd s.session_state).value ≡ some b
        → Switched c h fd b (switch o g old c h s).1
    unfolding switch
    Switched-switch no_handler s e =
        let s1 = record s { current_connection = some c; current_host_info = h } in
        let (s2, done, t) = apply_current-Transferred o g k on no_handler c s1 in
        let start : Switched c h fd b s2 = record {
          is_current = t.same_connection;
          is_host = t.same_host;
          has_flag = t.set_flags fd b e;
        } in
        subst (λ r. Switched c h fd b r.1)
          (sym (
            run_pair o g k on (apply_current_session_state o g c) (rest s.is_in_transaction) s1 s2
              (rest s.is_in_transaction s2) done refl))
          ((Switched-rest no_handler s.is_in_transaction).at s2 start)

    begin-done :
        (s : State W)
        → s.copy_session_state ≡ none
        → (s' : State W) × (begin o g s ≡ (ok tt, s')) × (s'.session_state ≡ s.session_state)
    unfolding begin
    begin-done s e = (
      record s { copy_session_state = some (Session.copy s.session_state) },
      rw (on, e) refl,
      refl,
    )

    Switched-complete :
        (r : Result Exc (Unit {0}) × State W)
        → Switched c h fd b r.1
        → Switched c h fd b (after_finally (complete o g) r).1
    unfolding complete
    Switched-complete (r, s) p = record {
      is_current = p.is_current;
      is_host = p.is_host;
      has_flag = p.has_flag;
    }

    Switched-replace :
        o.transfer_handler ≡ none
        → (s : State W) → s.copy_session_state ≡ none
        → (field fd s.session_state).value ≡ some b
        → Switched c h fd b (replace o g old (some c) h s).1
    unfolding replace
    Switched-replace no_handler s free e =
        let (s', begun, same) = begin-done s free in
        let p =
          Switched-complete (switch o g old c h s')
            (Switched-switch no_handler s' (ap (λ x. (field fd x).value) same ∙ e)) in
        rw (differ old c ne, begun) p

    -- Let the session state be transferred on a switch, by no handler of the user's, over a driver
    -- that keeps the flags of its connections. When `set_current_connection` is called with a
    -- connection `c` other than the current one, and no transfer is open, then, however the call
    -- ends, `c` and the given host are current afterwards, and a flag that the session state records
    -- as `b` (autocommit or read-only) is `b` on `c`.
    pub set_current_connection-transfers :
        o.transfer_handler ≡ none
        → (s : State W) → s.current_connection ≡ some old
        → s.copy_session_state ≡ none
        → (field fd s.session_state).value ≡ some b
        → ((set_current_connection o g (some c) h s).1.current_connection ≡ some c)
          × ((set_current_connection o g (some c) h s).1.current_host_info ≡ h)
          × (flag fd c (set_current_connection o g (some c) h s).1.world ≡ b)
    unfolding set_current_connection set_from
    set_current_connection-transfers no_handler s at_old free e =
        let p = Switched-replace no_handler s free e in
        subst
          (λ cur.
            ((set_from o g cur (some c) h s).1.current_connection ≡ some c)
            × ((set_from o g cur (some c) h s).1.current_host_info ≡ h)
            × (flag fd c (set_from o g cur (some c) h s).1.world ≡ b))
          (sym at_old) (p.is_current, p.is_host, p.has_flag)
