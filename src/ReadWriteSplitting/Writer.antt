-- ===== src/ReadWriteSplitting/Writer.antt =====
-- read_write_splitting_plugin.py: where `set_read_only` leaves the session.
use aws_advanced_python_wrap.Prelude.{
  ℕ, ◌≡◌, refl, ◌≢◌, sym, ap, ◌∙◌, true, false, not, ◌&&◌, Option, none, some, List, [], ◌∷◌,
  if◌then◌else◌, arith, Bool-cases, inl, inr,
}
use aws_advanced_python_wrap.Errors.{Exc, read_write_splitting_error}
use aws_advanced_python_wrap.Exec.Endings.{
  Ends, Ends-if, Ends-catch, Ends-bind, Ends-weaken, Ends-any, Ends-ok, Ends-raised,
}
use aws_advanced_python_wrap.Host.{HostInfo}
use aws_advanced_python_wrap.Host.Role.{HostRole, writer, reader, unknown, is_writer}
use aws_advanced_python_wrap.ReadWriteSplitting.{
  State, Service, is_connection, host_role, set_writer_connection, get_writer, is_connection_usable,
  switch_current_connection_to, get_new_writer_connection, forget_writer, forget_reader, close_idle,
  close_connection_if_idle, switch_to_kept, leave_reader, switch_to_writer_connection,
}
use aws_advanced_python_wrap.ReadWriteSplitting.Switch.{
  request_writable, request, refresh, is_closed_connection, switch_connection_if_required,
}

-- A plugin service that keeps what it promises: a connection that it is given and that is not
-- yet current is current then with the host given for it, a connection that it opens is not yet current, closing a connection leaves the
-- current host, and refreshing the topology leaves the current connection and the plugin's own.
pub record Lawful {W : Type 0} (v : Service W) : Type 0 where
  pub set_current :
      (c : ℕ) (h : HostInfo) (s : State W)
      → v.current_connection s.world ≢ some c
      → Ends
          (λ _ s'. v.current_host_info s'.world ≡ some h)
          (λ _ _. Unit {0})
          (v.set_current_connection c h s)
  pub opened :
      (h : HostInfo) (s : State W)
      → Ends (λ c s'. v.current_connection s'.world ≢ some c) (λ _ _. Unit {0}) (v.connect h s)
  pub closed :
      (c : ℕ) (s : State W)
      → v.current_host_info (v.close c s).1.world ≡ v.current_host_info s.world
  pub refreshed :
      (s : State W)
      → ((v.refresh_host_list s).1.writer_connection ≡ s.writer_connection)
        × (v.current_connection (v.refresh_host_list s).1.world ≡ v.current_connection s.world)

is_writer_eq : (r : HostRole) → is_writer r ≡ true → r ≡ writer
is_writer_eq writer e = refl
is_writer_eq reader e = cc
is_writer_eq unknown e = cc

is_connection_eq : (o : Option ℕ) (c : ℕ) → is_connection o c ≡ true → o ≡ some c
is_connection_eq none c e = cc
is_connection_eq (some d) c e = ground arith

module _ {W : Type 0} (v : Service W) (law : Lawful v) where
  open law use {set_current, opened, closed, refreshed}

  -- The kept writer connection is not the current one.
  abbrev Apart : State W → Type 0
  Apart s = (c : ℕ) → s.writer_connection ≡ some c → v.current_connection s.world ≢ some c

  abbrev AtWriter : State W → Type 0
  AtWriter s = (h : HostInfo) × (v.current_host_info s.world ≡ some h) × (h.role ≡ writer)

  abbrev Any : Exc → State W → Type 0
  Any _ _ = Unit {0}

  get_writer-Ends :
      (P : State W → Type 0) (hosts : List HostInfo) (s : State W)
      → P s
      → Ends (λ h s. P s × (h.role ≡ writer)) Any (get_writer hosts s)
  unfolding get_writer
  get_writer-Ends P [] s p = Ends-raised read_write_splitting_error s tt
  get_writer-Ends P (h ∷ hosts) s p = elim (Bool-cases (is_writer h.role)) [
    | inl e ↦ rw e (Ends-ok h s (p, is_writer_eq h.role e))
    | inr e ↦ rw e (get_writer-Ends P hosts s p)
  ]

  switch_current_connection_to-Ends :
      (c : ℕ) (h : HostInfo) (s : State W)
      → h.role ≡ writer
      → v.current_connection s.world ≢ some c
      → Ends (λ _. AtWriter) Any (switch_current_connection_to v c h s)
  unfolding switch_current_connection_to
  switch_current_connection_to-Ends c h s w apart =
      Ends-if (is_connection (v.current_connection s.world) c)
        (λ e. elim (apart (is_connection_eq (v.current_connection s.world) c e)) [ ])
        (λ e.
          Ends-weaken (v.set_current_connection c h s) (set_current c h s apart)
            (λ a s' at. (h, at, w)) (λ x s' t. tt))

  get_new_writer_connection-Ends :
      (h : HostInfo) (s : State W)
      → h.role ≡ writer
      → Ends (λ _. AtWriter) Any (get_new_writer_connection v h s)
  unfolding get_new_writer_connection set_writer_connection
  get_new_writer_connection-Ends h s w = Ends-bind (v.connect h s) (opened h s) (λ c s' ne.
      switch_current_connection_to-Ends c h
        (set_writer_connection c
          (record s' { is_writer_conn_from_internal_pool = v.is_pooled h s'.world }))
        w ne)

  AtWriter-frame :
      (s s' : State W)
      → v.current_host_info s'.world ≡ v.current_host_info s.world
      → AtWriter s
      → AtWriter s'
  AtWriter-frame s s' e (h, at, w) = (h, e ∙ at, w)

  forget_writer-frame : (c : ℕ) (s : State W) → (forget_writer v c s).world ≡ s.world
  unfolding forget_writer
  forget_writer-frame c s = ground arith

  forget_reader-frame : (c : ℕ) (s : State W) → (forget_reader v c s).world ≡ s.world
  unfolding forget_reader
  forget_reader-frame c s = ground arith

  close_idle-Ends :
      (c : ℕ) (s : State W) → AtWriter s → Ends (λ _. AtWriter) (λ _. AtWriter) (close_idle v c s)
  unfolding close_idle
  close_idle-Ends c s p =
      Ends-if
        (not (is_connection (v.current_connection s.world) c)
          && is_connection_usable v (some c) s.world)
        (λ e.
          Ends-bind (v.close c s)
            (Ends-any (v.close c s) (AtWriter-frame s (v.close c s).1 (closed c s) p) (λ a s' q. q)
              (λ x s' q. q))
            (λ _ s' q. Ends-ok tt (forget_reader v c (forget_writer v c s')) (
              AtWriter-frame s' (forget_reader v c (forget_writer v c s'))
                (ap v.current_host_info
                  (forget_reader-frame c (forget_writer v c s') ∙ forget_writer-frame c s'))
                q)))
        (λ e. Ends-ok tt s p)

  close_connection_if_idle-Ends :
      (o : Option ℕ) (s : State W)
      → AtWriter s
      → Ends (λ _. AtWriter) Any (close_connection_if_idle v o s)
  unfolding close_connection_if_idle
  close_connection_if_idle-Ends none s p = Ends-ok tt s p
  close_connection_if_idle-Ends (some c) s p =
      Ends-catch (close_idle v c s) (close_idle-Ends c s p) (λ e s' q. Ends-ok tt s' q)

  use_kept-Ends :
      (h : HostInfo) (s : State W) (o : Option ℕ)
      → h.role ≡ writer
      → ((c : ℕ) → o ≡ some c → v.current_connection s.world ≢ some c)
      → Ends
          (λ _. AtWriter)
          Any
          (if not (is_connection_usable v o s.world)
            then get_new_writer_connection v h s
            else switch_to_kept v o h s)
  unfolding is_connection_usable switch_to_kept
  use_kept-Ends h s none w p = get_new_writer_connection-Ends h s w
  use_kept-Ends h s (some c) w p =
      Ends-if (not (is_connection_usable v (some c) s.world))
        (λ e. get_new_writer_connection-Ends h s w)
        (λ e. switch_current_connection_to-Ends c h s w (p c refl))

  leave_reader-Ends :
      (hosts : List HostInfo) (s : State W)
      → Apart s
      → Ends (λ _. AtWriter) Any (leave_reader v hosts s)
  unfolding leave_reader
  leave_reader-Ends hosts s p =
      Ends-bind (get_writer hosts s) (get_writer-Ends Apart hosts s p) (λ h s' (p', w).
        let s1 = record s' { in_read_write_split = true } in
        Ends-bind
          (if not (is_connection_usable v s'.writer_connection s'.world)
            then get_new_writer_connection v h s1
            else switch_to_kept v s'.writer_connection h s1)
          (use_kept-Ends h s1 s'.writer_connection w p')
          (λ _ s2 q.
            Ends-if s2.is_reader_conn_from_internal_pool
              (λ e. close_connection_if_idle-Ends s2.reader_connection s2 q)
              (λ e. Ends-ok tt s2 q)))

  at_host :
      (o : Option HostInfo)
      → is_writer (host_role o) ≡ true
      → (h : HostInfo) × (o ≡ some h) × (h.role ≡ writer)
  at_host none e = cc
  at_host (some h) e = (h, refl, is_writer_eq h.role e)

  switch_to_writer_connection-Ends :
      (hosts : List HostInfo) (s : State W)
      → Apart s
      → Ends (λ _. AtWriter) Any (switch_to_writer_connection v hosts s)
  unfolding switch_to_writer_connection
  switch_to_writer_connection-Ends hosts s p =
      Ends-if
        (is_writer (host_role (v.current_host_info s.world))
          && is_connection_usable v (v.current_connection s.world) s.world)
        (λ e. Ends-ok tt s (at_host (v.current_host_info s.world) (ground arith)))
        (λ e. leave_reader-Ends hosts s p)

  request_writable-Ends :
      (hosts : List HostInfo) (h : HostInfo) (s : State W)
      → v.current_host_info s.world ≡ some h
      → Apart s
      → Ends (λ _. AtWriter) Any (request_writable v hosts h s)
  unfolding request_writable
  request_writable-Ends hosts h s at p =
      Ends-if (not (is_writer h.role))
        (λ e.
          Ends-if (v.is_in_transaction s.world) (λ t. Ends-raised read_write_splitting_error s tt)
            (λ t.
              Ends-catch (switch_to_writer_connection v hosts s)
                (switch_to_writer_connection-Ends hosts s p)
                (λ x s' q. Ends-raised read_write_splitting_error s' tt)))
        (λ e. Ends-ok tt s (h, at, is_writer_eq h.role (ground arith)))

  request-Ends :
      (conn : Option ℕ) (hosts : List HostInfo) (o : Option HostInfo) (s : State W)
      → v.current_host_info s.world ≡ o
      → Apart s
      → Ends (λ _. AtWriter) Any (request v false conn hosts o s)
  unfolding request
  request-Ends conn [] o s at p = Ends-raised read_write_splitting_error s tt
  request-Ends conn (h ∷ hosts) none s at p = Ends-raised read_write_splitting_error s tt
  request-Ends conn (h ∷ hosts) (some host) s at p = request_writable-Ends (h ∷ hosts) host s at p

  Apart-frame :
      (s s' : State W)
      → s'.writer_connection ≡ s.writer_connection
      → v.current_connection s'.world ≡ v.current_connection s.world
      → Apart s
      → Apart s'
  Apart-frame s s' e f p c at cur = p c (sym e ∙ at) (sym f ∙ cur)

  refresh-Ends : (o : Option ℕ) (s : State W) → Apart s → Ends (λ _. Apart) Any (refresh v o s)
  unfolding refresh
  refresh-Ends none s p = Ends-ok tt s p
  refresh-Ends (some c) s p =
      Ends-if (v.can_execute_query c s.world)
        (λ e.
          let q = Apart-frame s (v.refresh_host_list s).1 (refreshed s).0 (refreshed s).1 p in
          Ends-catch (v.refresh_host_list s)
            (Ends-any (v.refresh_host_list s) q (λ a s' x. x) (λ a s' x. x))
            (λ x s' r. Ends-ok tt s' r))
        (λ e. Ends-ok tt s p)

  -- Let the plugin service keep what `Lawful` says, and let the writer connection that the plugin
  -- keeps not be the current connection. When `set_read_only(False)` switches connections and does
  -- not raise, the current host afterwards has the role writer.
  pub switch_connection_if_required-writer :
      (s : State W)
      → Apart s
      → Ends
          (λ _ s'. (h : HostInfo) × (v.current_host_info s'.world ≡ some h) × (h.role ≡ writer))
          (λ _ _. Unit {0})
          (switch_connection_if_required v false s)
  unfolding switch_connection_if_required
  switch_connection_if_required-writer s p =
      Ends-if (is_closed_connection v (v.current_connection s.world) s.world)
        (λ e. Ends-raised read_write_splitting_error s tt)
        (λ e.
          Ends-bind (refresh v (v.current_connection s.world) s)
            (refresh-Ends (v.current_connection s.world) s p)
            (λ _ s' q.
              request-Ends (v.current_connection s.world) (v.hosts s'.world)
                (v.current_host_info s'.world) s' refl q))
