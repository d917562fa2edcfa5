-- ===== src/ReadWriteSplitting/Reliable.antt =====
-- read_write_splitting_plugin.py: when `set_read_only(False)` does not raise.
use aws_advanced_python_wrap.Prelude.{
  ℕ, ◌≡◌, refl, subst, sym, inl, inr, Bool, true, false, not, ◌&&◌, Bool-cases, Option, none, some,
  List, [], ◌∷◌, if◌then◌else◌, In,
}
use aws_advanced_python_wrap.Errors.{Exc}
use aws_advanced_python_wrap.Exec.{Result, ok, raised, ◌>>◌}
use aws_advanced_python_wrap.Exec.Endings.{Ends, Ends-if, Ends-catch, Ends-bind, Ends-any, Ends-ok}
use aws_advanced_python_wrap.Host.{HostInfo}
use aws_advanced_python_wrap.Host.Role.{is_writer}
use aws_advanced_python_wrap.ReadWriteSplitting.{
  State, Service, host_role, get_writer, is_connection, is_connection_usable,
  switch_current_connection_to, get_new_writer_connection, set_writer_connection, close_idle,
  close_connection_if_idle, switch_to_kept, leave_reader, switch_to_writer_connection,
}
use aws_advanced_python_wrap.ReadWriteSplitting.Switch.{
  request_writable, request, refresh, is_closed_connection, switch_connection_if_required,
}
use aws_advanced_python_wrap.ReadWriteSplitting.Transactions.{refresh-returns}

-- A plugin service whose connects and switches succeed.
pub record IsReliable {W : Type 0} (v : Service W) : Type 0 where
  pub set_current :
      (c : ℕ) (h : HostInfo) (s : State W)
      → Ends (λ _ _. Unit {0}) (λ _ _. ⊥) (v.set_current_connection c h s)
  pub opened : (h : HostInfo) (s : State W) → Ends (λ _ _. Unit {0}) (λ _ _. ⊥) (v.connect h s)

Ends-returned :
    {S : Type 0} (r : Result Exc (Unit {0}) × S) → Ends (λ _ _. Unit {0}) (λ _ _. ⊥) r → r.0 ≡ ok tt
Ends-returned (ok tt, s) e = refl
Ends-returned (raised x, s) e = absurd e.ending

module _ {W : Type 0} (v : Service W) (law : IsReliable v) where
  open law use {set_current, opened}

  abbrev Done : {A : Type 0} → A → State W → Type 0
  Done a s = Unit {0}

  abbrev Never : Exc → State W → Type 0
  Never e s = ⊥

  switch_current-returns :
      (c : ℕ) (h : HostInfo) (s : State W) → Ends Done Never (switch_current_connection_to v c h s)
  unfolding switch_current_connection_to
  switch_current-returns c h s =
      Ends-if (is_connection (v.current_connection s.world) c) (λ e. Ends-ok tt s tt)
        (λ e. set_current c h s)

  get_new_writer-returns :
      (h : HostInfo) (s : State W) → Ends Done Never (get_new_writer_connection v h s)
  unfolding get_new_writer_connection
  get_new_writer-returns h s = Ends-bind (v.connect h s) (opened h s) (λ c s' t.
      switch_current-returns c h (
        set_writer_connection c
          (record s' { is_writer_conn_from_internal_pool = v.is_pooled h s'.world })))

  close_if_idle-returns :
      (o : Option ℕ) (s : State W) → Ends Done Never (close_connection_if_idle v o s)
  unfolding close_connection_if_idle
  close_if_idle-returns none s = Ends-ok tt s tt
  close_if_idle-returns (some c) s =
      Ends-catch {R' = λ _ _. Unit {0}} (close_idle v c s)
        (Ends-any {P = λ _. Unit {0}} (close_idle v c s) tt (λ a s' t. tt) (λ e s' t. tt))
        (λ e s' t. Ends-ok tt s' tt)

  get_writer-returns :
      (hosts : List HostInfo) (w : HostInfo) (s : State W)
      → In w hosts
      → is_writer w.role ≡ true
      → Ends Done Never (get_writer hosts s)
  unfolding get_writer
  get_writer-returns [] w s i r = absurd i
  get_writer-returns (h ∷ hosts) w s i r = elim (Bool-cases (is_writer h.role)) [
    | inl e ↦ rw e (Ends-ok h s tt)
    | inr e ↦ rw e (get_writer-returns hosts w s (elim i [ inl p ↦ cc | inr j ↦ j ]) r)
  ]

  use_kept-returns :
      (h : HostInfo) (o : Option ℕ) (s : State W)
      → Ends Done Never (
          if not (is_connection_usable v o s.world)
          then get_new_writer_connection v h s
          else switch_to_kept v o h s)
  unfolding switch_to_kept
  use_kept-returns h none s =
      Ends-if (not (is_connection_usable v none s.world)) (λ e. get_new_writer-returns h s)
        (λ e. Ends-ok tt s tt)
  use_kept-returns h (some c) s =
      Ends-if (not (is_connection_usable v (some c) s.world)) (λ e. get_new_writer-returns h s)
        (λ e. switch_current-returns c h s)

  leave_reader-returns :
      (hosts : List HostInfo) (w : HostInfo) (s : State W)
      → In w hosts
      → is_writer w.role ≡ true
      → Ends Done Never (leave_reader v hosts s)
  unfolding leave_reader
  leave_reader-returns hosts w s i r =
      Ends-bind (get_writer hosts s) (get_writer-returns hosts w s i r) (λ h s' t.
        let s1 = record s' { in_read_write_split = true } in
        Ends-bind
          (if not (is_connection_usable v s'.writer_connection s'.world)
            then get_new_writer_connection v h s1
            else switch_to_kept v s'.writer_connection h s1)
          (use_kept-returns h s'.writer_connection s1)
          (λ _ s2 q.
            Ends-if s2.is_reader_conn_from_internal_pool
              (λ e. close_if_idle-returns s2.reader_connection s2) (λ e. Ends-ok tt s2 tt)))

  switch_to_writer-returns :
      (hosts : List HostInfo) (w : HostInfo) (s : State W)
      → In w hosts
      → is_writer w.role ≡ true
      → Ends Done Never (switch_to_writer_connection v hosts s)
  unfolding switch_to_writer_connection
  switch_to_writer-returns hosts w s i r =
      Ends-if
        (is_writer (host_role (v.current_host_info s.world))
          && is_connection_usable v (v.current_connection s.world) s.world)
        (λ e. Ends-ok tt s tt) (λ e. leave_reader-returns hosts w s i r)

  request-returns :
      (conn : Option ℕ) (hosts : List HostInfo) (w host : HostInfo) (s : State W)
      → v.is_in_transaction s.world ≡ false
      → In w hosts
      → is_writer w.role ≡ true
      → Ends Done Never (request v false conn hosts (some host) s)
  unfolding request request_writable
  request-returns conn [] w host s t i r = absurd i
  request-returns conn (h ∷ hosts) w host s t i r =
      Ends-if (not (is_writer host.role))
        (λ e.
          Ends-if (v.is_in_transaction s.world)
            (λ u. absurd (clash (v.is_in_transaction s.world) u t))
            (λ u.
              Ends-catch {R' = Never} (switch_to_writer_connection v (h ∷ hosts) s)
                (switch_to_writer-returns (h ∷ hosts) w s i r) (λ e s' n. absurd n)))
        (λ e. Ends-ok tt s tt)
    where
      clash : (b : Bool) → b ≡ true → b ≡ false → ⊥
      clash true p q = cc
      clash false p q = cc

  after_refresh :
      (r : Result Exc (Unit {0}) × State W) (f : State W → Result Exc (Unit {0}) × State W)
      → r.0 ≡ ok tt
      → Ends Done Never (f r.1)
      → Ends Done Never (((λ s. r) >> f) r.1)
  after_refresh (ok tt, s) f e h = h
  after_refresh (raised x, s) f e h = absurd (differ e)
    where
      differ : raised x ≡ ok tt → ⊥
      differ p = cc

  -- Let connecting and switching not fail. When `set_read_only(False)` is called over an open
  -- connection, and after the refresh of the topology the session is in no transaction, has a
  -- current host, and the topology has a writer, the switch of connections does not raise.
  pub switch_connection_if_required-returns :
      (s : State W) (w host : HostInfo)
      → is_closed_connection v (v.current_connection s.world) s.world ≡ false
      → v.is_in_transaction (refresh v (v.current_connection s.world) s).1.world ≡ false
      → v.current_host_info (refresh v (v.current_connection s.world) s).1.world ≡ some host
      → In w (v.hosts (refresh v (v.current_connection s.world) s).1.world)
      → is_writer w.role ≡ true
      → (switch_connection_if_required v false s).0 ≡ ok tt
  unfolding switch_connection_if_required
  switch_connection_if_required-returns s w host open_now t at i r =
      let conn = v.current_connection s.world in
      let s' = (refresh v conn s).1 in
      rw open_now (
        Ends-returned _ (
          after_refresh (refresh v conn s)
            (λ s. request v false conn (v.hosts s.world) (v.current_host_info s.world) s)
            (refresh-returns v conn s)
            (subst (λ o. Ends Done Never (request v false conn (v.hosts s'.world) o s')) (sym at)
              (request-returns conn (v.hosts s'.world) w host s' t i r))))
