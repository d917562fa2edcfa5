-- ===== src/Session/Transfer.antt =====
-- states/session_state_service.py: `apply_current_session_state` sets every recorded value on the
-- connection that it is given.
use aws_advanced_python_wrap.Prelude.{
  some_inj, ℕ, ◌≡◌, refl, ◌≢◌, ◌⊎◌, inl, sym, ap, ◌∙◌, Bool, true, false, not, Option, none, some,
  if◌then◌else◌,
}
use aws_advanced_python_wrap.Errors.{Exc}
use aws_advanced_python_wrap.Exec.{Result, ok, Exec, pure, ◌>>=◌, ◌>>◌}
use aws_advanced_python_wrap.Session.{SessionState}
use aws_advanced_python_wrap.Session.Service.{
  Outside, Settings, State, Field, auto_commit, readonly, field, set_field, Act, outside,
  set_pristine, ConnectionEvent, read_op, write_op, setup_pristine, pristine_from, transfer_value,
  transfer_field, transfer_by, apply_current_session_state,
}

-- A driver whose connections hold the two flags: writing a flag succeeds and changes that flag
-- alone, reading it changes nothing, and neither a rollback, nor closing a connection, nor a
-- notification of the plugins changes any.
pub record KeepsFlags {W : Type 0} (o : Outside W) : Type 0 where
  pub flag : Field → ℕ → W → Bool
  pub write_done : (fd : Field) (c : ℕ) (b : Bool) (w : W) → (write_op o fd c b w).0 ≡ ok tt
  pub write_self : (fd : Field) (c : ℕ) (b : Bool) (w : W) → flag fd c (write_op o fd c b w).1 ≡ b
  pub write_frame :
      (fd fd' : Field) (c c' : ℕ) (b : Bool) (w : W)
      → (fd' ≢ fd) ⊎ (c' ≢ c)
      → flag fd' c' (write_op o fd c b w).1 ≡ flag fd' c' w
  pub read_done : (fd : Field) (c : ℕ) (w : W) → read_op o fd c w ≡ (ok (flag fd c w), w)
  pub rollback_frame :
      (fd : Field) (c c' : ℕ) (w : W) → flag fd c' (o.rollback c w).1 ≡ flag fd c' w
  pub close_frame : (fd : Field) (c c' : ℕ) (w : W) → flag fd c' (o.close c w).1 ≡ flag fd c' w
  pub notify_frame :
      (fd : Field) (e : ConnectionEvent) (c' : ℕ) (w : W)
      → flag fd c' (o.notify e w).1 ≡ flag fd c' w

module _ {W : Type 0} (o : Outside W) (g : Settings) (k : KeepsFlags o)
    (on : g.transfer_session_state_on_switch ≡ true) where
  open k use {
    flag, write_done, write_self, write_frame, read_done, rollback_frame, close_frame, notify_frame,
  }

  -- What transferring one field to a connection does.
  record Moved (fd : Field) (c : ℕ) (s s' : State W) : Type 0 where
    same_connection : s'.current_connection ≡ s.current_connection
    same_host : s'.current_host_info ≡ s.current_host_info
    same_value :
        (fd' : Field) → (field fd' s'.session_state).value ≡ (field fd' s.session_state).value
    set_flag : (b : Bool) → (field fd s.session_state).value ≡ some b → flag fd c s'.world ≡ b
    other_flag : (fd' : Field) → fd' ≢ fd → flag fd' c s'.world ≡ flag fd' c s.world

  value-set_pristine :
      (fd fd' : Field) (p : Option Bool) (s : State W)
      → (field fd' (set_pristine fd p s).session_state).value ≡ (field fd' s.session_state).value
  unfolding field set_field
  value-set_pristine auto_commit auto_commit p s = refl
  value-set_pristine auto_commit readonly p s = refl
  value-set_pristine readonly auto_commit p s = refl
  value-set_pristine readonly readonly p s = refl

  -- Recording the pristine value changes nothing but that.
  pristine_from-done :
      (fd : Field) (current : Option ℕ) (s : State W)
      → (p : Option Bool) × (pristine_from o g fd none current s ≡ (ok tt, set_pristine fd p s))
  unfolding pristine_from
  pristine_from-done fd none s = (none, refl)
  pristine_from-done fd (some c) s = (some (flag fd c s.world), rw (read_done fd c s.world) refl)

  blank_pristine :
      (fd : Field) (s : State W)
      → (field fd (set_pristine fd none s).session_state).pristine_value ≡ none
  unfolding field set_field
  blank_pristine auto_commit s = refl
  blank_pristine readonly s = refl

  setup_pristine-done :
      (fd : Field) (s : State W)
      → (p : Option Bool) × (setup_pristine o g fd none (set_pristine fd none s)
          ≡ (ok tt, set_pristine fd p (set_pristine fd none s)))
  unfolding setup_pristine
  setup_pristine-done fd s =
      let t = set_pristine fd none s in
      let (p, e) = pristine_from-done fd t.current_connection t in
      (p, rw (on, blank_pristine fd s) e)

  ran :
      {A : Type 0} (t : State W) (x : Result Exc A × W) (a : A)
      → x.0 ≡ ok a
      → (r : Exec (State W) Exc A) → (r t ≡ (x.0, record t { world = x.1 }))
      → r t ≡ (ok a, record t { world = x.1 })
  ran t x a e r h = h ∙ ap (λ y. (y, record t { world = x.1 })) e

  write-done :
      (fd : Field) (c : ℕ) (b : Bool) (t : State W)
      → outside (write_op o fd c b) t ≡ (ok tt, record t { world = (write_op o fd c b t.world).1 })
  write-done fd c b t =
      ran t (write_op o fd c b t.world) tt (write_done fd c b t.world) (outside (write_op o fd c b))
        refl

  transfer_value-Moved :
      (fd : Field) (c : ℕ) (v : Option Bool) (s : State W)
      → (field fd s.session_state).value ≡ v
      → (s' : State W) × (transfer_value o g fd c v s ≡ (ok tt, s')) × Moved fd c s s'
  unfolding transfer_value
  transfer_value-Moved fd c none s e = (
    s,
    refl,
    record {
      same_connection = refl;
      same_host = refl;
      same_value = λ fd'. refl;
      set_flag = λ b h. cc;
      other_flag = λ fd' ne. refl;
    },
  )
  transfer_value-Moved fd c (some b) s e =
      let (p, done) = setup_pristine-done fd s in
      let t = set_pristine fd p (set_pristine fd none s) in
      (
        record t { world = (write_op o fd c b s.world).1 },
        rw done (write-done fd c b t),
        record {
          same_connection = refl;
          same_host = refl;
          same_value = λ fd'.
              value-set_pristine fd fd' p (set_pristine fd none s)
              ∙ value-set_pristine fd fd' none s;
          set_flag = λ b' h. write_self fd c b s.world ∙ some_inj (sym e ∙ h);
          other_flag = λ fd' ne. write_frame fd fd' c c b s.world (inl ne);
        },
      )

  transfer_field-Moved :
      (fd : Field) (c : ℕ) (s : State W)
      → (s' : State W) × (transfer_field o g fd c s ≡ (ok tt, s')) × Moved fd c s s'
  unfolding transfer_field
  transfer_field-Moved fd c s = transfer_value-Moved fd c (field fd s.session_state).value s refl

  -- The state after a transfer to `c`.
  pub record Transferred (c : ℕ) (s s' : State W) : Type 0 where
    pub same_connection : s'.current_connection ≡ s.current_connection
    pub same_host : s'.current_host_info ≡ s.current_host_info
    pub set_flags :
        (fd : Field) (b : Bool) → (field fd s.session_state).value ≡ some b → flag fd c s'.world ≡ b

  auto_commit_ne_readonly : auto_commit ≢ readonly
  auto_commit_ne_readonly e = cc

  set_flags_of :
      {c : ℕ} {s s' s'' : State W}
      → Moved auto_commit c s s'
      → Moved readonly c s' s''
      → (fd : Field) (b : Bool) → (field fd s.session_state).value ≡ some b
      → flag fd c s''.world ≡ b
  set_flags_of m n auto_commit b h =
      n.other_flag auto_commit auto_commit_ne_readonly ∙ m.set_flag b h
  set_flags_of m n readonly b h = n.set_flag b (m.same_value readonly ∙ h)

  both-Transferred :
      (c : ℕ) (s s' s'' : State W)
      → Moved auto_commit c s s'
      → Moved readonly c s' s''
      → Transferred c s s''
  both-Transferred c s s' s'' m n = record {
    same_connection = n.same_connection ∙ m.same_connection;
    same_host = n.same_host ∙ m.same_host;
    set_flags = λ fd. set_flags_of m n fd;
  }

  pub run_pair :
      (m n : Act W (Unit {0})) (s s' : State W) (r : Result Exc (Unit {0}) × State W)
      → m s ≡ (ok tt, s')
      → n s' ≡ r
      → (m >> n) s ≡ r
  run_pair m n s s' r e f = rw e f

  pub unhandled :
      (b : Bool) (h : Option (SessionState → ℕ → W → Result Exc Bool × W)) (m : Act W (Unit {0}))
      (c : ℕ) (s : State W)
      → b ≡ true
      → h ≡ none
      → (if not b
            then pure tt
            else (transfer_by o g h c >>= λ handled. if handled then pure tt else m))
          s
        ≡ m s
  unfolding transfer_by
  unhandled true none m c s e f = refl
  unhandled true (some h) m c s e f = cc
  unhandled false h m c s e f = cc

  pub apply_current-Transferred :
      o.transfer_handler ≡ none
      → (c : ℕ) (s : State W)
      → (s' : State W) × (apply_current_session_state o g c s ≡ (ok tt, s')) × Transferred c s s'
  unfolding apply_current_session_state
  apply_current-Transferred no_handler c s =
      let (s1, e1, m) = transfer_field-Moved auto_commit c s in
      let (s2, e2, n) = transfer_field-Moved readonly c s1 in
      let ma = transfer_field o g auto_commit c in
      let mr = transfer_field o g readonly c in
      (
        s2,
        unhandled g.transfer_session_state_on_switch o.transfer_handler (ma >> mr) c s on no_handler
            ∙ run_pair ma mr s s1 (ok tt, s2) e1 e2,
        both-Transferred c s s1 s2 m n,
      )
