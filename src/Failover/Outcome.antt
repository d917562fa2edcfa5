-- ===== src/Failover/Outcome.antt =====
-- failover_plugin.py: how a failover ends.
use aws_advanced_python_wrap.Prelude.{
  ℕ, ◌≡◌, refl, ◌≢◌, subst, some_inj, sym, ap, ◌∙◌, ◌⊎◌, Bool, true, false, not, ◌||◌, Option, none,
  some, List, [], ◌∷◌, if◌then◌else◌, arith,
}
use aws_advanced_python_wrap.Errors.{
  Exc, attribute_error, failover_failed_error, failover_success_error,
  transaction_resolution_unknown_error,
}
use aws_advanced_python_wrap.Exec.{Result, ok, raised, throw, ◌>>=◌, ◌>>◌}
use aws_advanced_python_wrap.Exec.Endings.{
  Ends, Ends-if, Ends-bind, Ends-weaken, Ends-ok, Ends-raised,
}
use aws_advanced_python_wrap.Host.{HostInfo, mem}
use aws_advanced_python_wrap.Host.Role.{HostRole, writer, reader, unknown, unavailable, is_writer}
use aws_advanced_python_wrap.Failover.{
  Settings, State, Service, Act, WriterFailoverResult, outside, put_world, is_strict_writer,
  strict_writer, failover_reader, failover_writer, use_writer, writer_of, switch_to_writer,
  raise_given, conclude, get_writer, names,
}
use aws_advanced_python_wrap.Failover.Execute.{failover}

-- `set_current_connection` takes the connection it is given when there is no current one, or when it
-- is given one that is not current. Else it does nothing.
abbrev pub Takes : {W : Type 0} → Service W → Option ℕ → W → Type 0
Takes v c w =
    (v.current_connection w ≡ none) ⊎ ((d : ℕ) × (c ≡ some d) × (v.current_connection w ≢ some d))

-- What the plugin service and the handlers promise: a connection that is taken is current with the
-- host given for it, refreshing the topology keeps the current host, and none of them raises or
-- returns `FailoverSuccessError`, which is the plugin's own.
pub record Lawful {W : Type 0} (v : Service W) : Type 0 where
  pub set_current :
      (c : Option ℕ) (h : HostInfo) (w : W)
      → Takes v c w
      → Ends
          (λ _ w'. v.current_host_info w' ≡ some h)
          (λ e _. e ≢ failover_success_error)
          (v.set_current_connection c h w)
  pub refreshed :
      (w : W)
      → Ends
          (λ _ w'. v.current_host_info w' ≡ v.current_host_info w)
          (λ e _. e ≢ failover_success_error)
          (v.refresh_host_list w)
  pub handled :
      (hosts : List HostInfo) (w : W)
      → (v.writer_failover hosts w).0.exception ≢ some failover_success_error

is_writer_eq : (r : HostRole) → is_writer r ≡ true → r ≡ writer
is_writer_eq writer e = refl
is_writer_eq reader e = cc
is_writer_eq unknown e = cc

get_writer-role :
    (hosts : List HostInfo) (h : HostInfo) → get_writer hosts ≡ some h → is_writer h.role ≡ true
get_writer-role [] h e = cc
get_writer-role (x ∷ hosts) h e = chosen (is_writer x.role) refl (λ f. get_writer-role hosts h f) e
  where
    chosen :
        (b : Bool)
        → is_writer x.role ≡ b
        → (get_writer hosts ≡ some h → is_writer h.role ≡ true)
        → (if b then some x else get_writer hosts) ≡ some h
        → is_writer h.role ≡ true
    chosen true t later e = subst (λ y. is_writer y.role ≡ true) (some_inj e) t
    chosen false t later e = later e

module _ {W : Type 0} (v : Service W) (g : Settings) (law : Lawful v) where
  open law use {set_current, refreshed, handled}

  -- The world when the writer failover handler has answered.
  abbrev asked : W → W
  asked w = (v.writer_failover (v.all_hosts w) w).1

  -- When the handler answers that it is connected, the connection it answers is taken.
  abbrev AnswerTaken : W → Type 0
  AnswerTaken w =
      (v.writer_failover (v.all_hosts w) w).0.is_connected ≡ true
      → Takes v (v.writer_failover (v.all_hosts w) w).0.new_connection (asked w)

  -- The current host is a writer, whose name is among the hosts that were allowed in `w`.
  abbrev AtWriter : W → W → Type 0
  AtWriter w w' =
      (h : HostInfo) × (v.current_host_info w' ≡ some h)
      × (h.role ≡ writer)
      × (mem h.host (names (v.hosts w)) ≡ true)

  abbrev NoSuccess : Exc → State W → Type 0
  NoSuccess e _ = e ≢ failover_success_error

  -- After a step from `t`, with the plugin's note of the transaction kept.
  abbrev After : Bool → (W → Type 0) → State W → Type 0
  After t Q s = Q s.world × (s.is_in_transaction ≡ t)

  outside-Ends :
      (s : State W) (Q : W → Type 0) (op : W → Result Exc (Unit {0}) × W)
      → Ends (λ _. Q) (λ e _. e ≢ failover_success_error) (op s.world)
      → Ends (λ _. After s.is_in_transaction Q) NoSuccess (outside op s)
  outside-Ends s Q op h = outcome s Q (op s.world) h
    where
      outcome :
          (s : State W) (Q : W → Type 0) (r : Result Exc (Unit {0}) × W)
          → Ends (λ _. Q) (λ e _. e ≢ failover_success_error) r
          → Ends (λ _. After s.is_in_transaction Q) NoSuccess (put_world s r)
      outcome s Q (ok a, w) h = Ends-ok a (record s { world = w }) (h.ending, refl)
      outcome s Q (raised e, w) h = Ends-raised e (record s { world = w }) h.ending

  switch_to_writer-Ends :
      (c : Option ℕ) (o : Option HostInfo) (s : State W)
      → ((h : HostInfo) → o ≡ some h → is_writer h.role ≡ true)
      → Takes v c s.world
      → Ends
          (λ _. After s.is_in_transaction (AtWriter s.world))
          NoSuccess
          (switch_to_writer v g c o s)
  unfolding switch_to_writer
  switch_to_writer-Ends c none s w k = Ends-raised attribute_error s (λ e. cc)
  switch_to_writer-Ends c (some h) s w k =
      Ends-if (not (mem h.host (names (v.hosts s.world))))
        (λ e. Ends-raised failover_failed_error s (λ e. cc))
        (λ e. outside-Ends s (AtWriter s.world) (v.set_current_connection c h) (
          Ends-weaken (v.set_current_connection c h s.world) (set_current c h s.world k)
            (λ a w' at. (h, at, is_writer_eq h.role (w h refl), ground arith)) (λ x w' n. n)))

  topology-Ends :
      (c : Option ℕ) (o : Option (List HostInfo)) (s : State W)
      → Takes v c s.world
      → Ends
          (λ _. After s.is_in_transaction (AtWriter s.world))
          NoSuccess
          ((writer_of v g o >>= switch_to_writer v g c) s)
  unfolding writer_of
  topology-Ends c none s k = Ends-raised attribute_error s (λ e. cc)
  topology-Ends c (some topology) s k =
      switch_to_writer-Ends c (get_writer topology) s (get_writer-role topology) k

  use_writer-Ends :
      (r : WriterFailoverResult) (s : State W)
      → (r.is_connected ≡ true → Takes v r.new_connection s.world)
      → Ends (λ _. After s.is_in_transaction (AtWriter s.world)) NoSuccess (use_writer v g r s)
  unfolding use_writer
  use_writer-Ends r s k =
      connected r.is_connected s
        (writer_of v g r.topology >>= switch_to_writer v g r.new_connection)
        (λ e. topology-Ends r.new_connection r.topology s (k e))
    where
      connected :
          (b : Bool) (s : State W) (m : Act W (Unit {0}))
          → (b ≡ true → Ends (λ _. After s.is_in_transaction (AtWriter s.world)) NoSuccess (m s))
          → Ends
              (λ _. After s.is_in_transaction (AtWriter s.world))
              NoSuccess
              ((if not b then throw failover_failed_error else m) s)
      connected true s m h = h refl
      connected false s m h = Ends-raised failover_failed_error s (λ e. cc)

  raise_given-Ends :
      (o : Option Exc) (s : State W)
      → o ≢ some failover_success_error
      → Ends (λ _ s'. s' ≡ s) NoSuccess (raise_given v g o s)
  raise_given-Ends none s n = Ends-ok tt s refl
  raise_given-Ends (some e) s n = Ends-raised e s (λ p. n (ap some p))

  refresh-Ends :
      (t : Bool) (w : W) (s : State W)
      → After t (AtWriter w) s
      → Ends (λ _. After t (AtWriter w)) NoSuccess (outside v.refresh_host_list s)
  refresh-Ends t w s ((h, at, role, allowed), same) =
      Ends-weaken (outside v.refresh_host_list s)
        (outside-Ends s (AtWriter w) v.refresh_host_list (
          Ends-weaken (v.refresh_host_list s.world) (refreshed s.world)
            (λ a w' e. (h, e ∙ at, role, allowed)) (λ x w' n. n)))
        (λ a s' (p, same'). (p, same' ∙ same)) (λ x s' n. n)

  -- Let the plugin service and the handler keep what `Lawful` says, and let the connection of a
  -- connected answer of the handler be one that `set_current_connection` takes: there is no current
  -- one, or the answer's is given and is not current. A writer failover that returns leaves a writer
  -- as the current host, one that the allowed hosts named when the handler had answered; and it
  -- never raises `FailoverSuccessError`.
  pub failover_writer-Ends :
      (s : State W)
      → AnswerTaken s.world
      → Ends
          (λ _. After s.is_in_transaction (AtWriter (asked s.world)))
          NoSuccess
          (failover_writer v g s)
  unfolding failover_writer
  failover_writer-Ends s k =
      let r = (v.writer_failover (v.all_hosts s.world) s.world).0 in
      let s1 = record s { world = asked s.world } in
      let Q = After s.is_in_transaction (AtWriter (asked s.world)) in
      Ends-bind (raise_given v g r.exception s1)
        (raise_given-Ends r.exception s1 (handled (v.all_hosts s.world) s.world))
        (λ _ s' e.
          subst (λ x. Ends (λ _. Q) NoSuccess ((use_writer v g r >> outside v.refresh_host_list) x))
            (sym e)
            (Ends-bind (use_writer v g r s1) (use_writer-Ends r s1 k)
              (λ _ s2 q. refresh-Ends s.is_in_transaction (asked s.world) s2 q)))

  abbrev Succeeds : Bool → (W → Type 0) → Exc → State W → Type 0
  Succeeds t Q e s =
      e ≡ failover_success_error → Q s.world × (t ≡ false) × (v.is_in_transaction s.world ≡ false)

  conclude-Ends :
      (t : Bool) (Q : W → Type 0) (s : State W)
      → After t Q s
      → Ends (λ _ _. ⊥) (Succeeds t Q) (conclude v g s)
  unfolding conclude
  conclude-Ends t Q s (q, same) =
      Ends-if (s.is_in_transaction || v.is_in_transaction s.world)
        (λ e.
          Ends-raised transaction_resolution_unknown_error
            (record s { world = v.update_in_transaction false s.world }) (λ p. cc))
        (λ e.
          Ends-raised failover_success_error s (λ p. (q, sym same ∙ ground arith, ground arith)))

  search-Ends :
      g.failover_mode ≡ strict_writer
      → (failed : Option HostInfo) (s : State W) → AnswerTaken s.world
      → Ends
          (λ _ _. ⊥)
          (Succeeds s.is_in_transaction (AtWriter (asked s.world)))
          (((if is_strict_writer g.failover_mode
                then failover_writer v g
                else failover_reader v g failed)
              >> conclude v g)
            s)
  unfolding failover_writer conclude
  search-Ends mode failed s k = rw mode (
      Ends-bind (failover_writer v g s)
        (Ends-weaken (failover_writer v g s) (failover_writer-Ends s k) (λ a s' q. q)
          (λ e s' n p. elim (n p) [ ]))
        (λ _ s' q. conclude-Ends s.is_in_transaction (AtWriter (asked s.world)) s' q))

  -- The world in which `_failover` starts the search.
  abbrev marked : Option HostInfo → W → W
  marked none w = w
  marked (some h) w = v.set_availability h.all_aliases unavailable w

  -- Let the plugin service and the handler keep what `Lawful` says, and let the connection of a
  -- connected answer of the handler be one that `set_current_connection` takes: there is no current
  -- one, or the answer's is given and is not current. A failover in the mode STRICT_WRITER always
  -- raises. When it raises `FailoverSuccessError`, the current host is a writer that the allowed hosts
  -- named when the handler had answered, the plugin had noted no transaction for the call, and the
  -- plugin service is in none.
  pub failover-Ends :
      g.failover_mode ≡ strict_writer
      → (failed : Option HostInfo) (s : State W) → AnswerTaken (marked failed s.world)
      → Ends
          (λ _ _. ⊥)
          (Succeeds s.is_in_transaction (AtWriter (asked (marked failed s.world))))
          (failover v g failed s)
  unfolding failover
  failover-Ends mode none s k = search-Ends mode none s k
  failover-Ends mode (some h) s k =
      search-Ends mode (some h)
        (record s { world = v.set_availability h.all_aliases unavailable s.world }) k
