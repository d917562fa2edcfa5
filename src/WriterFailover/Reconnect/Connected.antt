-- ===== src/WriterFailover/Reconnect/Connected.antt =====
-- writer_failover_handler.py: what a connection of task A is.
use aws_advanced_python_wrap.Prelude.{
  ℕ, zero, suc, ◌≡◌, refl, ◌∙◌, sym, Bool, true, false, Option, none, some, List, [], ◌∷◌,
  if◌then◌else◌,
}
use aws_advanced_python_wrap.Errors.{Exc}
use aws_advanced_python_wrap.Exec.{Result, ok, raised}
use aws_advanced_python_wrap.Exec.Endings.{Ends, Ends-ok, Ends-raised, Ends-bind, Ends-weaken}
use aws_advanced_python_wrap.Host.{HostInfo}
use aws_advanced_python_wrap.Failover.{WriterFailoverResult}
use aws_advanced_python_wrap.WriterFailover.{Service, is_current_host_writer}
use aws_advanced_python_wrap.WriterFailover.Reconnect.{
  Locals, End, refreshed, refused, put_world, outside, close_conn, reconnect, pause,
  after_reconnect, loop, conclude, finish, reconnect_to_writer,
}

module _ {W : Type 0} (v : Service W) (initial : HostInfo) where
  -- One round of the loop: it connected to the host, refreshed the hosts by that connection, and then
  -- saw `hosts`.
  abbrev pub Round : ℕ → List HostInfo → Type 0
  Round c hosts =
      (w : W) × (w' : W) × (w'' : W) × (v.force_connect initial w ≡ (ok c, w'))
      × (v.force_refresh_host_list (some c) w' ≡ (ok tt, w''))
      × (hosts ≡ v.all_hosts w'')

  abbrev Seen : List HostInfo → Locals W → Type 0
  Seen hosts s = (c : ℕ) × (s.conn ≡ some c) × Round c hosts

  put_world-Ends :
      {A : Type 0} (s : Locals W) (p : Result Exc A × W)
      → Ends (λ a t. (p ≡ (ok a, t.world)) × (t.conn ≡ s.conn)) (λ e t. Unit {0}) (put_world s p)
  put_world-Ends s (ok a, w) = Ends-ok a _ (refl, refl)
  put_world-Ends s (raised e, w) = Ends-raised e _ tt

  close_conn-Ends :
      (o : Option ℕ) (s : Locals W)
      → Ends (λ a t. Unit {0}) (λ e t. Unit {0}) (close_conn v initial o s)
  unfolding close_conn
  close_conn-Ends none s = Ends-ok tt s tt
  close_conn-Ends (some c) s =
      Ends-weaken (outside (v.close c) s) (put_world-Ends s (v.close c s.world)) (λ a t h. tt)
        (λ e t h. tt)

  reconnect-Ends : (s : Locals W) → Ends Seen (λ e t. Unit {0}) (reconnect v initial s)
  unfolding reconnect
  reconnect-Ends s = Ends-bind (close_conn v initial s.conn s) (close_conn-Ends s.conn s) (λ x t h.
      Ends-bind (outside (v.force_connect initial) t)
        (put_world-Ends t (v.force_connect initial t.world))
        (λ c u (p, q).
          let u' = record u { conn = some c } in
          Ends-bind (outside (v.force_refresh_host_list (some c)) u')
            (put_world-Ends u' (v.force_refresh_host_list (some c) u.world))
            (λ y z (p', q').
              Ends-ok (v.all_hosts z.world) z (c, q', (t.world, u.world, z.world, p, p', refl)))))

  -- What is known when the loop is left.
  Known : Option End × Locals W → Type 0
  Known (none, s) = Unit
  Known (some (refused e), s) = Unit
  Known (some (refreshed [] success), s) = success ≡ false
  Known (some (refreshed (h ∷ hosts) success), s) =
      (success ≡ is_current_host_writer (h ∷ hosts) initial) × Seen (h ∷ hosts) s

  either-Known :
      (b : Bool) (x y : Option End × Locals W) → Known x → Known y → Known (if b then x else y)
  either-Known true x y p q = p
  either-Known false x y p q = q

  after_reconnect-Known :
      (again : Locals W → Option End × Locals W) (r : Result Exc (List HostInfo) × Locals W)
      → ((s : Locals W) → Known (again s))
      → Ends Seen (λ e t. Unit {0}) r
      → Known (after_reconnect v initial again r)
  unfolding after_reconnect Known
  after_reconnect-Known again (raised e, s) k h =
      either-Known (v.is_network_exception e) (again (pause v initial s)) (some (refused e), s)
        (k (pause v initial s)) tt
  after_reconnect-Known again (ok [], s) k h = k (pause v initial s)
  after_reconnect-Known again (ok (x ∷ hosts), s) k h = (refl, h.ending)

  loop-Known : (fuel : ℕ) (s : Locals W) → Known (loop v initial fuel s)
  unfolding loop Known
  loop-Known zero s = tt
  loop-Known (suc fuel) s =
      either-Known (v.is_set s.world) (some (refreshed [] false), s)
        (after_reconnect v initial (loop v initial fuel) (reconnect v initial s)) refl
        (after_reconnect-Known (loop v initial fuel) (reconnect v initial s) (loop-Known fuel)
          (reconnect-Ends s))

  -- A result of the task that says it is connected.
  abbrev pub Connected : WriterFailoverResult → Type 0
  Connected r =
      (c : ℕ) × (hosts : List HostInfo) × (r.new_connection ≡ some c)
      × (r.topology ≡ some hosts)
      × (is_current_host_writer hosts initial ≡ true)
      × Round c hosts

  -- What is known of the result.
  abbrev pub Sound : Option WriterFailoverResult → Type 0
  Sound none = Unit
  Sound (some r) =
      (r.is_connected ≡ true → Connected r) × (r.is_connected ≡ false → r.new_connection ≡ none)

  finish-Sound : (p : Option End × Locals W) → Known p → Sound (finish v initial p).0
  unfolding finish Known conclude
  finish-Sound (none, s) k = tt
  finish-Sound (some (refused e), s) k = (λ e. cc, λ e. refl)
  finish-Sound (some (refreshed [] success), s) k = (λ e. cc, λ e. rw k refl)
  finish-Sound (some (refreshed (h ∷ hosts) success), s) (k, (c, e, round)) =
      (λ q. (c, h ∷ hosts, rw q e, refl, sym k ∙ q, round), λ q. rw q refl)

  -- Whenever task A gives a result: if it says that it is connected, then its connection is the one of
  -- a round that connected to the old writer and refreshed the hosts by it, its topology is the one
  -- seen after that, and the writer of that topology shares an alias with the old writer. If it does
  -- not say so, then it has no connection.
  pub reconnect_to_writer-Sound :
      (fuel : ℕ) (w : W) → Sound (reconnect_to_writer v initial fuel w).0
  unfolding reconnect_to_writer
  reconnect_to_writer-Sound fuel w =
      finish-Sound (loop v initial fuel (record { conn = none; world = w }))
        (loop-Known fuel (record { conn = none; world = w }))
