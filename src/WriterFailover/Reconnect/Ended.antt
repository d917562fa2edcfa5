-- ===== src/WriterFailover/Reconnect/Ended.antt =====
-- writer_failover_handler.py: task A ends at the latest when the event is set.
use aws_advanced_python_wrap.Prelude.{
  ℕ, zero, suc, ◌-◌, ◌≤◌, ◌≡◌, refl, Bool, true, false, Option, none, some, is_some, List, [], ◌∷◌,
  if◌then◌else◌, arith,
}
use aws_advanced_python_wrap.Errors.{Exc}
use aws_advanced_python_wrap.Exec.{Result, ok, raised}
use aws_advanced_python_wrap.Exec.Endings.{Ends, Ends-ok, Ends-raised, Ends-bind}
use aws_advanced_python_wrap.Host.{HostInfo}
use aws_advanced_python_wrap.WriterFailover.{Service}
use aws_advanced_python_wrap.WriterFailover.Reconnect.{
  Locals, End, refreshed, refused, put_world, outside, close_conn, reconnect, pause,
  after_reconnect, loop, finish, reconnect_to_writer,
}

-- The time that is left until another thread sets the event: what the task calls takes none back,
-- and a pause takes some of it.
pub record Timed {W : Type 0} (v : Service W) (left : W → ℕ) : Type 0 where
  pub at_end : (w : W) → left w ≡ 0 → v.is_set w ≡ true
  pub sleep : (w : W) → left (v.sleep v.reconnect_writer_interval_sec w) ≤ left w - 1
  pub force_connect : (h : HostInfo) (w : W) → left (v.force_connect h w).1 ≤ left w
  pub force_refresh_host_list :
      (c : Option ℕ) (w : W) → left (v.force_refresh_host_list c w).1 ≤ left w
  pub close : (c : ℕ) (w : W) → left (v.close c w).1 ≤ left w

module _ {W : Type 0} (v : Service W) (initial : HostInfo) (left : W → ℕ)
    (timed : Timed v left) where
  -- No time was taken back since `n` was left.
  abbrev Within : ℕ → Locals W → Type 0
  Within n s = left s.world ≤ n

  put_world-Within :
      {A : Type 0} (n : ℕ) (s : Locals W) (p : Result Exc A × W)
      → left p.1 ≤ n
      → Ends (λ a. Within n) (λ e. Within n) (put_world s p)
  put_world-Within n s (ok a, w) h = Ends-ok a _ h
  put_world-Within n s (raised e, w) h = Ends-raised e _ h

  close_conn-Within :
      (n : ℕ) (o : Option ℕ) (s : Locals W)
      → Within n s
      → Ends (λ a. Within n) (λ e. Within n) (close_conn v initial o s)
  unfolding close_conn
  close_conn-Within n none s h = Ends-ok tt s h
  close_conn-Within n (some c) s h =
      put_world-Within n s (v.close c s.world) (omega (arith, h, timed.close c s.world))

  reconnect-Within :
      (n : ℕ) (s : Locals W)
      → Within n s
      → Ends (λ a. Within n) (λ e. Within n) (reconnect v initial s)
  unfolding reconnect
  reconnect-Within n s h =
      Ends-bind (close_conn v initial s.conn s) (close_conn-Within n s.conn s h) (λ x t p.
        Ends-bind (outside (v.force_connect initial) t)
          (put_world-Within n t (v.force_connect initial t.world)
            (omega (arith, p, timed.force_connect initial t.world)))
          (λ c u q.
            let u' = record u { conn = some c } in
            Ends-bind (outside (v.force_refresh_host_list (some c)) u')
              (put_world-Within n u' (v.force_refresh_host_list (some c) u.world)
                (omega (arith, q, timed.force_refresh_host_list (some c) u.world)))
              (λ y z r. Ends-ok (v.all_hosts z.world) z r)))

  abbrev Over : Option End × Locals W → Type 0
  Over x = is_some x.0 ≡ true

  either-Over :
      (b : Bool) (x y : Option End × Locals W)
      → (b ≡ true → Over x)
      → (b ≡ false → Over y)
      → Over (if b then x else y)
  either-Over true x y p q = p refl
  either-Over false x y p q = q refl

  after_reconnect-Over :
      (n : ℕ) (again : Locals W → Option End × Locals W) (r : Result Exc (List HostInfo) × Locals W)
      → ((s : Locals W) → Within (n - 1) s → Over (again s))
      → Ends (λ a. Within n) (λ e. Within n) r
      → Over (after_reconnect v initial again r)
  unfolding after_reconnect pause
  after_reconnect-Over n again (raised e, s) k h =
      either-Over (v.is_network_exception e) (again (pause v initial s)) (some (refused e), s)
        (λ b. k (pause v initial s) (let x = h.ending in omega (arith, x, timed.sleep s.world)))
        (λ b. refl)
  after_reconnect-Over n again (ok [], s) k h =
      k (pause v initial s) (let x = h.ending in omega (arith, x, timed.sleep s.world))
  after_reconnect-Over n again (ok (x ∷ hosts), s) k h = refl

  loop-Over : (n fuel : ℕ) (s : Locals W) → Within n s → suc n ≤ fuel → Over (loop v initial fuel s)
  unfolding loop
  loop-Over n zero s h le = absurd (omega (arith, le))
  loop-Over zero (suc fuel) s h le = rw (timed.at_end s.world (omega (arith, h))) refl
  loop-Over (suc n) (suc fuel) s h le =
      either-Over (v.is_set s.world) (some (refreshed [] false), s)
        (after_reconnect v initial (loop v initial fuel) (reconnect v initial s)) (λ b. refl)
        (λ b.
          after_reconnect-Over (suc n) (loop v initial fuel) (reconnect v initial s)
            (λ t h'. loop-Over n fuel t (omega (arith, h')) (omega (arith, le)))
            (reconnect-Within (suc n) s h))

  finish-Over : (p : Option End × Locals W) → Over p → is_some (finish v initial p).0 ≡ true
  unfolding finish
  finish-Over (none, s) h = cc
  finish-Over (some end, s) h = refl

  -- Let the event be set by another thread when a given time is over, of which each pause takes some
  -- and no call of the task gives any back. Then task A ends with a result within one more pass than
  -- the time that is left.
  pub reconnect_to_writer-ends :
      (w : W) → is_some (reconnect_to_writer v initial (suc (left w)) w).0 ≡ true
  unfolding reconnect_to_writer
  reconnect_to_writer-ends w =
      let s : Locals W = record { conn = none; world = w } in
      finish-Over (loop v initial (suc (left w)) s)
        (loop-Over (left w) (suc (left w)) s (omega arith) (omega arith))
