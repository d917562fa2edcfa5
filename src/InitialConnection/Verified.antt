-- ===== src/InitialConnection/Verified.antt =====
-- aurora_initial_connection_strategy_plugin.py: a connection that the writer loop returns is verified.
use aws_advanced_python_wrap.Prelude.{
  ℕ, zero, suc, ◌+◌, ◌*◌, ◌≡◌, ◌⊎◌, refl, Bool, true, false, inl, inr, ltb, Option, none, some,
  if◌then◌else◌,
}
use aws_advanced_python_wrap.Errors.{Exc}
use aws_advanced_python_wrap.Exec.{Exec, Result, ok, raised, ignore, ◌>>◌}
use aws_advanced_python_wrap.Exec.Endings.{
  Ends, Ends-ok, Ends-raised, Ends-bind, Ends-if, Ends-catch, Ends-any,
}
use aws_advanced_python_wrap.Host.{HostInfo}
use aws_advanced_python_wrap.Host.Role.{HostRole, is_writer}
use aws_advanced_python_wrap.InitialConnection.{
  Service, Attempt, verified, retry, has_role, get_writer, close_and_retry, note_initial, accept,
  closing, judge_identified, identify_and_judge, by_endpoint, judge_role, ask_role, by_writer,
  attempt, after_attempt, loop, get_verified_writer_connection,
}

module _ {W : Type 0} (v : Service W) (is_initial : Bool) (connect_func : Exec W Exc ℕ) where
  -- The connection says that it leads to a writer, or the host that it was identified as is a writer
  -- or is not known.
  abbrev pub IsWriter : ℕ → Type 0
  IsWriter c =
      ((role : HostRole) × (w : W) × (w' : W) × (v.get_host_role c w ≡ (ok role, w'))
        × (is_writer role ≡ true))
      ⊎ ((o : Option HostInfo) × (w : W) × (w' : W) × (v.identify_connection c w ≡ (ok o, w'))
          × (has_role is_writer o ≡ true))

  abbrev Good : Attempt → Type 0
  Good retry = Unit
  Good (verified c) = IsWriter c

  GoodEnd : Result Exc Attempt × W → Type 0
  GoodEnd r = Ends (λ a w. Good a) (λ e w. Unit {0}) r

  made : {A : Type 0} (p : Result Exc A × W) → Ends (λ a w. p ≡ (ok a, w)) (λ e w. Unit {0}) p
  made (ok a, w) = Ends-ok a w refl
  made (raised e, w) = Ends-raised e w tt

  anything : {A : Type 0} (p : Result Exc A × W) → Ends (λ a w. Unit {0}) (λ e w. Unit {0}) p
  anything p = Ends-any {P = λ w. Unit} p tt (λ a w h. tt) (λ e w h. tt)

  close_and_retry-Good : (c : ℕ) (w : W) → GoodEnd (close_and_retry v is_initial connect_func c w)
  unfolding close_and_retry GoodEnd
  close_and_retry-Good c w =
      Ends-bind (ignore (v.close c) w) (anything (ignore (v.close c) w))
        (λ a u h. Ends-ok retry (v.delay v.retry_interval_ms u) tt)

  accept-Good :
      (c : ℕ) (o : Option HostInfo) (w : W)
      → IsWriter c
      → GoodEnd (accept v is_initial connect_func c o w)
  unfolding accept GoodEnd
  accept-Good c o w i = Ends-ok (verified c) (note_initial v is_initial connect_func o w) i

  closing-Good :
      (c : ℕ) (m : Exec W Exc Attempt) (w : W)
      → GoodEnd (m w)
      → GoodEnd (closing v is_initial connect_func c m w)
  unfolding closing GoodEnd
  closing-Good c m w g = Ends-catch (m w) g (λ e u h.
      Ends-bind (ignore (v.close c) u) (anything (ignore (v.close c) u))
        (λ a z y. Ends-raised e z tt))

  chosen :
      (b : Bool) (x y : Exec W Exc Attempt) (w : W)
      → (b ≡ true → GoodEnd (x w))
      → (b ≡ false → GoodEnd (y w))
      → GoodEnd ((if b then x else y) w)
  chosen true x y w p q = p refl
  chosen false x y w p q = q refl

  by_endpoint-Good : (w : W) → GoodEnd (by_endpoint v is_initial connect_func w)
  unfolding by_endpoint identify_and_judge judge_identified GoodEnd
  by_endpoint-Good w = Ends-bind (connect_func w) (anything (connect_func w)) (λ c u h.
      closing-Good c (identify_and_judge v is_initial connect_func c) u (
        Ends-bind (v.force_refresh_host_list c u) (anything (v.force_refresh_host_list c u))
          (λ a t y.
            Ends-bind (v.identify_connection c t) (made (v.identify_connection c t)) (λ o z e.
              chosen (has_role is_writer o) (accept v is_initial connect_func c o)
                (close_and_retry v is_initial connect_func c) z
                (λ b. accept-Good c o z (inr (o, t, z, e, b))) (λ b. close_and_retry-Good c z)))))

  by_writer-Good : (h : HostInfo) (w : W) → GoodEnd (by_writer v is_initial connect_func h w)
  unfolding by_writer ask_role judge_role GoodEnd
  by_writer-Good h w = Ends-bind (v.connect h w) (anything (v.connect h w)) (λ c u y.
      closing-Good c (ask_role v is_initial connect_func h c) u (
        Ends-bind (v.get_host_role c u) (made (v.get_host_role c u)) (λ role z e.
          chosen (is_writer role) (accept v is_initial connect_func c (some h))
            (v.force_refresh_host_list c >> close_and_retry v is_initial connect_func c) z
            (λ b. accept-Good c (some h) z (inl (role, u, z, e, b)))
            (λ b.
              Ends-bind (v.force_refresh_host_list c z) (anything (v.force_refresh_host_list c z))
                (λ a t x. close_and_retry-Good c t)))))

  attempt-Good : (o : Option HostInfo) (w : W) → GoodEnd (attempt v is_initial connect_func o w)
  unfolding attempt
  attempt-Good none w = by_endpoint-Good w
  attempt-Good (some h) w =
      chosen (v.is_rds_cluster_dns h.host) (by_endpoint v is_initial connect_func)
        (by_writer v is_initial connect_func h) w (λ b. by_endpoint-Good w)
        (λ b. by_writer-Good h w)

  -- What the loop answers: no fuel, no connection in time, or a verified one.
  abbrev pub Answers : Option (Option ℕ) → Type 0
  Answers none = Unit
  Answers (some none) = Unit
  Answers (some (some c)) = IsWriter c

  after_attempt-Answers :
      (again : Exec W Exc (Option (Option ℕ))) (a : Attempt) (w : W)
      → Good a
      → ((u : W) → Ends (λ o z. Answers o) (λ e z. Unit {0}) (again u))
      → Ends
          (λ o z. Answers o)
          (λ e z. Unit {0})
          (after_attempt v is_initial connect_func again a w)
  after_attempt-Answers again (verified c) w g k = Ends-ok (some (some c)) w g
  after_attempt-Answers again retry w g k = k w

  loop-Answers :
      (fuel end_time : ℕ) (w : W)
      → Ends (λ o z. Answers o) (λ e z. Unit {0}) (loop v is_initial connect_func fuel end_time w)
  unfolding loop GoodEnd
  loop-Answers zero end_time w = Ends-ok none w tt
  loop-Answers (suc fuel) end_time w =
      let o = get_writer (v.all_hosts w) in
      Ends-if (ltb (v.perf_counter_ns w) end_time)
        (λ b. Ends-bind (attempt v is_initial connect_func o w) (attempt-Good o w) (λ a u g.
          after_attempt-Answers (loop v is_initial connect_func fuel end_time) a u g
            (loop-Answers fuel end_time)))
        (λ b. Ends-ok (some none) w tt)

-- A connection that _get_verified_writer_connection returns was asked for its role and said writer,
-- or it was identified, as a writer or as no known host.
pub get_verified_writer_connection-Answers :
    {W : Type 0} (v : Service W) (is_initial : Bool) (connect_func : Exec W Exc ℕ) (fuel : ℕ)
    (w : W)
    → Ends
        (λ o z. Answers v is_initial connect_func o)
        (λ e z. Unit {0})
        (get_verified_writer_connection v is_initial connect_func fuel w)
unfolding get_verified_writer_connection
get_verified_writer_connection-Answers v is_initial connect_func fuel w =
    loop-Answers v is_initial connect_func fuel
      (v.perf_counter_ns w + v.retry_interval_ms * 1_000_000) w
