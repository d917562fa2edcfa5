-- ===== src/InitialConnection.antt =====
-- aurora_initial_connection_strategy_plugin.py: a connection to a cluster endpoint is verified. `W` is
-- the world; what the plugin asks of the plugin service and of the clock is the record `Service`. The
-- retry loops run on fuel, and `none` says that it did not suffice.
pub mod Verified
mod Tests
use aws_advanced_python_wrap.Prelude.{
  ℕ, zero, suc, ◌+◌, ◌*◌, Bool, true, false, not, ◌&&◌, ◌||◌, Option, none, some, List, [], ◌∷◌,
  String, if◌then◌else◌, ltb,
}
use aws_advanced_python_wrap.Errors.{Exc}
use aws_advanced_python_wrap.Exec.{
  Exec, Result, ok, raised, pure, throw, gets, modify, catch, ignore, ◌>>=◌, ◌>>◌,
}
use aws_advanced_python_wrap.Host.{HostInfo}
use aws_advanced_python_wrap.Host.Role.{HostRole, is_writer, is_reader}
use aws_advanced_python_wrap.RdsUtils.{
  RdsUrlType, ip_address, rds_writer_cluster, rds_reader_cluster, rds_custom_cluster, rds_proxy,
  rds_instance, other,
}

pub record Service (W : Type 0) : Type 0 where
  pub identify_rds_type : String → RdsUrlType
  pub is_rds_cluster_dns : String → Bool
  pub perf_counter_ns : W → ℕ
  pub retry_interval_ms : ℕ
  pub all_hosts : W → List HostInfo
  pub connect : HostInfo → Exec W Exc ℕ
  pub get_host_role : ℕ → Exec W Exc HostRole
  pub force_refresh_host_list : ℕ → Exec W Exc (Unit {0})
  pub identify_connection : ℕ → Exec W Exc (Option HostInfo)
  pub close : ℕ → Exec W Exc (Unit {0})
  pub delay : ℕ → W → W
  pub has_host_list_provider_service : Bool
  pub set_initial_connection_host_info : Option HostInfo → W → W

-- How one pass of a loop ends.
pub data Attempt : Type 0 where
  verified : ℕ → Attempt
  retry : Attempt

abbrev pub has_role : (HostRole → Bool) → Option HostInfo → Bool
has_role is_wanted none = true
has_role is_wanted (some h) = is_wanted h.role

unfoldable pub get_writer : List HostInfo → Option HostInfo
get_writer [] = none
get_writer (h ∷ hosts) = if is_writer h.role then some h else get_writer hosts

module _ {W : Type 0} (v : Service W) (is_initial : Bool) (connect_func : Exec W Exc ℕ) where
  unfoldable pub close_and_retry : ℕ → Exec W Exc Attempt
  close_and_retry c = ignore (v.close c) >> (modify (v.delay v.retry_interval_ms) >> pure retry)

  unfoldable pub note_initial : Option HostInfo → W → W
  note_initial o w =
      if is_initial && v.has_host_list_provider_service
      then v.set_initial_connection_host_info o w
      else w

  unfoldable pub accept : ℕ → Option HostInfo → Exec W Exc Attempt
  unfolding note_initial
  accept c o = modify (note_initial o) >> pure (verified c)

  -- `except Exception as e`: the connection is closed.
  unfoldable pub closing : ℕ → Exec W Exc Attempt → Exec W Exc Attempt
  closing c m = catch m (λ e. ignore (v.close c) >> throw e)

  unfoldable pub judge_identified : ℕ → Option HostInfo → Exec W Exc Attempt
  unfolding close_and_retry accept
  judge_identified c o = if has_role is_writer o then accept c o else close_and_retry c

  unfoldable pub identify_and_judge : ℕ → Exec W Exc Attempt
  unfolding judge_identified
  identify_and_judge c = do
    v.force_refresh_host_list c
    o ← v.identify_connection c
    judge_identified c o

  -- The topology knows no writer: the caller's connection says which host it leads to.
  unfoldable pub by_endpoint : Exec W Exc Attempt
  unfolding closing identify_and_judge
  by_endpoint = connect_func >>= λ c. closing c (identify_and_judge c)

  unfoldable pub judge_role : HostInfo → ℕ → HostRole → Exec W Exc Attempt
  unfolding close_and_retry accept
  judge_role h c role =
      if is_writer role
      then accept c (some h)
      else (v.force_refresh_host_list c >> close_and_retry c)

  unfoldable pub ask_role : HostInfo → ℕ → Exec W Exc Attempt
  unfolding judge_role
  ask_role h c = v.get_host_role c >>= judge_role h c

  unfoldable pub by_writer : HostInfo → Exec W Exc Attempt
  unfolding closing ask_role
  by_writer h = v.connect h >>= λ c. closing c (ask_role h c)

  unfoldable pub attempt : Option HostInfo → Exec W Exc Attempt
  unfolding by_endpoint by_writer
  attempt none = by_endpoint
  attempt (some h) = if v.is_rds_cluster_dns h.host then by_endpoint else by_writer h

  abbrev pub after_attempt :
      Exec W Exc (Option (Option ℕ)) → Attempt → Exec W Exc (Option (Option ℕ))
  after_attempt again (verified c) = pure (some (some c))
  after_attempt again retry = again

  -- The loop, until `end_time`.
  unfoldable pub loop : ℕ → ℕ → Exec W Exc (Option (Option ℕ))
  unfolding attempt get_writer
  loop zero end_time = pure none
  loop (suc fuel) end_time = λ w.
      let next = (attempt (get_writer (v.all_hosts w)) >>= after_attempt (loop fuel end_time)) w in
      if ltb (v.perf_counter_ns w) end_time then next else (ok (some none), w)

  unfoldable pub get_verified_writer_connection : ℕ → Exec W Exc (Option (Option ℕ))
  unfolding loop
  get_verified_writer_connection fuel w =
      loop fuel (v.perf_counter_ns w + v.retry_interval_ms * 1_000_000) w

  -- A candidate, or else a connection by the caller's function.
  abbrev pub or_connect : Option (Option ℕ) → Exec W Exc (Option (Option ℕ))
  or_connect none = pure none
  or_connect (some none) = connect_func >>= λ c. pure (some (some c))
  or_connect (some (some c)) = pure (some (some c))

  -- `_connect`, by the type of the url. `reader` is `_get_verified_reader_connection`. The outer
  -- option tells whether the fuel sufficed, the inner one is what the method returns.
  unfoldable pub connect_by_type :
      ℕ → Exec W Exc (Option (Option ℕ)) → RdsUrlType → Exec W Exc (Option (Option ℕ))
  unfolding get_verified_writer_connection
  connect_by_type fuel reader rds_writer_cluster =
      get_verified_writer_connection fuel >>= or_connect
  connect_by_type fuel reader rds_reader_cluster = reader >>= or_connect
  connect_by_type fuel reader rds_custom_cluster = pure (some none)
  connect_by_type fuel reader ip_address = or_connect (some none)
  connect_by_type fuel reader rds_proxy = or_connect (some none)
  connect_by_type fuel reader rds_instance = or_connect (some none)
  connect_by_type fuel reader other = or_connect (some none)

  unfoldable pub connect :
      ℕ → Exec W Exc (Option (Option ℕ)) → HostInfo → Exec W Exc (Option (Option ℕ))
  unfolding connect_by_type
  connect fuel reader h = connect_by_type fuel reader (v.identify_rds_type h.host)
