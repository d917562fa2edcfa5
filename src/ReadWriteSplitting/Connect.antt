-- ===== src/ReadWriteSplitting/Connect.antt =====
-- read_write_splitting_plugin.py: `connect` and `force_connect` of `ReadWriteSplittingPlugin`.
use aws_advanced_python_wrap.Prelude.{ℕ, Bool, not, ◌||◌, Option, none, some, if◌then◌else◌}
use aws_advanced_python_wrap.Errors.{aws_wrapper_error}
use aws_advanced_python_wrap.Exec.{pure, throw, modify, ◌>>=◌, ◌>>◌}
use aws_advanced_python_wrap.Host.{HostInfo}
use aws_advanced_python_wrap.Host.Role.{HostRole, role_eq, unknown}
use aws_advanced_python_wrap.ReadWriteSplitting.{State, Service, Act, raise}

module _ {W : Type 0} (v : Service W) where
  unfoldable pub set_initial_role : HostRole → Option HostInfo → State W → State W
  set_initial_role role none s = s
  set_initial_role role (some h) s = if role_eq role h.role then s else record s {
    world = v.set_initial_connection_host_info (record h { role = role }) s.world;
  }

  abbrev is_unknown : HostRole → Bool
  is_unknown role = role_eq role unknown

  unfoldable pub verify_initial_role : ℕ → HostRole → Act W ℕ
  unfolding set_initial_role
  verify_initial_role c role =
      if is_unknown role
      then raise
      else do modify (λ s. set_initial_role role (v.initial_connection_host_info s.world) s); pure c

  unfoldable pub connect_internal : Bool → Act W ℕ → Act W ℕ
  unfolding verify_initial_role
  connect_internal is_initial_connection connect_func = do
    c ← connect_func
    λ s.
        if not is_initial_connection || v.is_static_host_list_provider s.world
        then pure c s
        else (v.get_host_role c >>= verify_initial_role c) s

  -- `connect`, with the answer of `accepts_strategy` for the role of the host.
  unfoldable pub connect : Bool → Bool → Act W ℕ → Act W ℕ
  unfolding connect_internal
  connect accepted is_initial_connection connect_func =
      if not accepted
      then throw aws_wrapper_error
      else connect_internal is_initial_connection connect_func
