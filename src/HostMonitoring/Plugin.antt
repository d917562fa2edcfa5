-- ===== src/HostMonitoring/Plugin.antt =====
-- host_monitoring_plugin.py: `HostMonitoringPlugin`. `W` is the world outside the plugin and its
-- monitors; what the plugin asks of the plugin service, of the tests on host names and of the driver
-- is the record `Outside`.
pub mod Quiet
pub mod Outcome
use aws_advanced_python_wrap.Prelude.{
  ℕ, Bool, true, false, not, ◌||◌, Option, none, some, List, [], ◌∷◌, String, if◌then◌else◌,
}
use aws_advanced_python_wrap.Errors.{Exc, aws_wrapper_error}
use aws_advanced_python_wrap.Exec.{
  Result, ok, raised, Exec, pure, throw, gets, modify, catch, ignore, ◌>>=◌, ◌>>◌,
}
use aws_advanced_python_wrap.Host.{HostInfo, mem}
use aws_advanced_python_wrap.Host
use aws_advanced_python_wrap.HostMonitoring.Service.{Service, Call, stop_monitoring_host}
use aws_advanced_python_wrap.HostMonitoring.Service

pub record State (W : Type 0) : Type 0 where
  pub monitoring_host_info : Option HostInfo
  pub is_connection_initialized : Bool
  pub service : Service
  pub world : W

pub record Outside (W : Type 0) : Type 0 where
  pub current_connection : W → Option ℕ
  pub current_host_info : W → Option HostInfo
  pub failure_detection_enabled : Bool
  pub is_network_bound_method : String → W → Bool
  pub is_rds_cluster : String → Bool
  pub identify_connection : Exec W Exc (Option HostInfo)
  pub fill_aliases : HostInfo → Exec W Exc HostInfo
  pub set_unavailable : List String → W → W
  pub is_closed : ℕ → W → Bool
  pub close : ℕ → Exec W Exc (Unit {0})

abbrev pub Act : Type 0 → Type 0 → Type 0
Act W A = Exec (State W) Exc A

module _ {W A : Type 0} where
  abbrev pub put_world : State W → Result Exc A × W → Result Exc A × State W
  put_world s (r, w) = (r, record s { world = w })

  -- What the outside does.
  abbrev pub outside : Exec W Exc A → Act W A
  outside m s = put_world s (m s.world)

  abbrev pub put_service : State W → Result Exc A × Service → Result Exc A × State W
  put_service s (r, v) = (r, record s { service = v })

  -- A method of the monitor service.
  abbrev pub serviced : Exec Service Exc A → Act W A
  serviced m s = put_service s (m s.service)

module _ {W : Type 0} (out : Outside W) where
  unfoldable pub set_monitoring_host_info : Option HostInfo → Act W (Unit {0})
  set_monitoring_host_info o = modify (λ s. record s { monitoring_host_info = o })

  unfoldable pub identified : Option HostInfo → Act W (Unit {0})
  unfolding set_monitoring_host_info
  identified none = throw aws_wrapper_error
  identified (some h) = do
    filled ← outside (out.fill_aliases h)
    set_monitoring_host_info (some filled)

  unfoldable pub identify : Act W (Unit {0})
  unfolding identified
  identify = do o ← outside out.identify_connection; set_monitoring_host_info o; identified o

  unfoldable pub returned : Option HostInfo → Act W HostInfo
  returned none = throw aws_wrapper_error
  returned (some h) = pure h

  unfoldable pub find_host_info : Option HostInfo → Act W HostInfo
  unfolding identify returned Host.url
  find_host_info none = throw aws_wrapper_error
  find_host_info (some h) = do
    set_monitoring_host_info (some h)
    if out.is_rds_cluster (Host.url h)
        then catch identify (λ e. throw aws_wrapper_error)
        else pure tt
    o ← gets (λ s. s.monitoring_host_info)
    returned o

  unfoldable pub known_host_info : Option HostInfo → Act W HostInfo
  unfolding find_host_info
  known_host_info (some h) = pure h
  known_host_info none = λ s. find_host_info (out.current_host_info s.world) s

  unfoldable pub get_monitoring_host_info : Act W HostInfo
  unfolding known_host_info
  get_monitoring_host_info s = known_host_info s.monitoring_host_info s

  unfoldable pub start : Call → Act W ℕ
  unfolding get_monitoring_host_info Service.start_monitoring
  start k = do
    aliases_of ← get_monitoring_host_info
    h ← get_monitoring_host_info
    serviced (Service.start_monitoring k aliases_of.all_aliases)

  unfoldable pub mark_unavailable : HostInfo → Act W (Unit {0})
  mark_unavailable h = modify (λ s. record s { world = out.set_unavailable h.all_aliases s.world })

  unfoldable pub abandon : {A : Type 0} → ℕ → Result Exc A → Bool → Act W A
  abandon connection r true = λ s. (r, s)
  abandon connection r false = ignore (outside (out.close connection)) >> throw aws_wrapper_error

  -- What the `finally` does to the outcome `r` when the host was found unavailable.
  unfoldable pub give_up : {A : Type 0} → ℕ → Result Exc A → Act W A
  unfolding mark_unavailable abandon
  give_up connection r = do
    h ← get_monitoring_host_info
    mark_unavailable h
    closed ← gets (λ s. out.is_closed connection s.world)
    abandon connection r closed

  unfoldable pub stop : Call → ℕ → State W → State W
  unfolding Service.stop_monitoring
  stop k context s = record s { service = Service.stop_monitoring k context s.service }

  unfoldable pub conclude : {A : Type 0} → ℕ → ℕ → Result Exc A → Act W A
  unfolding give_up
  conclude connection context r s =
      if (s.service.contexts context).is_host_unavailable then give_up connection r s else (r, s)

  unfoldable pub after_call :
      {A : Type 0} → Call → ℕ → ℕ → Result Exc A × State W → Result Exc A × State W
  unfolding stop conclude
  after_call k connection context (r, s) = conclude connection context r (stop k context s)

  unfoldable pub monitored : {A : Type 0} → Call → ℕ → Act W A → Act W A
  unfolding start after_call
  monitored k connection execute_func =
      start k >>= λ context s. after_call k connection context (execute_func s)

  unfoldable pub execute_on :
      {A : Type 0} → Call → String → Act W A → Option ℕ → Option HostInfo → Act W A
  unfolding monitored
  execute_on k method_name execute_func none h = throw aws_wrapper_error
  execute_on k method_name execute_func (some connection) none = throw aws_wrapper_error
  execute_on k method_name execute_func (some connection) (some h) = λ s.
      if not out.failure_detection_enabled || not (out.is_network_bound_method method_name s.world)
      then execute_func s
      else monitored k connection execute_func s

  unfoldable pub execute : {A : Type 0} → Call → String → Act W A → Act W A
  unfolding execute_on
  execute k method_name execute_func s =
      execute_on k method_name execute_func (out.current_connection s.world)
        (out.current_host_info s.world) s

  unfoldable pub notify_connection_changed : Bool → State W → State W
  notify_connection_changed is_initial s = record s {
    monitoring_host_info = none;
    is_connection_initialized = is_initial || s.is_connection_initialized;
  }

  unfoldable pub stop_if_listed : String → List String → Act W (Unit {0})
  stop_if_listed host aliases =
      if mem host aliases
      then modify (λ s. record s { service = stop_monitoring_host aliases s.service })
      else pure tt

  -- A change is a host, and whether it went down or was deleted.
  unfoldable pub notify_changes : List (String × Bool) → Act W (Unit {0})
  unfolding stop_if_listed get_monitoring_host_info
  notify_changes [] = pure tt
  notify_changes ((host, false) ∷ changes) = pure tt
  notify_changes ((host, true) ∷ changes) = do
    h ← get_monitoring_host_info
    elim h.all_aliases [
      | [] ↦ pure tt
      | alias ∷ aliases ↦ stop_if_listed host (alias ∷ aliases) >> notify_changes changes
    ]

  unfoldable pub notify_host_list_changed : List (String × Bool) → Act W (Unit {0})
  unfolding notify_changes
  notify_host_list_changed changes s =
      if s.is_connection_initialized then notify_changes changes s else (ok tt, s)
