-- ===== src/PluginManager.antt =====
-- plugin_service.py: `PluginManager`. A plugin is what the manager asks of it; `S` is the state that
-- the plugins and the driver share. Telemetry and the cache of built pipelines leave no trace here:
-- the plugins and their subscriptions do not change once they are loaded.
pub mod Factories
pub mod Pipeline
mod Tests
use aws_advanced_python_wrap.Prelude.{
  ℕ, Bool, true, false, not, ◌&&◌, ◌||◌, Option, none, some, List, [], ◌∷◌, if◌then◌else◌, String,
}
use aws_advanced_python_wrap.Errors.{Exc, aws_wrapper_error, is_unsupported_operation_error}
use aws_advanced_python_wrap.Exec.{Exec, pure, throw, catch, ◌>>=◌, ◌>>◌}
use aws_advanced_python_wrap.Host.{HostInfo, mem}
use aws_advanced_python_wrap.Host.Role.{HostRole}
use aws_advanced_python_wrap.Session.Service.{
  OldConnectionSuggestedAction, no_opinion, dispose, preserve, ConnectionEvent,
}

-- `run` is the plugin's own part of a call: it is given the rest of the pipeline.
pub record Plugin (S A : Type 0) : Type 0 where
  pub subscribed_methods : List String
  pub run : Exec S Exc A → Exec S Exc A
  pub notify_connection_changed : List ConnectionEvent → Exec S Exc OldConnectionSuggestedAction
  pub accepts_strategy : HostRole → String → Exec S Exc Bool
  pub get_host_info_by_strategy : HostRole → String → Exec S Exc (Option HostInfo)

abbrev is_preserve : OldConnectionSuggestedAction → Bool
is_preserve preserve = true
is_preserve _ = false

abbrev is_dispose : OldConnectionSuggestedAction → Bool
is_dispose dispose = true
is_dispose _ = false

abbrev any_of : (OldConnectionSuggestedAction → Bool) → List OldConnectionSuggestedAction → Bool
any_of f [] = false
any_of f (a ∷ found) = f a || any_of f found

unfoldable pub decide : List OldConnectionSuggestedAction → OldConnectionSuggestedAction
decide found =
    if any_of is_preserve found
    then preserve
    else if any_of is_dispose found
    then dispose
    else no_opinion

unfoldable pub unsupported : {S : Type 0} → Exc → Exec S Exc (Option HostInfo)
unsupported e = if is_unsupported_operation_error e then pure none else throw e

module _ {S A : Type 0} where
  unfoldable pub is_subscribed : String → Plugin S A → Bool
  is_subscribed method_name p = mem "*" p.subscribed_methods || mem method_name p.subscribed_methods

  unfoldable pub extend :
      Plugin S A → Option (Exec S Exc A → Exec S Exc A) → Exec S Exc A → Exec S Exc A
  extend p none target = p.run target
  extend p (some pipeline_so_far) target = p.run (pipeline_so_far target)

  -- The loop of `_make_pipeline`, from the last plugin to the first.
  unfoldable pub pipeline_from : String → List (Plugin S A) → Option (Exec S Exc A → Exec S Exc A)
  unfolding is_subscribed extend
  pipeline_from method_name [] = none
  pipeline_from method_name (p ∷ plugins) =
      let so_far = pipeline_from method_name plugins in
      if is_subscribed method_name p then some (extend p so_far) else so_far

  unfoldable pub run_pipeline : Option (Exec S Exc A → Exec S Exc A) → Exec S Exc A → Exec S Exc A
  run_pipeline none target = throw aws_wrapper_error
  run_pipeline (some pipeline) target = pipeline target

  -- `_execute_with_subscribed_plugins`
  unfoldable pub execute_with_subscribed_plugins :
      List (Plugin S A) → String → Exec S Exc A → Exec S Exc A
  unfolding pipeline_from run_pipeline
  execute_with_subscribed_plugins plugins method_name target =
      run_pipeline (pipeline_from method_name plugins) target

  -- `_notify_subscribed_plugins` for `notify_connection_changed`: the suggestions of the plugins.
  unfoldable pub suggestions :
      List ConnectionEvent → List (Plugin S A) → Exec S Exc (List OldConnectionSuggestedAction)
  unfolding is_subscribed
  suggestions changes [] = pure []
  suggestions changes (p ∷ plugins) =
      let rest = suggestions changes plugins in
      if is_subscribed "notify_connection_changed" p
      then (do a ← p.notify_connection_changed changes; found ← rest; pure (a ∷ found))
      else rest

  unfoldable pub notify_connection_changed :
      List ConnectionEvent → List (Plugin S A) → Exec S Exc OldConnectionSuggestedAction
  unfolding suggestions decide
  notify_connection_changed changes plugins = do
    found ← suggestions changes plugins
    pure (decide found)

  unfoldable pub accepts_strategy : List (Plugin S A) → HostRole → String → Exec S Exc Bool
  unfolding is_subscribed
  accepts_strategy [] role strategy = pure false
  accepts_strategy (p ∷ plugins) role strategy =
      let rest = accepts_strategy plugins role strategy in
      if is_subscribed "get_host_info_by_strategy" p
      then (do accepted ← p.accepts_strategy role strategy; if accepted then pure true else rest)
      else rest

  unfoldable pub get_host_info_by_strategy :
      List (Plugin S A) → HostRole → String → Exec S Exc (Option HostInfo)
  unfolding is_subscribed unsupported
  get_host_info_by_strategy [] role strategy = pure none
  get_host_info_by_strategy (p ∷ plugins) role strategy =
      let rest = get_host_info_by_strategy plugins role strategy in
      if is_subscribed "get_host_info_by_strategy" p
      then (do
        host ← catch (p.get_host_info_by_strategy role strategy) unsupported
        elim host [ none ↦ rest | some h ↦ pure (some h) ])
      else rest

abbrev is_close : String → Bool
is_close method_name = mem method_name ("Connection.close" ∷ "Cursor.close" ∷ [])

module _ {S A : Type 0} where
  -- `execute`: `conn` is the connection behind the target, `is_current` whether it is the current
  -- one, and `nothing` the value of a call that does nothing.
  unfoldable pub execute :
      List (Plugin S A) → Option ℕ → Bool → String → A → Exec S Exc A → Exec S Exc A
  unfolding execute_with_subscribed_plugins
  execute plugins conn is_current method_name nothing target =
      if not (is_close method_name) && (elim conn [ none ↦ false | some c ↦ not is_current ])
      then throw aws_wrapper_error
      else if (elim conn [ none ↦ true | some c ↦ false ]) && is_close method_name
      then pure nothing
      else execute_with_subscribed_plugins plugins method_name target
