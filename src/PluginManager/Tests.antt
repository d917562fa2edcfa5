-- ===== src/PluginManager/Tests.antt =====
-- Runs of the plugin manager at concrete inputs.
use aws_advanced_python_wrap.Prelude.{
  ◌≡◌, refl, ◌≢◌, ◌↔◌, true, false, none, List, [], ◌∷◌, ◌++◌, String, String-discrete, In, select,
}
use aws_advanced_python_wrap.Errors.{aws_wrapper_error}
use aws_advanced_python_wrap.Exec.{pure, throw, modify, ok, ◌>>◌}
use aws_advanced_python_wrap.Session.Service.{
  OldConnectionSuggestedAction, no_opinion, dispose, preserve, connection_object_changed,
}
use aws_advanced_python_wrap.PluginManager.{
  Plugin, is_subscribed, execute_with_subscribed_plugins, notify_connection_changed,
}
use aws_advanced_python_wrap.PluginManager.Pipeline.{nested, execute_with_subscribed_plugins-nested}
use aws_advanced_python_wrap.PluginManager.Factories.{
  PluginFactory, PluginFactory-discrete, ordered_factories, iam, failover, connect_time,
  execute_time, Pairwise, MayPrecede, ordered_factories-Pairwise,
}

abbrev Log : Type 0
Log = List String

abbrev note : String → Log → Log
note s log = log ++ (s ∷ [])

-- A plugin that notes its name before and after the rest of the pipeline.
abbrev plugin : String → List String → OldConnectionSuggestedAction → Plugin Log (Unit {0})
plugin name methods action = record {
  subscribed_methods = methods;
  run = λ rest. modify (note name) >> rest >> modify (note name);
  notify_connection_changed = λ changes. pure action;
  accepts_strategy = λ role strategy. pure false;
  get_host_info_by_strategy = λ role strategy. pure none;
}

abbrev plugins : List (Plugin Log (Unit {0}))
plugins =
    plugin "a" ("connect" ∷ []) no_opinion
    ∷ plugin "b" ("notify_connection_changed" ∷ []) dispose
    ∷ plugin "c" ("*" ∷ []) preserve
    ∷ []

program : Unit {0}
unfolding execute_with_subscribed_plugins notify_connection_changed ordered_factories
    String-discrete PluginFactory-discrete
program = tt

connect-log :
    (execute_with_subscribed_plugins plugins "connect" (modify (note "target")) []).1
    ≡ "a" ∷ "c" ∷ "target" ∷ "c" ∷ "a" ∷ []
unfolding program
connect-log = refl

notify-log :
    notify_connection_changed (connection_object_changed ∷ []) plugins [] ≡ (ok preserve, [])
unfolding program
notify-log = refl

abbrev codes : List PluginFactory
codes = iam ∷ execute_time ∷ failover ∷ connect_time ∷ []

codes-ordered : ordered_factories true codes ≡ failover ∷ connect_time ∷ iam ∷ execute_time ∷ []
unfolding program
codes-ordered = refl

ordered_factories-Pairwise_example :
    ((f : PluginFactory) → In f (ordered_factories true codes) ↔ In f codes)
    × Pairwise MayPrecede (ordered_factories true codes)
ordered_factories-Pairwise_example = ordered_factories-Pairwise codes

execute_with_subscribed_plugins-nested_example :
    ((select (is_subscribed "connect") plugins ≢ [])
      → execute_with_subscribed_plugins plugins "connect" (pure tt)
        ≡ nested (select (is_subscribed "connect") plugins) (pure tt))
    × ((select (is_subscribed "connect") plugins ≡ [])
        → execute_with_subscribed_plugins plugins "connect" (pure tt) ≡ throw aws_wrapper_error)
execute_with_subscribed_plugins-nested_example =
    execute_with_subscribed_plugins-nested "connect" plugins (pure tt)
