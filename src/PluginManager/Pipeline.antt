-- ===== src/PluginManager/Pipeline.antt =====
-- plugin_service.py: what the pipeline of `_make_pipeline` runs.
use aws_advanced_python_wrap.Prelude.{
  ◌≡◌, refl, ◌≢◌, inl, inr, Bool-cases, Option, none, some, List, [], ◌∷◌, String, select,
}
use aws_advanced_python_wrap.Errors.{Exc, aws_wrapper_error}
use aws_advanced_python_wrap.Exec.{Exec, throw}
use aws_advanced_python_wrap.PluginManager.{
  Plugin, is_subscribed, pipeline_from, extend, run_pipeline, execute_with_subscribed_plugins,
}

module _ {S A : Type 0} where
  -- The first plugin runs outermost and the last one calls the target.
  unfoldable pub nested : List (Plugin S A) → Exec S Exc A → Exec S Exc A
  nested [] target = target
  nested (p ∷ plugins) target = p.run (nested plugins target)

  abbrev chain : List (Plugin S A) → Option (Exec S Exc A → Exec S Exc A)
  chain [] = none
  chain (p ∷ plugins) = some (nested (p ∷ plugins))

  extend-chain :
      (p : Plugin S A) (plugins : List (Plugin S A))
      → some (extend p (chain plugins)) ≡ chain (p ∷ plugins)
  unfolding extend nested
  extend-chain p [] = refl
  extend-chain p (q ∷ plugins) = refl

  pipeline_from-chain :
      (method_name : String) (plugins : List (Plugin S A))
      → pipeline_from method_name plugins ≡ chain (select (is_subscribed method_name) plugins)
  unfolding pipeline_from
  pipeline_from-chain method_name [] = refl
  pipeline_from-chain method_name (p ∷ plugins) = elim (Bool-cases (is_subscribed method_name p)) [
    | inl e ↦
        rw (e, pipeline_from-chain method_name plugins)
          (extend-chain p (select (is_subscribed method_name) plugins))
    | inr e ↦ rw e (pipeline_from-chain method_name plugins)
  ]

  -- What the manager runs for a method is the plugins that subscribe to it, each one around the
  -- next in the order in which they were loaded, with the target innermost; when none subscribes it
  -- raises `AwsWrapperError`.
  pub execute_with_subscribed_plugins-nested :
      (method_name : String) (plugins : List (Plugin S A)) (target : Exec S Exc A)
      → ((select (is_subscribed method_name) plugins ≢ [])
          → execute_with_subscribed_plugins plugins method_name target
            ≡ nested (select (is_subscribed method_name) plugins) target)
        × ((select (is_subscribed method_name) plugins ≡ [])
            → execute_with_subscribed_plugins plugins method_name target ≡ throw aws_wrapper_error)
  unfolding execute_with_subscribed_plugins run_pipeline
  execute_with_subscribed_plugins-nested method_name plugins target =
      outcome (select (is_subscribed method_name) plugins) (pipeline_from method_name plugins)
        (pipeline_from-chain method_name plugins)
    where
      outcome :
          (chosen : List (Plugin S A)) (o : Option (Exec S Exc A → Exec S Exc A))
          → o ≡ chain chosen
          → (chosen ≢ [] → run_pipeline o target ≡ nested chosen target)
            × (chosen ≡ [] → run_pipeline o target ≡ throw aws_wrapper_error)
      outcome [] o e = (λ ne. elim (ne refl) [ ], λ n. rw e refl)
      outcome (p ∷ chosen) o e = (λ ne. rw e refl, λ n. cc)
