-- ===== src/Cache/Tests.antt =====
-- Runs of the two caches at concrete inputs.
use aws_advanced_python_wrap.Prelude.{
  ℕ, ◌≡◌, refl, true, none, some, List, [], ◌∷◌, arith, ℕ_discrete,
}
use aws_advanced_python_wrap.Dict
use aws_advanced_python_wrap.Cache.Map
use aws_advanced_python_wrap.Cache.Map.{Sweep}
use aws_advanced_python_wrap.Cache.Map.Refinement.{
  Call, get_call, put_call, InOrder, run, run_ideal, run-init,
}
use aws_advanced_python_wrap.Cache.Sliding
use aws_advanced_python_wrap.Cache.Sliding.{SlidingExpirationCache}
use aws_advanced_python_wrap.Cache.Sliding.Disposal.{total, total-clear}
use aws_advanced_python_wrap.Cache.Sliding.Removal.{Extends, remove-Disposed}

abbrev late : ℕ
late = 600_000_000_100

abbrev calm : ℕ → Sweep ℕ
calm t = record { check = t; next = t; scan = λ k. t }

abbrev calls : List (ℕ × Call ℕ ℕ)
calls =
    (1, put_call 7 70 50 1 (calm 1))
    ∷ (2, put_call 8 80 700_000_000_000 2 (calm 2))
    ∷ (late, put_call 9 90 5 late (calm late))
    ∷ (late, get_call 7 late)
    ∷ (late, get_call 8 late)
    ∷ []

calls-InOrder : InOrder 0 calls
calls-InOrder = omega arith

run-init_example : run ℕ_discrete calls (Map.init 0) ≡ run_ideal ℕ_discrete calls (λ _. none)
run-init_example = run-init ℕ_discrete 0 calls calls-InOrder

abbrev two : SlidingExpirationCache ℕ ℕ
two = record {
  cleanup_interval_ns = 100;
  should_dispose_func = none;
  disposes = true;
  cdict =
      (1, record { item = some 10; expiration_time = 5 })
      ∷ (2, record { item = some 20; expiration_time = 500 })
      ∷ [];
  cleanup_time_ns = 50;
  disposed = [];
}

abbrev itself : ℕ → ℕ
itself n = n

swept : (Sliding.cleanup ℕ_discrete 60 (λ k. 60) two).disposed ≡ some 10 ∷ []
unfolding Sliding.cleanup ℕ_discrete
swept = refl

remove-Disposed_example :
    (Dict.get ℕ_discrete 2 (Sliding.remove ℕ_discrete 2 60 (λ k. 60) two).cdict ≡ none)
    × Extends (some 20 ∷ []) (Sliding.remove ℕ_discrete 2 60 (λ k. 60) two).disposed
    × (total itself (Sliding.remove ℕ_discrete 2 60 (λ k. 60) two) ≡ total itself two)
unfolding ℕ_discrete
remove-Disposed_example =
    remove-Disposed ℕ_discrete 2 itself 60 (λ k. 60) two refl (refl, (refl, tt))

total-clear_example :
    (total itself (Sliding.clear two) ≡ total itself two) × ((Sliding.clear two).cdict ≡ [])
total-clear_example = total-clear itself two refl
