-- ===== src/PluginManager/Factories.antt =====
-- plugin_service.py: `get_factory_weights` and the order in which
-- `create_plugin_factories_from_list` loads the plugins.
use aws_advanced_python_wrap.Prelude.{
  ℕ, suc, ◌≤◌, ◌≡◌, refl, Bool, true, Option, none, some, List, [], ◌∷◌, if◌then◌else◌, ltb, In,
  All, ◌↔◌, ◌⊎◌, inl, inr, arith, Bool-cases, sym, ite, ap,
}
use aws_advanced_python_wrap.Dict.{get, put, get-put}

pub data PluginFactory : Type 0 where
  custom_endpoint initial_connection aurora_connection_tracker stale_dns read_write_splitting :
      PluginFactory
  failover host_monitoring fastest_response_strategy iam aws_secrets_manager federated_auth okta :
      PluginFactory
  connect_time execute_time dev : PluginFactory

-- `PLUGIN_FACTORY_WEIGHTS`; `none` is WEIGHT_RELATIVE_TO_PRIOR_PLUGIN.
unfoldable pub factory_weight : PluginFactory → Option ℕ
factory_weight custom_endpoint = some 40
factory_weight initial_connection = some 50
factory_weight aurora_connection_tracker = some 100
factory_weight stale_dns = some 200
factory_weight read_write_splitting = some 300
factory_weight failover = some 400
factory_weight host_monitoring = some 500
factory_weight fastest_response_strategy = some 600
factory_weight iam = some 700
factory_weight aws_secrets_manager = some 800
factory_weight federated_auth = some 900
factory_weight okta = some 1000
factory_weight connect_time = none
factory_weight execute_time = none
factory_weight dev = none

unfoldable pub PluginFactory-discrete : Discrete PluginFactory
PluginFactory-discrete = hlevel

abbrev next_weight : Option ℕ → ℕ → ℕ
next_weight none last_weight = suc last_weight
next_weight (some weight) last_weight = weight

-- The loop of `get_factory_weights`.
unfoldable weights_from :
    ℕ → List (PluginFactory × ℕ) → List PluginFactory → List (PluginFactory × ℕ)
unfolding factory_weight
weights_from last_weight weights [] = weights
weights_from last_weight weights (f ∷ factory_types) =
    let weight = next_weight (factory_weight f) last_weight in
    weights_from weight (put PluginFactory-discrete f weight weights) factory_types

unfoldable pub get_factory_weights : List PluginFactory → List (PluginFactory × ℕ)
unfolding weights_from
get_factory_weights factory_types = weights_from 0 [] factory_types

abbrev weight_in : List (PluginFactory × ℕ) → PluginFactory → ℕ
weight_in weights f = elim (get PluginFactory-discrete f weights) [ none ↦ 0 | some n ↦ n ]

unfoldable insert_by : (PluginFactory → ℕ) → PluginFactory → List PluginFactory → List PluginFactory
insert_by key f [] = f ∷ []
insert_by key f (x ∷ xs) =
    let rest = insert_by key f xs in if ltb (key x) (key f) then x ∷ rest else f ∷ x ∷ xs

-- `list.sort(key=...)`, which keeps the order of equal keys.
unfoldable sort_by : (PluginFactory → ℕ) → List PluginFactory → List PluginFactory
unfolding insert_by
sort_by key [] = []
sort_by key (f ∷ fs) = insert_by key f (sort_by key fs)

-- The factories in the order in which `create_plugin_factories_from_list` loads them.
unfoldable pub ordered_factories : Bool → List PluginFactory → List PluginFactory
unfolding get_factory_weights sort_by
ordered_factories auto_sort_plugins factory_types =
    if auto_sort_plugins
    then sort_by (weight_in (get_factory_weights factory_types)) factory_types
    else factory_types

-- `R` holds of every element with each later one.
abbrev pub Pairwise : (PluginFactory → PluginFactory → Type 0) → List PluginFactory → Type 0
Pairwise R [] = Unit
Pairwise R (x ∷ xs) = All (R x) xs × Pairwise R xs

exchange : {A B C D : Type 0} → D ↔ (B ⊎ C) → (A ⊎ D) ↔ (B ⊎ (A ⊎ C))
exchange e = ground arith

In-insert_by :
    (key : PluginFactory → ℕ) (f h : PluginFactory) (xs : List PluginFactory)
    → In h (insert_by key f xs) ↔ ((h ≡ f) ⊎ In h xs)
unfolding insert_by
In-insert_by key f h [] = ground arith
In-insert_by key f h (x ∷ xs) = elim (Bool-cases (ltb (key x) (key f))) [
  | inl e ↦ rw e (exchange (In-insert_by key f h xs))
  | inr e ↦ rw e (λ y. y, λ y. y)
]

In-sort_by :
    (key : PluginFactory → ℕ) (h : PluginFactory) (xs : List PluginFactory)
    → In h (sort_by key xs) ↔ In h xs
unfolding sort_by
In-sort_by key h [] = ground arith
In-sort_by key h (x ∷ xs) =
    ground (arith, In-sort_by key h xs, In-insert_by key x h (sort_by key xs))

All-insert_by :
    (P : PluginFactory → Type 0) (key : PluginFactory → ℕ) (f : PluginFactory)
    (xs : List PluginFactory)
    → P f
    → All P xs
    → All P (insert_by key f xs)
unfolding insert_by
All-insert_by P key f [] pf a = (pf, tt)
All-insert_by P key f (x ∷ xs) pf (px, a) = ground (arith, All-insert_by P key f xs pf a)

All-weaken :
    (key : PluginFactory → ℕ) (m n : ℕ) (xs : List PluginFactory)
    → m ≤ n
    → All (λ y. n ≤ key y) xs
    → All (λ y. m ≤ key y) xs
All-weaken key m n [] le a = tt
All-weaken key m n (x ∷ xs) le (p, a) = (omega arith, All-weaken key m n xs le a)

insert_by-Pairwise :
    (key : PluginFactory → ℕ) (f : PluginFactory) (xs : List PluginFactory)
    → Pairwise (λ x y. key x ≤ key y) xs
    → Pairwise (λ x y. key x ≤ key y) (insert_by key f xs)
unfolding insert_by
insert_by-Pairwise key f [] p = (tt, tt)
insert_by-Pairwise key f (x ∷ xs) (a, p) = elim (Bool-cases (ltb (key x) (key f))) [
  | inl e ↦
      rw e (
        All-insert_by (λ y. key x ≤ key y) key f xs (ground arith) a,
        insert_by-Pairwise key f xs p,
      )
  | inr e ↦ rw e ((ground arith, All-weaken key (key f) (key x) xs (ground arith) a), (a, p))
]

sort_by-Pairwise :
    (key : PluginFactory → ℕ) (xs : List PluginFactory)
    → Pairwise (λ x y. key x ≤ key y) (sort_by key xs)
unfolding sort_by
sort_by-Pairwise key [] = tt
sort_by-Pairwise key (x ∷ xs) = insert_by-Pairwise key x (sort_by key xs) (sort_by-Pairwise key xs)

held :
    (x f : PluginFactory) (xs : List PluginFactory) (k n : ℕ) (o : Option ℕ) (q : Dec (x ≡ f))
    → (x ≡ f → k ≡ n)
    → In f (x ∷ xs) ⊎ (o ≡ some n)
    → In f xs ⊎ (ite q (some k) o ≡ some n)
held x f xs k n o (yes e) same i = inr (ap some (same e))
held x f xs k n o (no ne) same (inl (inl e)) = elim (ne (sym e)) [ ]
held x f xs k n o (no ne) same (inl (inr i)) = inl i
held x f xs k n o (no ne) same (inr e) = inr e

own_weight :
    (x f : PluginFactory) (last n : ℕ)
    → factory_weight f ≡ some n
    → x ≡ f
    → next_weight (factory_weight x) last ≡ n
own_weight x f last n w e = rw (e, w) refl

-- A weight of its own is what the dictionary holds.
weights_from-fixed :
    (last : ℕ) (d : List (PluginFactory × ℕ)) (f : PluginFactory) (n : ℕ) (xs : List PluginFactory)
    → factory_weight f ≡ some n
    → In f xs ⊎ (get PluginFactory-discrete f d ≡ some n)
    → get PluginFactory-discrete f (weights_from last d xs) ≡ some n
unfolding weights_from
weights_from-fixed last d f n [] w (inl i) = elim i [ ]
weights_from-fixed last d f n [] w (inr e) = e
weights_from-fixed last d f n (x ∷ xs) w i =
    let k = next_weight (factory_weight x) last in
    weights_from-fixed k (put PluginFactory-discrete x k d) f n xs w (
      rw (get-put PluginFactory-discrete x f k d) (
        held x f xs k n (get PluginFactory-discrete f d) (PluginFactory-discrete x f)
          (own_weight x f last n w) i))

weight_in-fixed :
    (f : PluginFactory) (n : ℕ) (xs : List PluginFactory)
    → factory_weight f ≡ some n
    → In f xs
    → weight_in (get_factory_weights xs) f ≡ n
unfolding get_factory_weights
weight_in-fixed f n xs w i = rw (weight_in, weights_from-fixed 0 [] f n xs w (inl i)) refl

-- `f` may be loaded before `h` as far as the weights of their own say.
abbrev pub MayPrecede : PluginFactory → PluginFactory → Type 0
MayPrecede f h = (m n : ℕ) → factory_weight f ≡ some m → factory_weight h ≡ some n → m ≤ n

-- Sorted by weight, the same plugins are loaded as without sorting, and of two plugins that have a
-- weight of their own the one with the larger weight is never loaded first.
pub ordered_factories-Pairwise :
    (xs : List PluginFactory)
    → ((f : PluginFactory) → In f (ordered_factories true xs) ↔ In f xs)
      × Pairwise MayPrecede (ordered_factories true xs)
unfolding ordered_factories
ordered_factories-Pairwise xs =
    let key = weight_in (get_factory_weights xs) in
    (
      λ f. In-sort_by key f xs,
      respected key xs (sort_by key xs) (λ f. (In-sort_by key f xs).0)
          (λ f n. weight_in-fixed f n xs) (sort_by-Pairwise key xs),
    )
  where
    each :
        (key : PluginFactory → ℕ) (f : PluginFactory) (xs ys : List PluginFactory)
        → In f xs
        → ((h : PluginFactory) → In h ys → In h xs)
        → ((h : PluginFactory) (n : ℕ) → factory_weight h ≡ some n → In h xs → key h ≡ n)
        → All (λ y. key f ≤ key y) ys
        → All (MayPrecede f) ys
    each key f xs [] i sub fixed a = tt
    each key f xs (y ∷ ys) i sub fixed (p, a) = (
      λ m n wf wy. ground (arith, fixed f m wf i, fixed y n wy (sub y (inl refl))),
      each key f xs ys i (λ h j. sub h (inr j)) fixed a,
    )

    respected :
        (key : PluginFactory → ℕ) (xs ys : List PluginFactory)
        → ((h : PluginFactory) → In h ys → In h xs)
        → ((h : PluginFactory) (n : ℕ) → factory_weight h ≡ some n → In h xs → key h ≡ n)
        → Pairwise (λ x y. key x ≤ key y) ys
        → Pairwise MayPrecede ys
    respected key xs [] sub fixed p = tt
    respected key xs (y ∷ ys) sub fixed (a, p) = (
      each key y xs ys (sub y (inl refl)) (λ h j. sub h (inr j)) fixed a,
      respected key xs ys (λ h j. sub h (inr j)) fixed p,
    )
