-- ===== src/Cache/Map/Refinement.antt =====
-- utils/cache_map.py under any sequence of calls, against an ideal cache that never cleans up.
use aws_advanced_python_wrap.Prelude.{
  ℕ, ◌+◌, ◌≤◌, ◌≡◌, refl, ◌∙◌, Bool-cases, inl, inr, ite, Option, none, some, List, [], ◌∷◌, arith,
  ltb,
}
use aws_advanced_python_wrap.Dict.{Dict, IsDistinct, put-IsDistinct, pop-IsDistinct}
use aws_advanced_python_wrap.Dict
use aws_advanced_python_wrap.Cache.Map.{
  CacheItem, CacheMap, Sweep, is_expired, init, get, get_with_default, cleanup, put, remove, clear,
  removal_keys, pop_all, after_get,
}
use aws_advanced_python_wrap.Cache.Map.View.{live, live-swept, get-swept}

-- A call with the readings of the clock that it makes.
pub data Call {ℓ} (K V : Type ℓ) : Type ℓ where
  get_call : K → ℕ → Call K V
  default_call : K → V → ℕ → ℕ → ℕ → Call K V
  put_call : K → V → ℕ → ℕ → Sweep K → Call K V
  remove_call : K → Sweep K → Call K V
  clear_call : Call K V

-- The readings of a sweep lie between two times.
pub record SweepWithin {ℓ} {K : Type ℓ} (t u : ℕ) (r : Sweep K) : Type ℓ where
  pub scan_before : (k : K) → r.scan k ≤ u
  pub order : t ≤ u

-- The readings of a call lie between two times, and do not fall.
abbrev pub Within {ℓ} : {K V : Type ℓ} → ℕ → ℕ → Call K V → Type ℓ
Within t u (get_call k now) = (t ≤ now) × (now ≤ u) × Unit
Within t u (default_call k v ttl now later) = (t ≤ now) × (now ≤ later) × (later ≤ u) × Unit
Within t u (put_call k v ttl now r) = SweepWithin t u r
Within t u (remove_call k r) = SweepWithin t u r
Within t u clear_call = (t ≤ u) × Unit

-- The clock does not run backwards over the calls.
abbrev pub InOrder {ℓ} : {K V : Type ℓ} → ℕ → List (ℕ × Call K V) → Type ℓ
InOrder t [] = Unit
InOrder t ((u, c) ∷ calls) = Within t u c × InOrder u calls

abbrev pub Ideal {ℓ} : Type ℓ → Type ℓ → Type ℓ
Ideal K V = K → Option (CacheItem V)

module _ {ℓ} {K V : Type ℓ} (dec : Discrete K) where
  pub step : Call K V → CacheMap K V → CacheMap K V × Option V
  step (get_call k now) m = get dec k now m
  step (default_call k v ttl now later) m =
      let (m', v') = get_with_default dec k v ttl now later m in (m', some v')
  step (put_call k v ttl now r) m = (put dec k v ttl now r m, none)
  step (remove_call k r) m = (remove dec k r m, none)
  step clear_call m = (clear m, none)

  abbrev write : K → Option (CacheItem V) → Ideal K V → Ideal K V
  write k o s = λ j. ite (dec k j) o (s j)

  ideal_default : Option V → K → V → ℕ → Ideal K V → Ideal K V × Option V
  ideal_default (some old) k v expiration s = (s, some old)
  ideal_default none k v expiration s =
      (write k (some (record { item = v; expiration_time = expiration })) s, some v)

  -- The ideal cache writes what is put, and reads what is not expired. It drops nothing else.
  pub ideal : Call K V → Ideal K V → Ideal K V × Option V
  unfolding ideal_default
  ideal (get_call k now) s = (s, live now (s k))
  ideal (default_call k v ttl now later) s = ideal_default (live now (s k)) k v (later + ttl) s
  ideal (put_call k v ttl now r) s =
      (write k (some (record { item = v; expiration_time = now + ttl })) s, none)
  ideal (remove_call k r) s = (write k none s, none)
  ideal clear_call s = ((λ _. none), none)

  -- From time `t` on both show the same.
  pub record Agrees (t : ℕ) (m : CacheMap K V) (s : Ideal K V) : Type ℓ where
    pub distinct : IsDistinct dec m.cache
    pub same : (k : K) (u : ℕ) → t ≤ u → live u (Dict.get dec k m.cache) ≡ live u (s k)

  pop_all-IsDistinct :
      (ks : List K) (d : Dict K (CacheItem V))
      → IsDistinct dec d
      → IsDistinct dec (pop_all dec ks d)
  unfolding pop_all
  pop_all-IsDistinct [] d h = h
  pop_all-IsDistinct (k ∷ ks) d h =
      pop_all-IsDistinct ks (Dict.pop dec k d) (pop-IsDistinct dec k d h)

  cleanup-Agrees :
      (t u : ℕ) (r : Sweep K) (m : CacheMap K V) (s : Ideal K V)
      → SweepWithin t u r
      → Agrees t m s
      → Agrees u (cleanup dec r m) s
  unfolding cleanup
  cleanup-Agrees t u r m s w a = elim (Bool-cases (ltb r.check m.cleanup_time_ns)) [
    | inl early ↦
        rw early
          (record { distinct = a.distinct; same = λ k v h. a.same k v (omega (arith, w.order)) })
    | inr due ↦ rw due (record {
      distinct = pop_all-IsDistinct (removal_keys r.scan m.cache) m.cache a.distinct;
      same = λ k v h. rw (get-swept dec r.scan k m.cache a.distinct) (
          live-swept (r.scan k) v (Dict.get dec k m.cache) (omega (arith, w.scan_before k))
          ∙ a.same k v (omega (arith, w.order)));
    })
  ]

  Agrees-later : (t u : ℕ) (m : CacheMap K V) (s : Ideal K V) → t ≤ u → Agrees t m s → Agrees u m s
  Agrees-later t u m s h a = record {
    distinct = a.distinct;
    same = λ j v hv. a.same j v (omega arith);
  }

  entry-Agrees :
      (t now u : ℕ) (k : K) (m : CacheMap K V) (s : Ideal K V) (o : Option (CacheItem V))
      → t ≤ now
      → now ≤ u
      → Agrees t m s
      → Dict.get dec k m.cache ≡ o
      → Agrees u (after_get dec k now m o).0 s × ((after_get dec k now m o).1 ≡ live now (s k))
  unfolding after_get live
  entry-Agrees t now u k m s none h h' a e =
      (Agrees-later t u m s (omega arith) a, rw e at (a.same k now h))
  entry-Agrees t now u k m s (some c) h h' a e = elim (Bool-cases (is_expired c now)) [
    | inl gone ↦ rw gone (
      record {
        distinct = pop-IsDistinct dec k m.cache a.distinct;
        same =
            λ j v hv. rw (Dict.get-pop dec k j m.cache) (ground (arith, a.same j v (omega arith)));
      },
      ground (arith, a.same k now h),
    )
    | inr fresh ↦ rw fresh (Agrees-later t u m s (omega arith) a, ground (arith, a.same k now h))
  ]

  default-Agrees :
      (t now later u : ℕ) (k : K) (v : V) (ttl : ℕ) (m : CacheMap K V) (s : Ideal K V)
      → t ≤ now
      → now ≤ u
      → Agrees t m s
      → (o : Option V) → live now (s k) ≡ o
      → Agrees u
          (get_with_default dec k v ttl now later m).0
          (ideal_default o k v (later + ttl) s).0
        × (some (get_with_default dec k v ttl now later m).1
            ≡ (ideal_default o k v (later + ttl) s).1)
  unfolding get_with_default ideal_default live
  default-Agrees t now later u k v ttl m s h h' a none e = (
    record {
      distinct = put-IsDistinct dec k _ m.cache a.distinct;
      same = λ j x hx.
          rw (Dict.get-put dec k j _ m.cache)
            (ground (arith, a.same j x (omega arith), a.same k now h));
    },
    ground (arith, a.same k now h),
  )
  default-Agrees t now later u k v ttl m s h h' a (some old) e = (
    record {
      distinct = put-IsDistinct dec k _ m.cache a.distinct;
      same = λ j x hx.
          rw (Dict.get-put dec k j _ m.cache)
            (ground (arith, a.same j x (omega arith), a.same k now h));
    },
    ground (arith, a.same k now h),
  )

  step-Agrees :
      (t u : ℕ) (c : Call K V) (m : CacheMap K V) (s : Ideal K V)
      → Within t u c
      → Agrees t m s
      → Agrees u (step c m).0 (ideal c s).0 × ((step c m).1 ≡ (ideal c s).1)
  unfolding step ideal put remove clear get
  step-Agrees t u (get_call k now) m s w a =
      entry-Agrees t now u k m s (Dict.get dec k m.cache) w.0 w.1 a refl
  step-Agrees t u (default_call k v ttl now later) m s w a =
      default-Agrees t now later u k v ttl m s w.0 (omega arith) a (live now (s k)) refl
  step-Agrees t u (put_call k v ttl now r) m s w a = (
    cleanup-Agrees t u r _ _ w (record {
      distinct = put-IsDistinct dec k _ m.cache a.distinct;
      same = λ j v' h. rw (Dict.get-put dec k j _ m.cache) (ground (arith, a.same j v' h));
    }),
    refl,
  )
  step-Agrees t u (remove_call k r) m s w a = (
    cleanup-Agrees t u r _ _ w (record {
      distinct = pop-IsDistinct dec k m.cache a.distinct;
      same = λ j v' h. rw (Dict.get-pop dec k j m.cache) (ground (arith, a.same j v' h));
    }),
    refl,
  )
  step-Agrees t u clear_call m s w a = (record { distinct = tt; same = λ k v h. refl }, refl)

  -- The results of a list of calls; each stands beside the time by which it has returned.
  pub run : List (ℕ × Call K V) → CacheMap K V → List (Option V)
  run [] m = []
  run ((u, c) ∷ calls) m = let (m', r) = step c m in r ∷ run calls m'

  pub run_ideal : List (ℕ × Call K V) → Ideal K V → List (Option V)
  run_ideal [] s = []
  run_ideal ((u, c) ∷ calls) s = let (s', r) = ideal c s in r ∷ run_ideal calls s'

  pub run-Agrees :
      (t : ℕ) (calls : List (ℕ × Call K V)) (m : CacheMap K V) (s : Ideal K V)
      → InOrder t calls
      → Agrees t m s
      → run calls m ≡ run_ideal calls s
  unfolding run run_ideal
  run-Agrees t [] m s h a = refl
  run-Agrees t ((u, c) ∷ calls) m s h a =
      let (a', e) = step-Agrees t u c m s h.0 a in cc (e, run-Agrees u calls _ _ h.1 a')

  -- A new cache answers every sequence of calls, at times that do not fall, as the ideal cache
  -- does: the clean-up is never seen, an entry is read until its expiration time and not after.
  pub run-init :
      (t : ℕ) (calls : List (ℕ × Call K V))
      → InOrder t calls
      → run calls (init t) ≡ run_ideal calls (λ _. none)
  unfolding init
  run-init t calls h = run-Agrees t calls _ _ h (record { distinct = tt; same = λ k u hu. refl })
