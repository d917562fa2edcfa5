-- ===== src/Dict.antt =====
-- Python's `dict`: an association list in the order of insertion, over keys with a decidable
-- equality. Assigning to a present key keeps its place; `pop` of an absent key changes nothing.
use aws_advanced_python_wrap.Prelude.{
  ◌≡◌, refl, ite, if_pos, if_neg, List, [], ◌∷◌, Option, none, some, arith, map,
}

abbrev pub Dict {ℓ} : Type ℓ → Type ℓ → Type ℓ
Dict K V = List (K × V)

module _ {ℓ} {K V : Type ℓ} where
  abbrev pub keys : Dict K V → List K
  keys = map (λ e. e.0)

  abbrev pub values : Dict K V → List V
  values = map (λ e. e.1)

module _ {ℓ} {K V : Type ℓ} (dec : Discrete K) where
  -- `d.get(k)`
  abbrev pub get : K → Dict K V → Option V
  get k [] = none
  get k ((j, v) ∷ d) = ite (dec j k) (some v) (get k d)

  -- `d[k] = v`
  abbrev pub put : K → V → Dict K V → Dict K V
  put k v [] = (k, v) ∷ []
  put k v ((j, w) ∷ d) = ite (dec j k) ((j, v) ∷ d) ((j, w) ∷ put k v d)

  -- `d.pop(k, None)`
  abbrev pub pop : K → Dict K V → Dict K V
  pop k [] = []
  pop k ((j, w) ∷ d) = let rest = pop k d in ite (dec j k) rest ((j, w) ∷ rest)

  pub get-put :
      (k j : K) (v : V) (d : Dict K V) → get j (put k v d) ≡ ite (dec k j) (some v) (get j d)
  get-put k j v [] = refl
  get-put k j v ((i, w) ∷ d) = ground (arith, get-put k j v d)

  pub get-pop : (k j : K) (d : Dict K V) → get j (pop k d) ≡ ite (dec k j) none (get j d)
  get-pop k j [] = ground arith
  get-pop k j ((i, w) ∷ d) = ground (arith, get-pop k j d)

  -- No key stands twice: what Python's `dict` guarantees.
  abbrev pub IsDistinct : Dict K V → Type ℓ
  IsDistinct [] = Unit
  IsDistinct ((k, v) ∷ d) = (get k d ≡ none) × IsDistinct d

  pub put-IsDistinct : (k : K) (v : V) (d : Dict K V) → IsDistinct d → IsDistinct (put k v d)
  put-IsDistinct k v [] h = (refl, tt)
  put-IsDistinct k v ((j, w) ∷ d) h = elim (dec j k) [
    | yes e ↦ rw (if_pos _ e) h
    | no n ↦ rw (if_neg _ n) (rw (get-put k j v d) (ground arith), put-IsDistinct k v d h.1)
  ]

  pub pop-IsDistinct : (k : K) (d : Dict K V) → IsDistinct d → IsDistinct (pop k d)
  pop-IsDistinct k [] h = tt
  pop-IsDistinct k ((j, w) ∷ d) h = elim (dec j k) [
    | yes e ↦ rw (if_pos _ e) (pop-IsDistinct k d h.1)
    | no n ↦ rw (if_neg _ n) (rw (get-pop k j d) (ground arith), pop-IsDistinct k d h.1)
  ]
