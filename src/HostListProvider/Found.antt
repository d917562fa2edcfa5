-- ===== src/HostListProvider/Found.antt =====
-- host_list_provider.py: which of the hosts made of the rows the dictionary by address keeps.
use aws_advanced_python_wrap.Prelude.{
  ◌≡◌, refl, ◌≢◌, ◌⊎◌, ◌↔◌, inl, inr, ap, sym, ◌∙◌, some, none, String, String-discrete, List, [],
  ◌∷◌, In, All, if_pos, if_neg,
}
use aws_advanced_python_wrap.Host.{HostInfo}
use aws_advanced_python_wrap.HostListProvider.{host_map}
use aws_advanced_python_wrap.Dict.{Dict, values, IsDistinct, put-IsDistinct}
use aws_advanced_python_wrap.Dict

-- `h` is in the list, and no host after it has its address.
abbrev pub Last : HostInfo → List HostInfo → Type 0
Last h [] = ⊥
Last h (x ∷ hs) = ((h ≡ x) × All (λ g. g.host ≢ h.host) hs) ⊎ Last h hs

-- Every host stands under its address.
abbrev Keyed : Dict String HostInfo → Type 0
Keyed [] = Unit
Keyed ((k, h) ∷ d) = (k ≡ h.host) × Keyed d

abbrev put : HostInfo → Dict String HostInfo → Dict String HostInfo
put h d = Dict.put String-discrete h.host h d

put-Keyed : (h : HostInfo) (d : Dict String HostInfo) → Keyed d → Keyed (put h d)
put-Keyed h [] q = (refl, tt)
put-Keyed h ((j, g) ∷ d) (e, q) = elim (String-discrete j h.host) [
  | yes p ↦ rw (if_pos _ p) (p, q)
  | no n ↦ rw (if_neg _ n) (e, put-Keyed h d q)
]

-- A host under another key than `k`.
absent_ne :
    (k : String) (h : HostInfo) (d : Dict String HostInfo)
    → Dict.get String-discrete k d ≡ none
    → Keyed d
    → In h (values d)
    → h.host ≢ k
absent_ne k h [] a q i = absurd i
absent_ne k h ((j, g) ∷ d) a (e, q) i = elim (String-discrete j k) [
  | yes p ↦ cc (a, if_pos (String-discrete j k) p (some g) (Dict.get String-discrete k d))
  | no n ↦ elim i [
    | inl f ↦ λ p. n (e ∙ (sym (ap (λ y. y.host) f) ∙ p))
    | inr i' ↦
        absent_ne k h d
          (sym (if_neg (String-discrete j k) n (some g) (Dict.get String-discrete k d)) ∙ a) q i'
  ]
]

In-of_put :
    (h x : HostInfo) (d : Dict String HostInfo)
    → Keyed d
    → IsDistinct String-discrete d
    → In h (values (put x d))
    → (h ≡ x) ⊎ (In h (values d) × (x.host ≢ h.host))
In-of_put h x [] q u i = elim i [ inl e ↦ inl e | inr b ↦ absurd b ]
In-of_put h x ((j, g) ∷ d) (e, q) (a, u) i = elim (String-discrete j x.host) [
  | yes p ↦ elim (let i' : (h ≡ x) ⊎ In h (values d) = rw (if_pos _ p) at i in i') [
    | inl f ↦ inl f
    | inr m ↦ inr (inr m, λ s. absent_ne j h d a q m (sym s ∙ sym p))
  ]
  | no n ↦ elim (let i' : (h ≡ g) ⊎ In h (values (put x d)) = rw (if_neg _ n) at i in i') [
    | inl f ↦ inr (inl f, λ s. n (e ∙ (sym (ap (λ y. y.host) f) ∙ sym s)))
    | inr m ↦ elim (In-of_put h x d q u m) [ inl f ↦ inl f | inr (m', s) ↦ inr (inr m', s) ]
  ]
]

put_of_In :
    (h x : HostInfo) (d : Dict String HostInfo)
    → Keyed d
    → (h ≡ x) ⊎ (In h (values d) × (x.host ≢ h.host))
    → In h (values (put x d))
put_of_In h x [] q i = elim i [ inl e ↦ inl e | inr b ↦ absurd b.0 ]
put_of_In h x ((j, g) ∷ d) (e, q) i = elim (String-discrete j x.host) [
  | yes p ↦ rw (if_pos _ p) (elim i [
    | inl f ↦ inl f
    | inr (inl f, s) ↦ absurd (s (sym p ∙ (e ∙ sym (ap (λ y. y.host) f))))
    | inr (inr m, s) ↦ inr m
  ])
  | no n ↦ rw (if_neg _ n) (elim i [
    | inl f ↦ inr (put_of_In h x d q (inl f))
    | inr (inl f, s) ↦ inl f
    | inr (inr m, s) ↦ inr (put_of_In h x d q (inr (m, s)))
  ])
]

-- What is kept of the hosts `hs` and of those that stand in the dictionary before.
abbrev Kept : HostInfo → Dict String HostInfo → List HostInfo → Type 0
Kept h d hs = Last h hs ⊎ (In h (values d) × All (λ g. g.host ≢ h.host) hs)

In-host_map_iff :
    (h : HostInfo) (d : Dict String HostInfo) (hs : List HostInfo)
    → Keyed d
    → IsDistinct String-discrete d
    → In h (values (host_map d hs)) ↔ Kept h d hs
unfolding host_map
In-host_map_iff h d [] q u = (λ i. inr (i, tt), λ k. elim k [ inl b ↦ absurd b | inr p ↦ p.0 ])
In-host_map_iff h d (x ∷ hs) q u =
    let later =
      In-host_map_iff h (put x d) hs (put-Keyed x d q)
        (put-IsDistinct String-discrete x.host x d u) in
    (
      λ i. elim (later.0 i) [
        | inl l ↦ inl (inr l)
        | inr (m, a) ↦ elim (In-of_put h x d q u m) [
          | inl e ↦ inl (inl (e, a))
          | inr (m', s) ↦ inr (m', (s, a))
        ]
      ],
      λ k. elim k [
        | inl (inl (e, a)) ↦ later.1 (inr (put_of_In h x d q (inl e), a))
        | inl (inr l) ↦ later.1 (inl l)
        | inr (m, (s, a)) ↦ later.1 (inr (put_of_In h x d q (inr (m, s)), a))
      ],
    )

-- The hosts that the dictionary keeps of those made of the rows are those after which no host with
-- the same address was made.
pub In-host_map :
    (h : HostInfo) (created : List HostInfo) → In h (values (host_map [] created)) ↔ Last h created
In-host_map h created =
    let kept = In-host_map_iff h [] created tt tt in
    (λ i. elim (kept.0 i) [ inl l ↦ l | inr p ↦ absurd p.0 ], λ l. kept.1 (inl l))
