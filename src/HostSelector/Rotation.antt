-- ===== src/HostSelector/Rotation.antt =====
-- host_selector.py: the rotation of `RoundRobinHostSelector`.
use aws_advanced_python_wrap.Prelude.{
  ℕ, suc, zero, ◌+◌, ◌-◌, ◌≡◌, refl, ◌≢◌, sym, ap, subst, ◌∙◌, true, false, Option, none, some,
  some_inj, List, [], ◌∷◌, if◌then◌else◌, ltb, String, String-discrete, test, get_elem?, length,
  ◌⊎◌, inl, inr, All, arith,
}
use aws_advanced_python_wrap.Dict.{get}
use aws_advanced_python_wrap.Errors.{Exc}
use aws_advanced_python_wrap.Exec.{Result, ok}
use aws_advanced_python_wrap.Host.{HostInfo}
use aws_advanced_python_wrap.HostSelector.{
  RoundRobinClusterInfo, index_from, last_host_index, next_index, weight_of, answer, take_next,
  serve, get_host,
}

abbrev pub IsDistinct : List HostInfo → Type 0
IsDistinct [] = Unit
IsDistinct (h ∷ hosts) = All (λ g. g.host ≢ h.host) hosts × IsDistinct hosts

pub test_yes : (s t : String) → s ≡ t → test (String-discrete s t) ≡ true
test_yes s t e = ground arith

test_no : (s t : String) → s ≢ t → test (String-discrete s t) ≡ false
test_no s t e = ground arith

index_from-absent :
    (name : String) (i : ℕ) (found : Option ℕ) (hosts : List HostInfo)
    → All (λ g. g.host ≢ name) hosts
    → index_from name i found hosts ≡ found
unfolding index_from
index_from-absent name i found [] a = refl
index_from-absent name i found (h ∷ hosts) (n, a) =
    rw (test_no h.host name n) (index_from-absent name (suc i) found hosts a)

-- A name that is not the first one's.
later :
    (h g : HostInfo) (hosts : List HostInfo) (j : ℕ)
    → All (λ x. x.host ≢ h.host) hosts
    → get_elem? hosts j ≡ some g
    → h.host ≢ g.host
later h g [] j a e = cc
later h g (x ∷ hosts) zero (n, a) e = λ p. n (ap (λ y. y.host) (some_inj e) ∙ sym p)
later h g (x ∷ hosts) (suc j) (n, a) e = later h g hosts j a e

add_zero : (i : ℕ) → i ≡ i + 0
add_zero i = omega arith

shift : (i j : ℕ) → suc i + j ≡ i + suc j
shift i j = omega arith

zero_add : (j : ℕ) → 0 + j ≡ j
zero_add j = omega arith

at_head :
    (h : HostInfo) (hosts : List HostInfo) (i : ℕ) (found : Option ℕ)
    → All (λ g. g.host ≢ h.host) hosts
    → index_from h.host
        (suc i)
        (if test (String-discrete h.host h.host) then some i else found)
        hosts
      ≡ some (i + 0)
at_head h hosts i found a =
    rw (test_yes h.host h.host refl)
      (index_from-absent h.host (suc i) (some i) hosts a ∙ ap some (add_zero i))

index_from-at :
    (hosts : List HostInfo) (g : HostInfo) (j i : ℕ) (found : Option ℕ)
    → IsDistinct hosts
    → get_elem? hosts j ≡ some g
    → index_from g.host i found hosts ≡ some (i + j)
unfolding index_from
index_from-at [] g j i found d e = cc
index_from-at (h ∷ hosts) g zero i found (a, d) e =
    subst
      (λ x.
        index_from x.host (suc i) (if test (String-discrete h.host x.host) then some i else found)
          hosts
        ≡ some (i + 0))
      (some_inj e) (at_head h hosts i found a)
index_from-at (h ∷ hosts) g (suc j) i found (a, d) e =
    rw (test_no h.host g.host (later h g hosts j a e))
      (index_from-at hosts g j (suc i) found d e ∙ ap some (shift i j))

index_from-zero :
    (hosts : List HostInfo) (g : HostInfo) (j : ℕ)
    → IsDistinct hosts
    → get_elem? hosts j ≡ some g
    → index_from g.host 0 none hosts ≡ some j
index_from-zero hosts g j d e = index_from-at hosts g j 0 none d e ∙ ap some (zero_add j)

positive : (k : ℕ) → ltb 0 (suc k) ≡ true
positive k = ground arith

one_less : (k : ℕ) → suc k - 1 ≡ k
one_less k = omega arith

-- The record after `g` was served, with `k` calls left for it.
abbrev pub serving : RoundRobinClusterInfo → HostInfo → ℕ → RoundRobinClusterInfo
serving info g k = record info { last_host = some g; weight_counter = k }

get_host-again :
    (hosts : List HostInfo) (info : RoundRobinClusterInfo) (g : HostInfo) (j k : ℕ)
    → IsDistinct hosts
    → get_elem? hosts j ≡ some g
    → get_host hosts (serving info g (suc k)) ≡ (ok g, serving info g k)
unfolding get_host last_host_index serve answer
get_host-again [] info g j k d e = cc
get_host-again (h ∷ hosts) info g j k d e =
    rw (index_from-zero (h ∷ hosts) g j d e, e, positive k, one_less k) refl

get_host-next :
    (hosts : List HostInfo) (info : RoundRobinClusterInfo) (h g : HostInfo) (i k : ℕ)
    → IsDistinct hosts
    → get_elem? hosts i ≡ some h
    → get_elem? hosts (next_index (some i) hosts) ≡ some g
    → weight_of info g ≡ suc k
    → get_host hosts (serving info h 0) ≡ (ok g, serving info g k)
unfolding get_host last_host_index serve take_next answer
get_host-next [] info h g i k d e f w = cc
get_host-next (x ∷ hosts) info h g i k d e f w =
    rw (index_from-zero (x ∷ hosts) h i d e, f, w, one_less k) refl

-- The answers of calls one after the other.
unfoldable pub served :
    ℕ → List HostInfo → RoundRobinClusterInfo → List (Result Exc HostInfo) × RoundRobinClusterInfo
served zero hosts info = ([], info)
served (suc n) hosts info =
    let r = get_host hosts info in let rest = served n hosts r.1 in (r.0 ∷ rest.0, rest.1)

abbrev pub copies : ℕ → HostInfo → List (Result Exc HostInfo)
copies zero g = []
copies (suc n) g = ok g ∷ copies n g

served-again :
    (n : ℕ) (hosts : List HostInfo) (info : RoundRobinClusterInfo) (g : HostInfo) (j : ℕ)
    → IsDistinct hosts
    → get_elem? hosts j ≡ some g
    → served n hosts (serving info g n) ≡ (copies n g, serving info g 0)
unfolding served
served-again zero hosts info g j d e = refl
served-again (suc n) hosts info g j d e =
    rw (get_host-again hosts info g j n d e, served-again n hosts info g j d e) refl

-- `g` stands after the host number `i`, or first if that is the last one.
abbrev pub Follows : List HostInfo → ℕ → HostInfo → Type 0
Follows hosts i g =
    (get_elem? hosts (suc i) ≡ some g) ⊎ ((length hosts ≡ suc i) × (get_elem? hosts 0 ≡ some g))

-- `n` is the weight given for the name of `g`, or the default weight if none is given.
abbrev pub Weighs : RoundRobinClusterInfo → HostInfo → ℕ → Type 0
Weighs info g n =
    (get String-discrete g.host info.cluster_weights_dict ≡ some n)
    ⊎ ((get String-discrete g.host info.cluster_weights_dict ≡ none) × (info.default_weight ≡ n))

get_elem?-bound :
    (hosts : List HostInfo) (j : ℕ) (g : HostInfo)
    → get_elem? hosts j ≡ some g
    → ltb j (length hosts) ≡ true
get_elem?-bound [] j g e = cc
get_elem?-bound (h ∷ hosts) zero g e = ground arith
get_elem?-bound (h ∷ hosts) (suc j) g e = ground (arith, get_elem?-bound hosts j g e)

next_index-Follows :
    (hosts : List HostInfo) (i : ℕ) (g : HostInfo)
    → Follows hosts i g
    → get_elem? hosts (next_index (some i) hosts) ≡ some g
unfolding next_index
next_index-Follows hosts i g (inl e) = ground (arith, get_elem?-bound hosts (suc i) g e)
next_index-Follows hosts i g (inr (l, e)) = ground (arith, l)

weight_of-Weighs :
    (info : RoundRobinClusterInfo) (g : HostInfo) (n : ℕ) → Weighs info g n → weight_of info g ≡ n
unfolding weight_of
weight_of-Weighs info g n (inl e) = rw (weight_of, e) refl
weight_of-Weighs info g n (inr (e, d)) = rw (weight_of, e) d

-- Let the eligible hosts have different names, let host number `i` have been served last, and used
-- up its turn. Then the host after it, or the first host after the last one, is served next, as many
-- times in a row as its weight says, and has then used up its turn. The weight is the one given for
-- the host's name or else the default weight, and it is at least 1.
pub served-rotation :
    (hosts : List HostInfo) (info : RoundRobinClusterInfo) (h g : HostInfo) (i k : ℕ)
    → IsDistinct hosts
    → get_elem? hosts i ≡ some h
    → Follows hosts i g
    → Weighs info g (suc k)
    → served (suc k) hosts (serving info h 0) ≡ (copies (suc k) g, serving info g 0)
unfolding served
served-rotation hosts info h g i k d e f w =
    let at = next_index-Follows hosts i g f in
    rw
      (
        get_host-next hosts info h g i k d e at (weight_of-Weighs info g (suc k) w),
        served-again k hosts info g (next_index (some i) hosts) d at,
      )
      refl
