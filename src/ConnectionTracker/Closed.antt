-- ===== src/ConnectionTracker/Closed.antt =====
-- aurora_connection_tracker_plugin.py: what is tracked is closed when its host is invalidated.
use aws_advanced_python_wrap.Prelude.{
  ℕ, ◌≡◌, ◌≢◌, ◌⊎◌, some_inj, refl, sym, subst, Bool, true, false, Bool-cases, inl, inr, ite,
  if_pos, if_neg, Option, none, some, List, [], ◌∷◌, ◌++◌, String, String-discrete, ℕ_discrete,
  if◌then◌else◌, first, In, In-append, arith,
}
use aws_advanced_python_wrap.Dict.{Dict, get-put}
use aws_advanced_python_wrap.Dict
use aws_advanced_python_wrap.Concurrent.{is_in}
use aws_advanced_python_wrap.Host.{HostInfo, as_alias}
use aws_advanced_python_wrap.ConnectionTracker.{
  Tracker, set_of, tracked, add_connection, track_connection, characters, close_all,
  invalidate_endpoint, track_found, populate_opened_connection_set, invalidate_aliases,
  invalidate_all_connections,
}

In-is_in : (c : ℕ) (cs : List ℕ) → is_in ℕ_discrete c cs ≡ true → In c cs
unfolding is_in
In-is_in c [] e = cc
In-is_in c (d ∷ cs) e = elim (ℕ_discrete d c) [
  | yes q ↦ inl (sym q)
  | no n ↦ inr (In-is_in c cs (ground arith))
]

In-either :
    (b : Bool) (c : ℕ) (xs ys : List ℕ)
    → (b ≡ true → In c xs)
    → In c ys
    → In c (if b then xs else ys)
In-either true c xs ys p q = p refl
In-either false c xs ys p q = q

add_connection_self : (c : ℕ) (cs : List ℕ) → In c (add_connection c cs)
unfolding add_connection
add_connection_self c cs =
    In-either (is_in ℕ_discrete c cs) c cs (cs ++ (c ∷ [])) (In-is_in c cs)
      ((In-append c cs (c ∷ [])).1 (inr (inl refl)))

add_connection-In : (c d : ℕ) (cs : List ℕ) → In d cs → In d (add_connection c cs)
unfolding add_connection
add_connection-In c d cs i =
    In-either (is_in ℕ_discrete c cs) d cs (cs ++ (c ∷ [])) (λ e. i)
      ((In-append d cs (c ∷ [])).1 (inl i))

tracked-put :
    (k endpoint : String) (cs : List ℕ) (t : Tracker)
    → set_of
        (Dict.get String-discrete k (Dict.put String-discrete endpoint cs t.opened_connections))
      ≡ ite (String-discrete endpoint k) cs (tracked k t)
tracked-put k endpoint cs t = elim (String-discrete endpoint k) [
  | yes e ↦
      rw (get-put String-discrete endpoint k cs t.opened_connections, if_pos _ e, if_pos _ e) refl
  | no n ↦
      rw (get-put String-discrete endpoint k cs t.opened_connections, if_neg _ n, if_neg _ n) refl
]

ite-In :
    {k l : String} (d : Dec (k ≡ l)) (c : ℕ) (xs ys : List ℕ)
    → (k ≡ l → In c xs)
    → (k ≢ l → In c ys)
    → In c (ite d xs ys)
ite-In (yes e) c xs ys p q = p e
ite-In (no n) c xs ys p q = q n

In-put :
    (k endpoint : String) (c : ℕ) (cs : List ℕ) (t : Tracker)
    → (endpoint ≡ k → In c cs)
    → (endpoint ≢ k → In c (tracked k t))
    → In c (
        set_of
          (Dict.get String-discrete k (Dict.put String-discrete endpoint cs t.opened_connections)))
In-put k endpoint c cs t p q =
    subst (In c) (sym (tracked-put k endpoint cs t))
      (ite-In (String-discrete endpoint k) c cs (tracked k t) p q)

track_self :
    (endpoint : String) (c : ℕ) (t : Tracker)
    → In c (tracked endpoint (track_connection endpoint c t))
unfolding track_connection
track_self endpoint c t =
    In-put endpoint endpoint c (add_connection c (tracked endpoint t)) t
      (λ e. add_connection_self c (tracked endpoint t)) (λ n. absurd (n refl))

track-In :
    (k endpoint : String) (c d : ℕ) (t : Tracker)
    → In d (tracked k t)
    → In d (tracked k (track_connection endpoint c t))
unfolding track_connection
track-In k endpoint c d t i =
    In-put k endpoint d (add_connection c (tracked endpoint t)) t
      (λ e. add_connection-In c d (tracked endpoint t) (subst (λ x. In d (tracked x t)) (sym e) i))
      (λ n. i)

track_found-In :
    (k : String) (c d : ℕ) (o : Option String) (t : Tracker)
    → In d (tracked k t)
    → In d (tracked k (track_found c o t))
unfolding track_found
track_found-In k c d none t i = i
track_found-In k c d (some endpoint) t i = track-In k endpoint c d t i

-- The connection is closed, or it is still tracked for the endpoint.
abbrev Kept : String → ℕ → Tracker → Type 0
Kept k d t = In d t.closed ⊎ In d (tracked k t)

close_all-Kept :
    (k endpoint : String) (d : ℕ) (o : Option (List ℕ)) (t : Tracker)
    → Dict.get String-discrete endpoint t.opened_connections ≡ o
    → Kept k d t
    → Kept k d (close_all endpoint o t)
unfolding close_all
close_all-Kept k endpoint d none t e i = i
close_all-Kept k endpoint d (some cs) t e (inl i) = inl ((In-append d cs t.closed).1 (inr i))
close_all-Kept k endpoint d (some cs) t e (inr i) = elim (String-discrete endpoint k) [
  | yes q ↦ inl (
      (In-append d cs t.closed).1
        (inl (subst (λ o. In d (set_of o)) e (subst (λ x. In d (tracked x t)) (sym q) i))))
  | no n ↦ inr (In-put k endpoint d [] t (λ q. absurd (n q)) (λ n. i))
]

invalidate-Kept :
    (k : String) (d : ℕ) (o : Option String) (t : Tracker)
    → Kept k d t
    → Kept k d (invalidate_endpoint o t)
unfolding invalidate_endpoint
invalidate-Kept k d none t i = i
invalidate-Kept k d (some endpoint) t i =
    close_all-Kept k endpoint d (Dict.get String-discrete endpoint t.opened_connections) t refl i

close_all-In :
    (k : String) (d : ℕ) (o : Option (List ℕ)) (t : Tracker)
    → Dict.get String-discrete k t.opened_connections ≡ o
    → Kept k d t
    → In d (close_all k o t).closed
unfolding close_all
close_all-In k d none t e (inl i) = i
close_all-In k d none t e (inr i) = absurd (subst (λ o. In d (set_of o)) e i)
close_all-In k d (some cs) t e (inl i) = (In-append d cs t.closed).1 (inr i)
close_all-In k d (some cs) t e (inr i) =
    (In-append d cs t.closed).1 (inl (subst (λ o. In d (set_of o)) e i))

invalidate-In :
    (k : String) (d : ℕ) (o : Option String) (t : Tracker)
    → o ≡ some k
    → Kept k d t
    → In d (invalidate_endpoint o t).closed
unfolding invalidate_endpoint
invalidate-In k d none t e i = cc
invalidate-In k d (some endpoint) t e i =
    close_all-In endpoint d (Dict.get String-discrete endpoint t.opened_connections) t refl
      (subst (λ x. Kept x d t) (sym (some_inj e)) i)

module _ (is_instance is_instance_alias : String → Bool) where
  -- The connections opened since, each with its host.
  abbrev pub populate_all : List (HostInfo × ℕ) → Tracker → Tracker
  populate_all [] t = t
  populate_all ((h, c) ∷ opened) t =
      populate_all opened (populate_opened_connection_set is_instance is_instance_alias h c t)

  populate-In :
      (k : String) (h : HostInfo) (c d : ℕ) (t : Tracker)
      → In d (tracked k t)
      → In d (tracked k (populate_opened_connection_set is_instance is_instance_alias h c t))
  unfolding populate_opened_connection_set
  populate-In k h c d t i = elim (Bool-cases (is_instance h.host)) [
    | inl e ↦ rw e (track-In k (as_alias h) c d t i)
    | inr e ↦ rw e (track_found-In k c d (first is_instance_alias h.all_aliases) t i)
  ]

  populate_all-In :
      (k : String) (opened : List (HostInfo × ℕ)) (d : ℕ) (t : Tracker)
      → In d (tracked k t)
      → In d (tracked k (populate_all opened t))
  populate_all-In k [] d t i = i
  populate_all-In k ((h, c) ∷ opened) d t i =
      populate_all-In k opened d
        (populate_opened_connection_set is_instance is_instance_alias h c t)
        (populate-In k h c d t i)

  -- The endpoint under which a host is tracked, found in two ways by the source.
  abbrev pub TrackedUnder : HostInfo → String → Type 0
  TrackedUnder h k =
      (first is_instance_alias h.all_aliases ≡ some k)
      × (is_instance h.host ≡ true → as_alias h ≡ k)

  populate_self :
      (k : String) (h : HostInfo) (c : ℕ) (t : Tracker)
      → TrackedUnder h k
      → In c (tracked k (populate_opened_connection_set is_instance is_instance_alias h c t))
  unfolding populate_opened_connection_set track_found
  populate_self k h c t (alias, endpoint) = elim (Bool-cases (is_instance h.host)) [
    | inl e ↦ rw e (
        subst (λ x. In c (tracked x (track_connection (as_alias h) c t))) (endpoint e)
          (track_self (as_alias h) c t))
    | inr e ↦ rw (e, alias) (track_self k c t)
  ]

-- Let the first alias of a host that names an instance be the one under which the tracker puts the
-- host. Then a connection that was populated for the host is closed by invalidate_all_connections for
-- that host, whatever other connections were populated in between.
pub invalidate-populate :
    (is_instance is_instance_alias : String → Bool) (h : HostInfo) (k : String) (c : ℕ)
    → (opened : List (HostInfo × ℕ)) (t : Tracker) → TrackedUnder is_instance is_instance_alias h k
    → In c
        (invalidate_all_connections is_instance is_instance_alias (some h) (
          populate_all is_instance is_instance_alias opened
            (populate_opened_connection_set is_instance is_instance_alias h c t))).closed
unfolding invalidate_all_connections invalidate_aliases
invalidate-populate is_instance is_instance_alias h k c opened t under =
    let u =
      populate_all is_instance is_instance_alias opened
        (populate_opened_connection_set is_instance is_instance_alias h c t) in
    let held =
      populate_all-In is_instance is_instance_alias k opened c
        (populate_opened_connection_set is_instance is_instance_alias h c t)
        (populate_self is_instance is_instance_alias k h c t under) in
    let o = first is_instance_alias (characters (as_alias h)) in
    invalidate-In k c (first is_instance_alias h.all_aliases) (invalidate_endpoint o u) under.0
      (invalidate-Kept k c o u (inr held))
