-- ===== src/StaleDns/Verified.antt =====
-- stale_dns_plugin.py: which connection `get_verified_connection` returns.
use aws_advanced_python_wrap.Prelude.{
  ℕ, ◌≡◌, ◌≢◌, ◌⊎◌, refl, sym, subst, Bool, true, false, Bool-cases, inl, inr, not, Option, none,
  some, String, String-discrete, test, if◌then◌else◌,
}
use aws_advanced_python_wrap.Errors.{Exc, aws_wrapper_error}
use aws_advanced_python_wrap.Exec.{Result, ok, raised, ignore}
use aws_advanced_python_wrap.Exec.Endings.{
  Ends, Ends-ok, Ends-raised, Ends-bind, Ends-if, Ends-any, Ends-weaken,
}
use aws_advanced_python_wrap.Host.{HostInfo, mem}
use aws_advanced_python_wrap.StaleDns.{
  State, Outside, Act, host_names, update_topology, keep_candidate, get_writer, known_writer,
  known_address, note_initial, connect_to_writer, replace, compare_address, compare_writer, decide,
  verify, get_verified_connection,
}

module _ {W : Type 0} (out : Outside W) where
  -- `s` knows the writer `h` and an address of it that is not the cluster's.
  abbrev pub Stale : String → HostInfo → State W → Type 0
  Stale cluster_address h s =
      (a : String) × (s.writer_host_info ≡ some h)
      × (s.writer_host_address ≡ some a)
      × (a ≢ cluster_address)

  -- The connection was made to the known writer, an allowed host, when the name was stale.
  abbrev pub Replaced : String → ℕ → Type 0
  Replaced cluster_address c =
      (h : HostInfo) × (s : State W) × (s' : State W) × Stale cluster_address h s
      × (mem h.host (host_names (out.hosts s.world)) ≡ true)
      × (out.connect h s ≡ (ok c, s'))

  abbrev Verdict : String → Option HostInfo × State W → Type 0
  Verdict cluster_address (none, s) = Unit
  Verdict cluster_address (some h, s) = Stale cluster_address h s

  abbrev Known : Option HostInfo × State W → Type 0
  Known (none, s) = Unit
  Known (some h, s) = s.writer_host_info ≡ some h

  keep_candidate-Known : (o : Option HostInfo) (s : State W) → Known (keep_candidate out o s)
  unfolding keep_candidate
  keep_candidate-Known none s = tt
  keep_candidate-Known (some h) s = elim (Bool-cases (out.is_rds_cluster_dns h.host)) [
    | inl e ↦ rw e tt
    | inr e ↦ rw e refl
  ]

  known_writer-Known :
      (o : Option HostInfo) (s : State W) → s.writer_host_info ≡ o → Known (known_writer out o s)
  unfolding known_writer
  known_writer-Known (some h) s e = e
  known_writer-Known none s e = keep_candidate-Known (get_writer (out.all_hosts s.world)) s

  abbrev Addressed : HostInfo → Option String × State W → Type 0
  Addressed h (none, s) = Unit
  Addressed h (some a, s) = (s.writer_host_info ≡ some h) × (s.writer_host_address ≡ some a)

  resolved :
      (h : HostInfo) (a : Option String) (s : State W)
      → s.writer_host_info ≡ some h
      → Addressed h (a, record s { writer_host_address = a })
  resolved h none s e = tt
  resolved h (some a) s e = (e, refl)

  known_address-Addressed :
      (h : HostInfo) (a : Option String) (s : State W)
      → s.writer_host_info ≡ some h
      → s.writer_host_address ≡ a
      → Addressed h (known_address out h a s)
  unfolding known_address
  known_address-Addressed h (some a) s e f = (e, f)
  known_address-Addressed h none s e f = resolved h (out.gethostbyname h.host s.world) s e

  tested :
      (cluster_address : String) (h : HostInfo) (a : String) (s : State W)
      (d : Dec (a ≡ cluster_address))
      → s.writer_host_info ≡ some h
      → s.writer_host_address ≡ some a
      → Verdict cluster_address (if test d then (none, s) else (some h, s))
  tested cluster_address h a s (yes q) e f = tt
  tested cluster_address h a s (no n) e f = (a, e, f, n)

  compare_address-Verdict :
      (cluster_address : String) (h : HostInfo) (p : Option String × State W)
      → Addressed h p
      → Verdict cluster_address (compare_address out cluster_address h p)
  unfolding compare_address
  compare_address-Verdict cluster_address h (none, s) k = tt
  compare_address-Verdict cluster_address h (some a, s) (e, f) =
      tested cluster_address h a s (String-discrete a cluster_address) e f

  compare_writer-Verdict :
      (cluster_address : String) (p : Option HostInfo × State W)
      → Known p
      → Verdict cluster_address (compare_writer out cluster_address p)
  unfolding compare_writer
  compare_writer-Verdict cluster_address (none, s) k = tt
  compare_writer-Verdict cluster_address (some h, s) k =
      compare_address-Verdict cluster_address h (known_address out h s.writer_host_address s)
        (known_address-Addressed h s.writer_host_address s k refl)

  put_world-made :
      {A : Type 0} (p : Result Exc A × State W) → Ends (λ a t. p ≡ (ok a, t)) (λ e t. Unit {0}) p
  put_world-made (ok a, s) = Ends-ok a s refl
  put_world-made (raised e, s) = Ends-raised e s tt

  anything : {A : Type 0} (p : Result Exc A × State W) → Ends (λ a t. Unit {0}) (λ e t. Unit {0}) p
  anything p = Ends-any {P = λ s. Unit} p tt (λ a s h. tt) (λ e s h. tt)

  connect_to_writer-Ends :
      (is_initial : Bool) (conn : ℕ) (h : HostInfo) (s : State W) (Q : ℕ → Type 0)
      → ((c : ℕ) (s' : State W) → out.connect h s ≡ (ok c, s') → Q c)
      → Ends (λ c t. Q c) (λ e t. Unit {0}) (connect_to_writer out is_initial conn h s)
  unfolding connect_to_writer
  connect_to_writer-Ends is_initial conn h s Q k =
      Ends-bind (out.connect h s) (put_world-made (out.connect h s)) (λ c t e.
        let u = note_initial out is_initial h t in
        Ends-bind (ignore (out.close conn) u) (anything (ignore (out.close conn) u))
          (λ x z y. Ends-ok c z (k c t e)))

  decide-Ends :
      (is_initial : Bool) (conn : ℕ) (cluster_address : String) (p : Option HostInfo × State W)
      → Verdict cluster_address p
      → Ends
          (λ c t. (c ≡ conn) ⊎ Replaced cluster_address c)
          (λ e t. Unit {0})
          (decide out is_initial conn p)
  unfolding decide replace
  decide-Ends is_initial conn cluster_address (none, s) v = Ends-ok conn s (inl refl)
  decide-Ends is_initial conn cluster_address (some h, s) v =
      Ends-if (mem h.host (host_names (out.hosts s.world)))
        (λ e.
          connect_to_writer-Ends is_initial conn h s (λ c. (c ≡ conn) ⊎ Replaced cluster_address c)
            (λ c s' m. inr (h, s, s', v, e, m)))
        (λ e. Ends-raised aws_wrapper_error s tt)

  -- The connection is that of the caller, or one that replaced it.
  abbrev pub Answered : String → Act W ℕ → ℕ → Type 0
  Answered host connect_func c =
      ((s : State W) × (s' : State W) × (connect_func s ≡ (ok c, s')))
      ⊎ ((out.is_writer_cluster_dns host ≡ true)
          × ((a : String) × (w : W) × (out.gethostbyname host w ≡ some a) × Replaced a c))

  verify-Ends :
      (is_initial : Bool) (conn : ℕ) (o : Option String) (s : State W) (Q : ℕ → Type 0)
      → Q conn
      → ((a : String) (c : ℕ) → o ≡ some a → Replaced a c → Q c)
      → Ends (λ c t. Q c) (λ e t. Unit {0}) (verify out is_initial conn o s)
  unfolding verify
  verify-Ends is_initial conn none s Q q k = Ends-ok conn s q
  verify-Ends is_initial conn (some a) s Q q k =
      Ends-bind (update_topology out conn s) (anything (update_topology out conn s)) (λ x t y.
        let p = compare_writer out a (known_writer out t.writer_host_info t) in
        Ends-weaken (decide out is_initial conn p)
          (decide-Ends is_initial conn a p (
            compare_writer-Verdict a (known_writer out t.writer_host_info t)
              (known_writer-Known t.writer_host_info t refl)))
          (λ c u h. elim h [ inl e ↦ subst Q (sym e) q | inr r ↦ k a c refl r ]) (λ e u h. h))

unless :
    {W : Type 0} {Q : ℕ → State W → Type 0} {R : Exc → State W → Type 0} (b : Bool) (m n : Act W ℕ)
    (s : State W)
    → Ends Q R (m s)
    → (b ≡ true → Ends Q R (n s))
    → Ends Q R ((if not b then m else n) s)
unless true m n s p q = q refl
unless false m n s p q = p

-- A connection that `get_verified_connection` returns is the caller's own; or the name is that of a
-- writer endpoint, and the connection was made to the writer that the helper knows, an allowed
-- host, while the address of that writer was known and differed from one that the name gave.
pub get_verified_connection-Answered :
    {W : Type 0} (out : Outside W) (is_initial : Bool) (host : String) (connect_func : Act W ℕ)
    (s : State W)
    → Ends
        (λ c t. Answered out host connect_func c)
        (λ e t. Unit {0})
        (get_verified_connection out is_initial host connect_func s)
unfolding get_verified_connection
get_verified_connection-Answered out is_initial host connect_func s =
    unless (out.is_writer_cluster_dns host) connect_func _ s
      (Ends-weaken (connect_func s) (put_world-made out (connect_func s)) (λ c t m. inl (s, t, m))
        (λ x t h. h))
      (λ e. Ends-bind (connect_func s) (put_world-made out (connect_func s)) (λ conn t m.
        verify-Ends out is_initial conn (out.gethostbyname host t.world) t
          (Answered out host connect_func) (inl (s, t, m))
          (λ a c g r. inr (e, (a, t.world, g, r)))))
