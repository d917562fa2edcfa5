-- ===== src/ReaderFailover/Connected.antt =====
-- reader_failover_handler.py: to which host a connection is that the handler returns.
use aws_advanced_python_wrap.Prelude.{
  ℕ, ◌≡◌, refl, inl, inr, Bool, true, false, not, Bool-cases, some, List, [], ◌∷◌, if◌then◌else◌,
  In, All, In-append,
}
use aws_advanced_python_wrap.Errors.{Exc}
use aws_advanced_python_wrap.Exec.{Result, ok, raised}
use aws_advanced_python_wrap.Host.{HostInfo}
use aws_advanced_python_wrap.Host.Role.{is_writer}
use aws_advanced_python_wrap.Failover.{ReaderFailoverResult}
use aws_advanced_python_wrap.ReaderFailover.{
  Service, State, failed_with, failed_reader_failover_result, is_final, attempt_connection,
  first_final, run_batch, get_connection_from_host_group, get_reader_hosts_by_priority,
  get_reader_connection, active_readers, down_hosts,
}
use aws_advanced_python_wrap.ReaderFailover.Priority.{IsShuffle, shuffled}

-- The outcomes of a batch are of its hosts.
pub record IsRace {W : Type 0} (v : Service W) : Type 0 where
  pub own : (batch : List HostInfo) (w : W) → All (λ a. In a.0 batch) (v.race batch w).0

-- A connected result names a host of the list.
abbrev NamesHost : List HostInfo → ReaderFailoverResult → Type 0
NamesHost hosts r = r.is_connected ≡ true → (h : HostInfo) × (r.new_host ≡ some h) × In h hosts

widen :
    (xs ys : List HostInfo) (r : ReaderFailoverResult)
    → ((h : HostInfo) → In h xs → In h ys)
    → NamesHost xs r
    → NamesHost ys r
widen xs ys r sub n c = let (h, e, i) = n c in (h, e, sub h i)

unconnected :
    (hosts : List HostInfo) (r : ReaderFailoverResult) → r.is_connected ≡ false → NamesHost hosts r
unconnected hosts r e c = absurd (clash r.is_connected e c)
  where
    clash : (b : Bool) → b ≡ false → b ≡ true → ⊥
    clash true p q = cc
    clash false p q = cc

module _ {W : Type 0} (v : Service W) where
  abbrev Answer : Type 0
  Answer = ReaderFailoverResult × State W

  choose-NamesHost :
      (hosts : List HostInfo) (b : Bool) (x y : Answer)
      → NamesHost hosts x.0
      → NamesHost hosts y.0
      → NamesHost hosts (if b then x else y).0
  choose-NamesHost hosts true x y p q = p
  choose-NamesHost hosts false x y p q = q

  attempt-NamesHost :
      (hosts : List HostInfo) (h : HostInfo) (r : Result Exc ℕ)
      → In h hosts
      → NamesHost hosts (attempt_connection v (h, r))
  unfolding attempt_connection
  attempt-NamesHost hosts h (ok conn) i = λ c. (h, refl, i)
  attempt-NamesHost hosts h (raised e) i = refused (v.is_network_exception e)
    where
      refused :
          (b : Bool)
          → NamesHost hosts (if not b then failed_with v e else failed_reader_failover_result)
      refused true = unconnected hosts failed_reader_failover_result refl
      refused false = unconnected hosts (failed_with v e) refl

  first_final-NamesHost :
      (hosts : List HostInfo) (attempts : List (HostInfo × Result Exc ℕ))
      → All (λ a. In a.0 hosts) attempts
      → NamesHost hosts (first_final v attempts)
  unfolding first_final
  first_final-NamesHost hosts [] a = unconnected hosts failed_reader_failover_result refl
  first_final-NamesHost hosts ((h, r) ∷ attempts) (i, a) =
      elim (Bool-cases (is_final (attempt_connection v (h, r)))) [
        | inl e ↦ rw e (attempt-NamesHost hosts h r i)
        | inr e ↦ rw e (first_final-NamesHost hosts attempts a)
      ]

  module _ (race_law : IsRace v) where
    open race_law use {own}

    run_batch-NamesHost :
        (batch : List HostInfo) (s : State W) → NamesHost batch (run_batch v batch s).0
    unfolding run_batch
    run_batch-NamesHost batch s =
        first_final-NamesHost batch (v.race batch s.world).0 (own batch s.world)

    group-NamesHost :
        (hosts : List HostInfo) (s : State W)
        → NamesHost hosts (get_connection_from_host_group v hosts s).0
    unfolding get_connection_from_host_group
    group-NamesHost [] s = unconnected [] failed_reader_failover_result refl
    group-NamesHost (h ∷ []) s =
        let r = run_batch v (h ∷ []) s in
        choose-NamesHost (h ∷ []) (is_final r.0) r (failed_reader_failover_result, r.1)
          (run_batch-NamesHost (h ∷ []) s) (unconnected (h ∷ []) failed_reader_failover_result refl)
    group-NamesHost (h ∷ g ∷ hosts) s =
        let r = run_batch v (h ∷ g ∷ []) s in
        choose-NamesHost (h ∷ g ∷ hosts) (is_final r.0) r
          (get_connection_from_host_group v hosts r.1)
          (widen (h ∷ g ∷ []) (h ∷ g ∷ hosts) r.0
            (λ x i. elim i [
              | inl e ↦ inl e
              | inr j ↦ inr (elim j [ inl e ↦ inl e | inr k ↦ absurd k ])
            ])
            (run_batch-NamesHost (h ∷ g ∷ []) s))
          (widen hosts (h ∷ g ∷ hosts) (get_connection_from_host_group v hosts r.1).0
            (λ x i. inr (inr i)) (group-NamesHost hosts r.1))

    -- Let the outcomes of a batch be of its hosts, and let `shuffle` keep what is in a list. When
    -- `get_reader_connection` returns a connection, it is to a host of the given hosts that is not a
    -- writer.
    pub get_reader_connection-reader :
        IsShuffle v
        → (hosts : List HostInfo) (s : State W)
        → (get_reader_connection v hosts s).0.is_connected ≡ true
        → (h : HostInfo) × ((get_reader_connection v hosts s).0.new_host ≡ some h)
          × In h hosts
          × (is_writer h.role ≡ false)
    unfolding get_reader_connection get_reader_hosts_by_priority
    get_reader_connection-reader shuffle_law [] s c = cc
    get_reader_connection-reader shuffle_law (x ∷ hosts) s c =
        let all = x ∷ hosts in
        let (h, e, i) = group-NamesHost (get_reader_hosts_by_priority v all) s c in
        let (j, w) =
          (shuffled v shuffle_law h all).0
            ((In-append h (v.shuffle (active_readers all)) (v.shuffle (down_hosts all))).0 i) in
        (h, e, j, w)
