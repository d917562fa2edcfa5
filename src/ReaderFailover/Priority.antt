-- ===== src/ReaderFailover/Priority.antt =====
-- reader_failover_handler.py: the hosts that `get_hosts_by_priority` gives.
use aws_advanced_python_wrap.Prelude.{
  ℕ, ◌+◌, ◌≡◌, refl, ◌≢◌, sym, ap, ◌↔◌, ◌⊎◌, inl, inr, some_inj, Bool, true, false, not, ◌&&◌,
  Bool-cases, Option, none, some, List, [], ◌++◌, ◌==◌, length, In, In-of_select, select_of_In,
  In-append, In-length, arith,
}
use aws_advanced_python_wrap.Host.{HostInfo}
use aws_advanced_python_wrap.Host.Role.{is_writer, is_available}
use aws_advanced_python_wrap.ReaderFailover.{
  Service, active_readers, down_hosts, writer_from, listed, get_hosts_by_priority,
}

-- `shuffle` keeps what is in a list.
pub record IsShuffle {W : Type 0} (v : Service W) : Type 0 where
  pub members : (h : HostInfo) (hosts : List HostInfo) → In h (v.shuffle hosts) ↔ In h hosts

both : (b c : Bool) → (b ≡ false) → (c ≡ true) → (not b && c) ≡ true
both b c p q = ground arith

neither : (b c : Bool) → (b ≡ false) → (c ≡ false) → (not b && not c) ≡ true
neither b c p q = ground arith

left_false : (b c : Bool) → (not b && c) ≡ true → b ≡ false
left_false b c e = ground arith

-- A host that is not a writer is an active reader or a down host.
split_readers :
    (h : HostInfo) (hosts : List HostInfo)
    → (In h (active_readers hosts) ⊎ In h (down_hosts hosts))
      ↔ (In h hosts × (is_writer h.role ≡ false))
split_readers h hosts = (
  λ i. elim i [
    | inl a ↦
        let (j, k) = In-of_select _ h hosts a in
        (j, left_false (is_writer h.role) (is_available h.raw_availability) k)
    | inr d ↦
        let (j, k) = In-of_select _ h hosts d in
        (j, left_false (is_writer h.role) (not (is_available h.raw_availability)) k)
  ],
  λ (j, w). elim (Bool-cases (is_available h.raw_availability)) [
    | inl e ↦
        inl
          (select_of_In _ h hosts j (both (is_writer h.role) (is_available h.raw_availability) w e))
    | inr e ↦ inr (
        select_of_In _ h hosts j (neither (is_writer h.role) (is_available h.raw_availability) w e))
  ],
)

In-listed : (h : HostInfo) (o : Option HostInfo) → In h (listed true o) ↔ (o ≡ some h)
In-listed h none = (λ i. absurd i, λ e. cc)
In-listed h (some w) =
    (λ i. elim i [ inl e ↦ ap some (sym e) | inr f ↦ absurd f ], λ e. inl (sym (some_inj e)))

unlisted : (o : Option HostInfo) → listed false o ≡ []
unlisted none = refl
unlisted (some w) = refl

regroup : {A B C D E F : Type 0} → A ↔ (B ⊎ (C ⊎ D)) → (B ⊎ D) ↔ E → C ↔ F → A ↔ (E ⊎ F)
regroup p q r = ground arith

compose : {A B C D : Type 0} → A ↔ B → C ↔ (A ⊎ D) → C ↔ (B ⊎ D)
compose p q = ground arith

sum_not_zero : (m n : ℕ) → (m ≢ 0) ⊎ (n ≢ 0) → (m + n == 0) ≡ false
sum_not_zero m n p = ground arith

module _ {W : Type 0} (v : Service W) (law : IsShuffle v) where
  open law use {members}

  pub shuffled :
      (h : HostInfo) (hosts : List HostInfo)
      → (In h (v.shuffle (active_readers hosts)) ⊎ In h (v.shuffle (down_hosts hosts)))
        ↔ (In h hosts × (is_writer h.role ≡ false))
  shuffled h hosts =
      let m = members h (active_readers hosts) in
      let n = members h (down_hosts hosts) in
      let s = split_readers h hosts in
      (
        λ i. s.0 (elim i [ inl a ↦ inl (m.0 a) | inr d ↦ inr (n.0 d) ]),
        λ p. elim (s.1 p) [ inl a ↦ inl (m.1 a) | inr d ↦ inr (n.1 d) ],
      )

  parts :
      (h : HostInfo) (xs ys zs : List HostInfo)
      → In h (xs ++ (ys ++ zs)) ↔ (In h xs ⊎ (In h ys ⊎ In h zs))
  parts h xs ys zs =
      let p = In-append h xs (ys ++ zs) in
      let q = In-append h ys zs in
      (
        λ i. elim (p.0 i) [ inl a ↦ inl a | inr b ↦ inr (q.0 b) ],
        λ i. p.1 (elim i [ inl a ↦ inl a | inr b ↦ inr (q.1 b) ]),
      )

  -- Let `shuffle` keep what is in a list. When any host may serve, the hosts to try are the hosts of
  -- the topology that are not writers, and the last writer of it.
  pub In-get_hosts_by_priority :
      (h : HostInfo) (hosts : List HostInfo)
      → In h (get_hosts_by_priority v hosts false)
        ↔ ((In h hosts × (is_writer h.role ≡ false)) ⊎ (writer_from none hosts ≡ some h))
  unfolding get_hosts_by_priority
  In-get_hosts_by_priority h hosts =
      regroup
        (parts h (v.shuffle (active_readers hosts)) (listed true (writer_from none hosts))
          (v.shuffle (down_hosts hosts)))
        (shuffled h hosts) (In-listed h (writer_from none hosts))

  -- Let `shuffle` keep what is in a list. When only readers may serve and the topology has a host
  -- that is not a writer, the hosts to try are the ones that are not writers.
  pub In-get_hosts_by_priority_strict :
      (h g : HostInfo) (hosts : List HostInfo)
      → In g hosts
      → is_writer g.role ≡ false
      → In h (get_hosts_by_priority v hosts true) ↔ (In h hosts × (is_writer h.role ≡ false))
  unfolding get_hosts_by_priority
  In-get_hosts_by_priority_strict h g hosts i w =
      let some_reader =
        sum_not_zero (length (v.shuffle (active_readers hosts)))
          (length (v.shuffle (down_hosts hosts)))
          (elim ((shuffled g hosts).1 (i, w)) [
            | inl a ↦ inl (In-length g (v.shuffle (active_readers hosts)) a)
            | inr d ↦ inr (In-length g (v.shuffle (down_hosts hosts)) d)
          ]) in
      rw (some_reader, unlisted (writer_from none hosts))
        (two h (v.shuffle (active_readers hosts)) (v.shuffle (down_hosts hosts)) (shuffled h hosts))
    where
      two :
          {B : Type 0} (h : HostInfo) (xs ys : List HostInfo)
          → (In h xs ⊎ In h ys) ↔ B
          → In h (xs ++ ys) ↔ B
      two h xs ys p = let q = In-append h xs ys in (λ i. p.0 (q.0 i), λ b. q.1 (p.1 b))
