-- ===== src/WriterFailover/NewWriter/Found.antt =====
-- writer_failover_handler.py: what task B has found when it ends.
use aws_advanced_python_wrap.Prelude.{
  ℕ, zero, suc, ◌≡◌, ◌⊎◌, refl, sym, Bool, true, false, inl, inr, Option, none, some, List, [], ◌∷◌,
  if◌then◌else◌,
}
use aws_advanced_python_wrap.Errors.{Exc}
use aws_advanced_python_wrap.Exec.{Result, ok, raised}
use aws_advanced_python_wrap.Host.{HostInfo}
use aws_advanced_python_wrap.WriterFailover.{Service, get_writer, is_same}
use aws_advanced_python_wrap.WriterFailover.NewWriter.{
  State, Part, pause, after_connect, connect_to_candidate, connect_to_writer, after_writer,
  consider, after_refresh, refresh_topology_and_connect_to_new_writer,
}

module _ {W : Type 0} (v : Service W) (initial : HostInfo) where
  -- The connection leads to `h`: it was made to that host, or it is the reader's and the reader is
  -- that host.
  abbrev pub LeadsTo : HostInfo → State W → Type 0
  LeadsTo h s =
      ((c : ℕ) × (w : W) × (w' : W) × (v.force_connect h w ≡ (ok c, w'))
        × (s.current_connection ≡ some c))
      ⊎ ((is_same (some h) s.current_reader_host ≡ true)
          × (s.current_connection ≡ s.current_reader_connection))

  -- A new writer was found.
  abbrev pub Found : State W → Type 0
  Found s =
      (h : HostInfo) × (get_writer s.current_topology ≡ some h)
      × (is_same (some h) (some initial) ≡ false)
      × LeadsTo h s

  abbrev pub Searched : Option Bool × State W → Type 0
  Searched (none, s) = Unit
  Searched (some false, s) = Unit
  Searched (some true, s) = Found s

  abbrev Candidate : Option HostInfo → State W → Bool × State W → Type 0
  Candidate o s (false, t) = Unit
  Candidate o s (true, t) =
      (h : HostInfo) × (o ≡ some h) × (t.current_topology ≡ s.current_topology) × LeadsTo h t

  after_connect-Candidate :
      (h : HostInfo) (s : State W) (r : Result Exc ℕ × W)
      → v.force_connect h s.world ≡ r
      → Candidate (some h) s (after_connect v h s r)
  unfolding after_connect
  after_connect-Candidate h s (ok c, w) e = (h, refl, refl, inl (c, s.world, w, e, refl))
  after_connect-Candidate h s (raised x, w) e = tt

  candidate : (o : Option HostInfo) (s : State W) → Candidate o s (connect_to_candidate v o s)
  unfolding connect_to_candidate
  candidate none s = tt
  candidate (some h) s = after_connect-Candidate h s (v.force_connect h s.world) refl

  same_reader :
      (o : Option HostInfo) (s : State W) (b : Bool)
      → is_same o s.current_reader_host ≡ b
      → Candidate o s (
          if b
          then (true, record s { current_connection = s.current_reader_connection })
          else connect_to_candidate v o s)
  unfolding is_same
  same_reader none s true e = cc
  same_reader (some h) s true e = (h, refl, refl, inr (e, refl))
  same_reader o s false e = candidate o s

  connect_to_writer-Candidate :
      (o : Option HostInfo) (s : State W) → Candidate o s (connect_to_writer v o s)
  unfolding connect_to_writer
  connect_to_writer-Candidate o s = same_reader o s (is_same o s.current_reader_host) refl

  after_writer-Searched :
      (again : Part v) (hosts : List HostInfo) (s : State W) (r : Bool × State W)
      → ((t : State W) → Searched (again t))
      → is_same (get_writer hosts) (some initial) ≡ false
      → s.current_topology ≡ hosts
      → Candidate (get_writer hosts) s r
      → Searched (after_writer v again r)
  unfolding after_writer
  after_writer-Searched again hosts s (false, t) k e p c =
      k (pause v v.read_topology_interval_sec t)
  after_writer-Searched again hosts s (true, t) k e p (h, q, topology, leads) =
      (h, rw (topology, p) q, rw (sym q) e, leads)

  consider-Searched :
      (again : Part v) (hosts : List HostInfo) (s : State W)
      → ((t : State W) → Searched (again t))
      → Searched (consider v again initial hosts s)
  unfolding consider
  consider-Searched again hosts s k =
      let t = record s { current_topology = hosts } in
      decided (is_same (get_writer hosts) (some initial)) refl
    where
      decided :
          (b : Bool)
          → is_same (get_writer hosts) (some initial) ≡ b
          → Searched (
              if b
              then again
                  (pause v v.read_topology_interval_sec (record s { current_topology = hosts }))
              else after_writer v again
                  (connect_to_writer v (get_writer hosts) (record s { current_topology = hosts })))
      decided true e =
          k (pause v v.read_topology_interval_sec (record s { current_topology = hosts }))
      decided false e =
          after_writer-Searched again hosts (record s { current_topology = hosts })
            (connect_to_writer v (get_writer hosts) (record s { current_topology = hosts })) k e
            refl
            (connect_to_writer-Candidate (get_writer hosts) (record s { current_topology = hosts }))

  after_refresh-Searched :
      (again : Part v) (s : State W) (r : Result Exc (Unit {0}) × W) (hosts : List HostInfo)
      → ((t : State W) → Searched (again t))
      → Searched (after_refresh v again initial s r hosts)
  unfolding after_refresh
  after_refresh-Searched again s (raised e, w) hosts k = tt
  after_refresh-Searched again s (ok _, w) [] k =
      k (pause v v.read_topology_interval_sec (record s { world = w }))
  after_refresh-Searched again s (ok _, w) (h ∷ []) k =
      k (pause v v.read_topology_interval_sec (record s { world = w }))
  after_refresh-Searched again s (ok _, w) (h ∷ g ∷ hosts) k =
      consider-Searched again (h ∷ g ∷ hosts) (record s { world = w }) k

  either-Searched :
      (b : Bool) (x y : Option Bool × State W)
      → Searched x
      → Searched y
      → Searched (if b then x else y)
  either-Searched true x y p q = p
  either-Searched false x y p q = q

  pub refresh-Searched :
      (fuel : ℕ) (s : State W)
      → Searched (refresh_topology_and_connect_to_new_writer v fuel initial s)
  unfolding refresh_topology_and_connect_to_new_writer
  refresh-Searched zero s = tt
  refresh-Searched (suc fuel) s =
      let r = v.force_refresh_host_list s.current_reader_connection s.world in
      let again = refresh_topology_and_connect_to_new_writer v fuel initial in
      either-Searched (v.is_set s.world) (some false, s)
        (after_refresh v again initial s r (v.all_hosts r.1)) tt
        (after_refresh-Searched again s r (v.all_hosts r.1) (refresh-Searched fuel))
