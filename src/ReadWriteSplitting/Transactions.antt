-- ===== src/ReadWriteSplitting/Transactions.antt =====
-- read_write_splitting_plugin.py: `set_read_only` inside a transaction.
use aws_advanced_python_wrap.Prelude.{
  ℕ, ◌≡◌, refl, Bool, true, false, Option, none, some, List, [], ◌∷◌, arith,
}
use aws_advanced_python_wrap.Errors.{Exc}
use aws_advanced_python_wrap.Exec.{Result, ok, raised, pure, after_try, ◌>>◌}
use aws_advanced_python_wrap.Host.{HostInfo}
use aws_advanced_python_wrap.ReadWriteSplitting.{State, Service}
use aws_advanced_python_wrap.ReadWriteSplitting.Switch.{
  request_writable, request_read_only, request, refresh, is_closed_connection,
  switch_connection_if_required,
}

module _ {W : Type 0} (v : Service W) where
  request-in_transaction :
      (b : Bool) (conn : Option ℕ) (hosts : List HostInfo) (o : Option HostInfo) (s : State W)
      → v.is_in_transaction s.world ≡ true
      → (request v b conn hosts o s).1 ≡ s
  unfolding request request_writable request_read_only
  request-in_transaction b conn [] o s t = refl
  request-in_transaction b conn (h ∷ hosts) none s t = refl
  request-in_transaction true conn (h ∷ hosts) (some host) s t = rw t refl
  request-in_transaction false conn (h ∷ hosts) (some host) s t = ground (arith, t)

  ignored : (r : Result Exc (Unit {0}) × State W) → (after_try (λ e. pure tt) r).0 ≡ ok tt
  ignored (ok tt, s) = refl
  ignored (raised e, s) = refl

  pub refresh-returns : (o : Option ℕ) (s : State W) → (refresh v o s).0 ≡ ok tt
  unfolding refresh
  refresh-returns none s = refl
  refresh-returns (some c) s = ground (arith, ignored (v.refresh_host_list s))

  after_refresh :
      (r : Result Exc (Unit {0}) × State W) (f : State W → Result Exc (Unit {0}) × State W)
      → r.0 ≡ ok tt
      → (f r.1).1 ≡ r.1
      → (((λ s. r) >> f) r.1).1 ≡ r.1
  after_refresh (ok tt, s) f e h = h
  after_refresh (raised x, s) f e h = refl

  -- When the session is in a transaction after the topology was refreshed, `set_read_only` on an
  -- open connection changes nothing more, whether it returns or raises: no connection is switched,
  -- opened or closed.
  pub switch_connection_if_required-in_transaction :
      (b : Bool) (s : State W)
      → is_closed_connection v (v.current_connection s.world) s.world ≡ false
      → v.is_in_transaction (refresh v (v.current_connection s.world) s).1.world ≡ true
      → (switch_connection_if_required v b s).1 ≡ (refresh v (v.current_connection s.world) s).1
  unfolding switch_connection_if_required
  switch_connection_if_required-in_transaction b s open_now t =
      let conn = v.current_connection s.world in
      let s' = (refresh v conn s).1 in
      rw open_now (
        after_refresh (refresh v conn s)
          (λ s. request v b conn (v.hosts s.world) (v.current_host_info s.world) s)
          (refresh-returns conn s)
          (request-in_transaction b conn (v.hosts s'.world) (v.current_host_info s'.world) s' t))
