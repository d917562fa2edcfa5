-- ===== src/ReadWriteSplitting/Tests.antt =====
-- Runs of the read/write splitting plugin at concrete inputs.
use aws_advanced_python_wrap.Prelude.{
  inl, ℕ, suc, ◌≡◌, refl, ◌≢◌, Bool, true, false, Option, none, some, some_inj, [], ◌∷◌, ◌==◌,
  arith,
}
use aws_advanced_python_wrap.Errors.{Exc}
use aws_advanced_python_wrap.Exec.{Result, ok, pure}
use aws_advanced_python_wrap.Exec.Endings.{Ends, Ends-ok}
use aws_advanced_python_wrap.Host.{HostInfo}
use aws_advanced_python_wrap.Host.Role.{HostRole, writer, reader, available}
use aws_advanced_python_wrap.ReadWriteSplitting.{State, Service}
use aws_advanced_python_wrap.ReadWriteSplitting.Switch.{switch_connection_if_required, refresh}
use aws_advanced_python_wrap.ReadWriteSplitting.Writer.{
  Lawful, switch_connection_if_required-writer,
}
use aws_advanced_python_wrap.ReadWriteSplitting.Reliable.{
  IsReliable, switch_connection_if_required-returns,
}
use aws_advanced_python_wrap.ReadWriteSplitting.Transactions.{
  switch_connection_if_required-in_transaction,
}

record World : Type 0 where
  connection : Option ℕ
  host_info : Option HostInfo
  in_transaction : Bool

abbrev node : HostRole → HostInfo
node r = record {
  host = "db";
  port = none;
  role = r;
  raw_availability = available;
  backoff = none;
  host_id = none;
  last_update_time = none;
  aliases = [];
  all_aliases = [];
}

abbrev fresh : Option ℕ → ℕ
fresh none = 0
fresh (some c) = suc c

abbrev is_current : Option ℕ → ℕ → Bool
is_current none c = false
is_current (some d) c = d == c

-- Nothing is done for the connection that is current.
abbrev set_current : Bool → ℕ → HostInfo → State World → Result Exc (Unit {0}) × State World
set_current true c h s = (ok tt, s)
set_current false c h s =
    (ok tt, record s { world = record s.world { connection = some c; host_info = some h } })

abbrev service : Service World
service = record {
  current_connection = λ w. w.connection;
  current_host_info = λ w. w.host_info;
  initial_connection_host_info = λ w. none;
  hosts = λ w. node writer ∷ node reader ∷ [];
  is_in_transaction = λ w. w.in_transaction;
  is_static_host_list_provider = λ w. false;
  is_closed = λ c w. false;
  can_execute_query = λ c w. true;
  is_pooled = λ h w. false;
  get_host_role = λ c. pure reader;
  refresh_host_list = pure tt;
  connect = λ h s. (ok (fresh s.world.connection), s);
  close = λ c. pure tt;
  set_current_connection = λ c h s. set_current (is_current s.world.connection c) c h s;
  set_initial_connection_host_info = λ h w. w;
  get_host_info_by_strategy = pure (some (node reader));
}

fresh_ne : (o : Option ℕ) → o ≢ some (fresh o)
fresh_ne none e = cc
fresh_ne (some c) e = omega (arith, some_inj e)

is_current_false : (o : Option ℕ) (c : ℕ) → o ≢ some c → is_current o c ≡ false
is_current_false none c n = refl
is_current_false (some d) c n = ground arith

set_current-Ends :
    (c : ℕ) (h : HostInfo) (s : State World)
    → s.world.connection ≢ some c
    → Ends
        (λ _ s'. s'.world.host_info ≡ some h)
        (λ _ _. Unit {0})
        (set_current (is_current s.world.connection c) c h s)
set_current-Ends c h s n = rw (is_current_false s.world.connection c n) (Ends-ok tt _ refl)

set_current-returns :
    (b : Bool) (c : ℕ) (h : HostInfo) (s : State World)
    → Ends (λ _ _. Unit {0}) (λ _ _. ⊥) (set_current b c h s)
set_current-returns true c h s = Ends-ok tt s tt
set_current-returns false c h s = Ends-ok tt _ tt

service-Lawful : Lawful service
service-Lawful = record {
  set_current = set_current-Ends;
  opened = λ h s. Ends-ok (fresh s.world.connection) s (fresh_ne s.world.connection);
  closed = λ c s. refl;
  refreshed = λ s. (refl, refl);
}

-- The session is at the reader over connection 1.
abbrev at_reader : Bool → State World
at_reader t = record {
  in_read_write_split = true;
  writer_connection = none;
  reader_connection = some 1;
  reader_host_info = some (node reader);
  is_reader_conn_from_internal_pool = false;
  is_writer_conn_from_internal_pool = false;
  world = record { connection = some 1; host_info = some (node reader); in_transaction = t };
}

switch_connection_if_required-writer_example :
    Ends
      (λ _ s'. (h : HostInfo) × (s'.world.host_info ≡ some h) × (h.role ≡ writer))
      (λ _ _. Unit {0})
      (switch_connection_if_required service false (at_reader false))
switch_connection_if_required-writer_example =
    switch_connection_if_required-writer service service-Lawful (at_reader false) (λ c e. cc)

switch_connection_if_required-in_transaction_example :
    (switch_connection_if_required service false (at_reader true)).1
    ≡ (refresh service (some 1) (at_reader true)).1
unfolding refresh
switch_connection_if_required-in_transaction_example =
    switch_connection_if_required-in_transaction service false (at_reader true) refl refl

service-IsReliable : IsReliable service
service-IsReliable = record {
  set_current = λ c h s. set_current-returns (is_current s.world.connection c) c h s;
  opened = λ h s. Ends-ok (fresh s.world.connection) s tt;
}

switch_connection_if_required-returns_example :
    (switch_connection_if_required service false (at_reader false)).0 ≡ ok tt
unfolding refresh
switch_connection_if_required-returns_example =
    switch_connection_if_required-returns service service-IsReliable (at_reader false) (node writer)
      (node reader) refl refl refl (inl refl) refl
