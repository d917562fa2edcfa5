-- ===== src/Failover/Tests.antt =====
-- Runs of the failover plugin at concrete inputs.
use aws_advanced_python_wrap.Prelude.{
  String-discrete, ℕ, ◌≡◌, refl, ◌≢◌, ◌⊎◌, inr, Bool, true, false, not, if◌then◌else◌, ◌==◌, arith,
  Option, none, some, [], ◌∷◌,
}
use aws_advanced_python_wrap.Errors.{Exc, failover_success_error, driver_error}
use aws_advanced_python_wrap.Exec.{Result, ok, raised, throw}
use aws_advanced_python_wrap.Exec.Endings.{Ends, Ends-ok, Ends-if}
use aws_advanced_python_wrap.Host.{HostInfo, mem}
use aws_advanced_python_wrap.Host.Role.{HostRole, writer, reader, available}
use aws_advanced_python_wrap.Failover.{
  Settings, State, Service, names, strict_writer, failover_writer,
}
use aws_advanced_python_wrap.Failover.Execute.{failover, execute}
use aws_advanced_python_wrap.Failover.Outcome.{Lawful, failover-Ends, failover_writer-Ends}

record World : Type 0 where
  connection : Option ℕ
  host_info : Option HostInfo

abbrev node : HostRole → HostInfo
node r = record {
  host = "db";
  port = none;
  role = r;
  raw_availability = available;
  backoff = none;
  host_id = none;
  last_update_time = none;
  aliases = [];
  all_aliases = "db" ∷ [];
}

-- Of the current connection and a given one: the given one is taken.
abbrev is_taken : Option ℕ → Option ℕ → Bool
is_taken none c = true
is_taken (some d) none = false
is_taken (some d) (some c) = not (d == c)

abbrev set_current : Option ℕ → HostInfo → World → Result Exc (Unit {0}) × World
set_current c h w =
    if is_taken w.connection c
    then (ok tt, record { connection = c; host_info = some h })
    else (ok tt, w)

-- A cluster of one writer, to which every failover connects as connection 7.
abbrev service : Service World
service = record {
  current_connection = λ w. w.connection;
  current_host_info = λ w. w.host_info;
  hosts = λ w. node writer ∷ [];
  all_hosts = λ w. node writer ∷ [];
  is_in_transaction = λ w. false;
  is_closed = λ c w. false;
  is_network_exception = λ e. true;
  set_availability = λ aliases a w. w;
  update_in_transaction = λ b w. w;
  connect = λ h w. (ok 6, w);
  set_current_connection = set_current;
  refresh_host_list = λ w. (ok tt, w);
  force_refresh_host_list = λ w. (ok tt, w);
  rollback = λ c w. (ok tt, w);
  close = λ c w. (ok tt, w);
  reader_failover = λ hosts h w. (
    record {
      connection = some 8;
      is_connected = true;
      new_host = some (node reader);
      exception = none;
    },
    w,
  );
  writer_failover = λ hosts w. (
    record {
      is_connected = true;
      topology = some (node reader ∷ node writer ∷ []);
      new_connection = some 7;
      exception = none;
    },
    w,
  );
}

abbrev settings : Settings
settings = record { enable_failover = true; failover_mode = strict_writer; is_rds_proxy = false }

taken_true :
    (o c : Option ℕ) → (o ≡ none) ⊎ ((d : ℕ) × (c ≡ some d) × (o ≢ some d)) → is_taken o c ≡ true
taken_true none c k = refl
taken_true (some d) none k = ground arith
taken_true (some d) (some c) k = ground arith

service-Lawful : Lawful service
service-Lawful = record {
  set_current = λ c h w k.
      Ends-if (is_taken w.connection c)
        (λ e. Ends-ok tt (record { connection = c; host_info = some h }) refl)
        (λ e. cc (taken_true w.connection c k));
  refreshed = λ w. Ends-ok tt w refl;
  handled = λ hosts w e. cc;
}

abbrev lost : State World
lost = record {
  is_in_transaction = false;
  is_closed = false;
  closed_explicitly = false;
  last_exception = none;
  world = record { connection = some 1; host_info = some (node reader) };
}

abbrev failing : State World → Result Exc (Unit {0}) × State World
failing = throw (driver_error 1)

program : Unit {0}
unfolding execute String-discrete
program = tt

-- A network error of a call ends in `FailoverSuccessError` over connection 7.
execute-lost : execute service settings "Cursor.execute" failing lost ≡ (
  raised failover_success_error,
  record lost { world = record { connection = some 7; host_info = some (node writer) } },
)
unfolding program
execute-lost = refl

failover-Ends_example :
    Ends
      (λ _ _. ⊥)
      (λ e s'.
        e ≡ failover_success_error
        → ((h : HostInfo) × (s'.world.host_info ≡ some h)
            × (h.role ≡ writer)
            × (mem h.host (names (node writer ∷ [])) ≡ true))
          × (false ≡ false)
          × (false ≡ false))
      (failover service settings (some (node writer)) lost)
failover-Ends_example =
    failover-Ends service settings service-Lawful refl (some (node writer)) lost
      (λ e. inr (7, refl, λ p. cc))

failover_writer-Ends_example :
    Ends
      (λ _ s'.
        ((h : HostInfo) × (s'.world.host_info ≡ some h)
          × (h.role ≡ writer)
          × (mem h.host (names (node writer ∷ [])) ≡ true))
        × (s'.is_in_transaction ≡ false))
      (λ e _. e ≢ failover_success_error)
      (failover_writer service settings lost)
failover_writer-Ends_example =
    failover_writer-Ends service settings service-Lawful lost (λ e. inr (7, refl, λ p. cc))
