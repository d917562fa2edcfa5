-- ===== src/Host.antt =====
-- aws_advanced_python_wrapper/hostinfo.py and host_availability.py. A `HostInfo` is changed in place
-- in the source; here each method returns the new record. The availability strategy of a host is the
-- default one, which shows the raw availability, unless `backoff` holds an
-- `ExponentialBackoffHostAvailabilityStrategy` (Host/Backoff).
pub mod Role
pub mod Backoff
pub mod Aliases
mod Tests
use aws_advanced_python_wrap.Prelude.{
  ℕ, zero, suc, ◌+◌, ◌/◌, ◌%◌, ◌≡◌, Bool, true, false, not, ◌&&◌, ◌||◌, Option, none, some, List,
  [], ◌∷◌, String, String-discrete, ◌==◌, select, test, ltb, if◌then◌else◌,
}
use Prim.Native.String.{◌++◌}
use mathlib.Core.List.{◌++◌ as append}
use mathlib.Core.Option
use Role.{HostRole, HostAvailability, writer, available, availability_eq, role_eq}

-- `str(n)` of a number that is not negative: the fuel `n + 1` is more than its digits.
digit : ℕ → String
digit n =
    if n == 0
    then "0"
    else if n == 1
    then "1"
    else if n == 2
    then "2"
    else if n == 3
    then "3"
    else if n == 4
    then "4"
    else if n == 5
    then "5"
    else if n == 6
    then "6"
    else if n == 7
    then "7"
    else if n == 8
    then "8"
    else "9"

decimal : ℕ → ℕ → String
unfolding digit
decimal zero n = ""
decimal (suc f) n =
    let front = decimal f (n / 10) in if ltb n 10 then digit n else front ++ digit (n % 10)

unfoldable pub str : ℕ → String
unfolding decimal
str n = decimal (suc n) n

-- A Python `set` of texts, in the order of insertion.
abbrev pub mem : String → List String → Bool
mem s [] = false
mem s (t ∷ ts) = test (String-discrete t s) || mem s ts

unfoldable pub add : String → List String → List String
add s ts = if mem s ts then ts else append ts (s ∷ [])

unfoldable pub discard : String → List String → List String
discard s = select (λ t. not (test (String-discrete t s)))

pub record HostInfo : Type 0 where
  pub host : String
  pub port : Option ℕ  -- `none` is `NO_PORT`
  pub role : HostRole
  pub raw_availability : HostAvailability
  pub backoff : Option Backoff.Backoff
  pub host_id : Option String
  pub last_update_time : Option ℕ
  pub aliases : List String
  pub all_aliases : List String

-- `as_alias`, and the property `url`, whose text is the same.
unfoldable pub address : String → Option ℕ → String
unfolding str
address host none = host
address host (some port) = host ++ (":" ++ str port)

unfoldable pub as_alias : HostInfo → String
unfolding address
as_alias h = address h.host h.port

unfoldable pub url : HostInfo → String
unfolding address
url h = address h.host h.port

unfoldable pub init :
    String
    → Option ℕ
    → HostRole
    → HostAvailability
    → Option Backoff.Backoff
    → Option String
    → Option ℕ
    → HostInfo
init host port role availability strategy host_id last_update_time = record {
  host = host;
  port = port;
  role = role;
  raw_availability = availability;
  backoff = strategy;
  host_id = host_id;
  last_update_time = last_update_time;
  aliases = [];
  all_aliases = address host port ∷ [];
}

unfoldable pub port_eq : Option ℕ → Option ℕ → Bool
port_eq none none = true
port_eq (some p) (some q) = p == q
port_eq _ _ = false

-- `__eq__`. Its first test compares `self` with the class `object` and never holds.
unfoldable pub eq : HostInfo → HostInfo → Bool
unfolding port_eq
eq a b =
    test (String-discrete a.host b.host)
    && (port_eq a.port b.port
        && (availability_eq a.raw_availability b.raw_availability && role_eq a.role b.role))

-- `add_alias(*aliases)`.
unfoldable pub add_alias : List String → HostInfo → HostInfo
unfolding add
add_alias [] h = h
add_alias (a ∷ as') h =
    add_alias as' (record h { aliases = add a h.aliases; all_aliases = add a h.all_aliases })

-- `remove_alias(*aliases)`.
unfoldable pub remove_alias : List String → HostInfo → HostInfo
unfolding discard
remove_alias [] h = h
remove_alias (a ∷ as') h =
    remove_alias as'
      (record h { aliases = discard a h.aliases; all_aliases = discard a h.all_aliases })

unfoldable pub reset_aliases : HostInfo → HostInfo
unfolding as_alias
reset_aliases h = record h { aliases = []; all_aliases = as_alias h ∷ [] }

strategy_availability : Option Backoff.Backoff → ℕ → HostAvailability → HostAvailability
strategy_availability none now raw = raw
strategy_availability (some b) now raw = Backoff.get_host_availability b now raw

unfoldable pub get_availability : HostInfo → ℕ → HostAvailability
unfolding strategy_availability Backoff.get_host_availability
get_availability h now = strategy_availability h.backoff now h.raw_availability

unfoldable pub set_availability : HostAvailability → ℕ → HostInfo → HostInfo
set_availability a now h = record h {
  raw_availability = a;
  backoff = Option.map (Backoff.set_host_availability a now) h.backoff;
}
