-- ===== src/HostListProvider.antt =====
-- aws_advanced_python_wrapper/host_list_provider.py: how `RdsHostListProvider` and
-- `MultiAzHostListProvider` turn the rows of the topology query into hosts. A row is what the cursor
-- yields; `now` is `datetime.now()` in microseconds.
pub mod Found
pub mod Writers
pub mod Caches
mod Tests
use Prim.Native.Char.{code}
use Prim.Native.String.{◌++◌ as join}
use Prim.Native.String
use aws_advanced_python_wrap.Prelude.{
  ℕ, Bool, not, Option, none, some, List, [], ◌∷◌, ◌++◌, String, String-discrete, ◌==◌, ◌&&◌, true,
  false, ltb, test, select, map, if◌then◌else◌,
}
use aws_advanced_python_wrap.Dict.{Dict, values}
use aws_advanced_python_wrap.Dict
use aws_advanced_python_wrap.Errors.{Exc, type_error}
use aws_advanced_python_wrap.Exec.{Result, ok, raised}
use aws_advanced_python_wrap.Host
use aws_advanced_python_wrap.Host.{HostInfo, add_alias}
use aws_advanced_python_wrap.Host.Role.{reader, writer, available, is_writer}
use aws_advanced_python_wrap.Host.Backoff.{Backoff}

-- A record of the topology query: the instance id, whether it is the writer, and the fifth column
-- if it is there and a `datetime`.
pub record Row : Type 0 where
  pub id : Option String
  pub is_writer_row : Bool
  pub last_update : Option ℕ

-- `s.replace("?", by)`
unfoldable pub replace_mark : String → String → String
replace_mark String.[] by = ""
replace_mark (String.◌∷◌ c s) by =
    let rest = replace_mark s by in if code c == b'?' then join by rest else String.◌∷◌ c rest

-- The template of an instance's address, and the port of the first connection.
pub record Template : Type 0 where
  pub host_pattern : String
  pub template_port : Option ℕ
  pub initial_port : Option ℕ
  pub strategy : Option Backoff

-- `host_id if host_id else "?"`: an empty id counts as none.
shown_id : Option String → String
shown_id none = "?"
shown_id (some i) = if test (String-discrete i "") then "?" else i

port_or : Option ℕ → Option ℕ → Option ℕ
port_or none initial = initial
port_or (some p) initial = some p

time_or : Option ℕ → ℕ → ℕ
time_or none now = now
time_or (some t) now = t

unfoldable pub create_host : Template → ℕ → Row → HostInfo
unfolding shown_id port_or time_or replace_mark Host.init Host.add_alias
create_host t now r = add_alias (shown_id r.id ∷ []) (
    Host.init (replace_mark t.host_pattern (shown_id r.id)) (port_or t.template_port t.initial_port)
      (if r.is_writer_row then writer else reader) available t.strategy (some (shown_id r.id))
      (some (time_or r.last_update now)))

-- `host_map`: a later row replaces an earlier one of the same host.
unfoldable pub host_map : Dict String HostInfo → List HostInfo → Dict String HostInfo
host_map d [] = d
host_map d (h ∷ hs) = host_map (Dict.put String-discrete h.host h d) hs

abbrev pub writers : List HostInfo → List HostInfo
writers = select (λ h. is_writer h.role)

abbrev pub readers : List HostInfo → List HostInfo
readers = select (λ h. not (is_writer h.role))

-- The key of the sort is `False` for `None`, which Python does not compare with a `datetime`.
abbrev pub same_kind : Option ℕ → Option ℕ → Bool
same_kind none none = true
same_kind none (some t) = false
same_kind (some s) none = false
same_kind (some s) (some t) = true

-- All keys are of the kind of the first: sorting two keys or more compares one of each kind, if both
-- are there.
unfoldable pub comparable : Option ℕ → List HostInfo → Bool
comparable o [] = true
comparable o (h ∷ hs) = same_kind o h.last_update_time && comparable o hs

-- `key(h) < key(x)`, for keys of one kind.
abbrev pub is_before : Option ℕ → Option ℕ → Bool
is_before (some s) (some t) = ltb s t
is_before (some s) none = false
is_before none o = false

-- `sort(reverse=True, key=...)`, which keeps the order of equal keys.
insert_latest : HostInfo → List HostInfo → List HostInfo
insert_latest h [] = h ∷ []
insert_latest h (x ∷ xs) =
    if is_before h.last_update_time x.last_update_time then x ∷ insert_latest h xs else h ∷ x ∷ xs

unfoldable pub sort_latest : List HostInfo → List HostInfo
unfolding insert_latest
sort_latest [] = []
sort_latest (h ∷ hs) = insert_latest h (sort_latest hs)

take_first : List HostInfo → List HostInfo
take_first [] = []
take_first (x ∷ xs) = x ∷ []

-- The readers and the writer that was updated last; no host at all if there is no writer.
unfoldable pub with_writer : List HostInfo → List HostInfo → Result Exc (List HostInfo)
unfolding sort_latest take_first comparable
with_writer hosts [] = ok []
with_writer hosts (w ∷ []) = ok (hosts ++ w ∷ [])
with_writer hosts (w ∷ v ∷ ws) =
    if comparable w.last_update_time (v ∷ ws)
    then ok (hosts ++ take_first (sort_latest (w ∷ v ∷ ws)))
    else raised type_error

unfoldable pub process_hosts : List HostInfo → Result Exc (List HostInfo)
unfolding host_map with_writer
process_hosts created =
    let found = values (host_map [] created) in with_writer (readers found) (writers found)

unfoldable pub process_query_results : Template → ℕ → List Row → Result Exc (List HostInfo)
unfolding process_hosts create_host
process_query_results t now rows = process_hosts (map (create_host t now) rows)

first_writer : List HostInfo → List HostInfo → List HostInfo
first_writer hosts [] = []
first_writer hosts (w ∷ ws) = hosts ++ w ∷ []

-- `MultiAzHostListProvider._process_multi_az_query_results`, over the hosts made of its records.
unfoldable pub process_multi_az : List HostInfo → List HostInfo
unfolding host_map first_writer
process_multi_az created =
    let found = values (host_map [] created) in first_writer (readers found) (writers found)
