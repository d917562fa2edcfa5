-- ===== src/StaleDns.antt =====
-- stale_dns_plugin.py: `StaleDnsHelper` looks whether the name of a writer endpoint still leads to the
-- writer. `W` is the world outside; what the helper asks of the plugin service, of the tests on host
-- names and of the resolver is the record `Outside`. An operation that notifies the plugins acts on
-- the state of the helper too. A connection is never None.
pub mod Verified
mod Tests
use aws_advanced_python_wrap.Prelude.{
  ℕ, Bool, true, false, not, Option, none, some, List, [], ◌∷◌, map, String, String-discrete, test,
  if◌then◌else◌,
}
use aws_advanced_python_wrap.Dict.{Dict}
use aws_advanced_python_wrap.Dict
use aws_advanced_python_wrap.Errors.{Exc, aws_wrapper_error}
use aws_advanced_python_wrap.Exec.{
  Exec, Result, ok, pure, throw, gets, modify, catch, ignore, ◌>>=◌, ◌>>◌,
}
use aws_advanced_python_wrap.Host.{HostInfo, mem, url}
use aws_advanced_python_wrap.Host.Role.{HostRole, is_reader, is_writer}

pub record State (W : Type 0) : Type 0 where
  pub writer_host_info : Option HostInfo
  pub writer_host_address : Option String
  pub world : W

pub record Outside (W : Type 0) : Type 0 where
  pub is_writer_cluster_dns : String → Bool
  pub is_rds_cluster_dns : String → Bool
  pub gethostbyname : String → W → Option String  -- `none` is `gaierror`
  pub get_host_role : ℕ → Exec (State W) Exc HostRole
  pub force_refresh_host_list : ℕ → Exec (State W) Exc (Unit {0})
  pub refresh_host_list : ℕ → Exec (State W) Exc (Unit {0})
  pub all_hosts : W → List HostInfo
  pub hosts : W → List HostInfo
  pub connect : HostInfo → Exec (State W) Exc ℕ
  pub close : ℕ → Exec (State W) Exc (Unit {0})
  pub set_initial_connection_host_info : HostInfo → W → W

abbrev pub Act : Type 0 → Type 0 → Type 0
Act W A = Exec (State W) Exc A

unfoldable pub get_writer : List HostInfo → Option HostInfo
get_writer [] = none
get_writer (h ∷ hosts) = if is_writer h.role then some h else get_writer hosts

abbrev pub host_names : List HostInfo → List String
host_names hosts = map (λ (h : HostInfo). h.host) hosts

module _ {W : Type 0} (out : Outside W) where
  unfoldable pub update_topology : ℕ → Act W (Unit {0})
  update_topology conn = do
    role ← out.get_host_role conn
    if is_reader role then out.force_refresh_host_list conn else out.refresh_host_list conn

  -- A candidate with a cluster name is not kept.
  unfoldable pub keep_candidate : Option HostInfo → State W → Option HostInfo × State W
  keep_candidate none s = (none, record s { writer_host_info = none })
  keep_candidate (some h) s =
      if out.is_rds_cluster_dns h.host
      then (none, s)
      else (some h, record s { writer_host_info = some h })

  -- The writer to compare with, if there is one.
  unfoldable pub known_writer : Option HostInfo → State W → Option HostInfo × State W
  unfolding keep_candidate get_writer
  known_writer (some h) s = (some h, s)
  known_writer none s = keep_candidate (get_writer (out.all_hosts s.world)) s

  unfoldable pub known_address : HostInfo → Option String → State W → Option String × State W
  known_address h (some a) s = (some a, s)
  known_address h none s =
      let a = out.gethostbyname h.host s.world in (a, record s { writer_host_address = a })

  unfoldable pub note_initial : Bool → HostInfo → State W → State W
  note_initial true h s = record s { world = out.set_initial_connection_host_info h s.world }
  note_initial false h s = s

  unfoldable pub connect_to_writer : Bool → ℕ → HostInfo → Act W ℕ
  unfolding note_initial
  connect_to_writer is_initial conn h = do
    writer_conn ← out.connect h
    modify (note_initial is_initial h)
    ignore (out.close conn)
    pure writer_conn

  unfoldable pub replace : Bool → ℕ → HostInfo → Act W ℕ
  unfolding connect_to_writer
  replace is_initial conn h s =
      if mem h.host (host_names (out.hosts s.world))
      then connect_to_writer is_initial conn h s
      else throw aws_wrapper_error s

  -- The writer, where its address is not that of the cluster.
  unfoldable pub compare_address :
      String → HostInfo → Option String × State W → Option HostInfo × State W
  compare_address cluster_address h (none, s) = (none, s)
  compare_address cluster_address h (some a, s) =
      if test (String-discrete a cluster_address) then (none, s) else (some h, s)

  unfoldable pub compare_writer : String → Option HostInfo × State W → Option HostInfo × State W
  unfolding known_address compare_address
  compare_writer cluster_address (none, s) = (none, s)
  compare_writer cluster_address (some h, s) =
      compare_address cluster_address h (known_address h s.writer_host_address s)

  unfoldable pub decide : Bool → ℕ → Option HostInfo × State W → Result Exc ℕ × State W
  unfolding replace
  decide is_initial conn (none, s) = (ok conn, s)
  decide is_initial conn (some h, s) = replace is_initial conn h s

  unfoldable pub verify : Bool → ℕ → Option String → Act W ℕ
  unfolding update_topology known_writer compare_writer decide
  verify is_initial conn none = pure conn
  verify is_initial conn (some cluster_address) = do
    update_topology conn
    λ s. decide is_initial conn (compare_writer cluster_address (known_writer s.writer_host_info s))

  unfoldable pub get_verified_connection : Bool → String → Act W ℕ → Act W ℕ
  unfolding verify
  get_verified_connection is_initial host connect_func =
      if not (out.is_writer_cluster_dns host) then connect_func else (do
        conn ← connect_func
        cluster_address ← gets (λ s. out.gethostbyname host s.world)
        verify is_initial conn cluster_address)

  -- `changes` gives for a url whether the host became a reader.
  unfoldable pub reset_if : Bool → State W → State W
  reset_if true s = record s { writer_host_info = none; writer_host_address = none }
  reset_if false s = s

  unfoldable pub became_reader : Dict String Bool → Option HostInfo → Bool
  unfolding url
  became_reader changes none = false
  became_reader changes (some h) = listed (Dict.get String-discrete (url h) changes)
    where
      listed : Option Bool → Bool
      listed none = false
      listed (some b) = b

  unfoldable pub notify_host_list_changed : Dict String Bool → State W → State W
  unfolding reset_if became_reader
  notify_host_list_changed changes s = reset_if (became_reader changes s.writer_host_info) s

  -- `StaleDnsPlugin.execute`
  unfoldable pub execute : {A : Type 0} → (Act W (Unit {0})) → Act W A → Act W A
  execute refresh execute_func = ignore refresh >> execute_func
