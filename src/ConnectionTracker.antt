-- ===== src/ConnectionTracker.antt =====
-- aurora_connection_tracker_plugin.py: the connections that are open to each instance, which are
-- closed when a failover has left their instance. `is_instance` is `RdsUtils.is_rds_instance`, and
-- `is_instance_alias` is that of an alias without its port. A set of connections is a list of those
-- that are alive, since a weak set loses the others; the thread that closes a set runs to its end
-- in one step, and the exceptions of `close` are dropped.
pub mod Closed
mod Tests
use Prim.Native.String
use aws_advanced_python_wrap.Prelude.{
  ℕ, Bool, true, false, not, ◌&&◌, ◌||◌, is_some, Option, none, some, List, [], ◌∷◌, ◌++◌, String,
  String-discrete, ℕ_discrete, if◌then◌else◌, first,
}
use aws_advanced_python_wrap.Dict.{Dict}
use aws_advanced_python_wrap.Dict
use aws_advanced_python_wrap.Concurrent.{is_in}
use aws_advanced_python_wrap.Errors.{Exc, is_failover_error}
use aws_advanced_python_wrap.Exec.{Result, ok, raised, Exec, pure, modify, catch, ◌>>=◌, ◌>>◌}
use aws_advanced_python_wrap.Host.{HostInfo, as_alias, reset_aliases, eq}
use aws_advanced_python_wrap.Host.Role.{is_writer}

pub record Tracker : Type 0 where
  pub opened_connections : Dict String (List ℕ)
  pub closed : List ℕ  -- on which `close` was called

abbrev pub set_of : Option (List ℕ) → List ℕ
set_of none = []
set_of (some connections) = connections

-- The connections that are tracked for an endpoint.
abbrev pub tracked : String → Tracker → List ℕ
tracked endpoint t = set_of (Dict.get String-discrete endpoint t.opened_connections)

unfoldable pub add_connection : ℕ → List ℕ → List ℕ
unfolding is_in
add_connection c connections =
    if is_in ℕ_discrete c connections then connections else connections ++ (c ∷ [])

unfoldable pub track_connection : String → ℕ → Tracker → Tracker
unfolding add_connection
track_connection endpoint c t = record t {
  opened_connections =
      Dict.put String-discrete endpoint (add_connection c (tracked endpoint t))
        t.opened_connections;
}

-- `frozenset(text)` is the set of the characters.
unfoldable pub characters : String → List String
characters String.[] = []
characters (String.◌∷◌ c s) = String.◌∷◌ c "" ∷ characters s

-- `_task` on the set of an endpoint, if there is one.
unfoldable pub close_all : String → Option (List ℕ) → Tracker → Tracker
close_all endpoint none t = t
close_all endpoint (some connections) t = record t {
  opened_connections = Dict.put String-discrete endpoint [] t.opened_connections;
  closed = connections ++ t.closed;
}

unfoldable pub invalidate_endpoint : Option String → Tracker → Tracker
unfolding close_all
invalidate_endpoint none t = t
invalidate_endpoint (some endpoint) t =
    close_all endpoint (Dict.get String-discrete endpoint t.opened_connections) t

unfoldable pub track_found : ℕ → Option String → Tracker → Tracker
unfolding track_connection
track_found c none t = t
track_found c (some endpoint) t = track_connection endpoint c t

unfoldable pub get_writer : List HostInfo → Option HostInfo
get_writer [] = none
get_writer (h ∷ hosts) = if is_writer h.role then some h else get_writer hosts

unfoldable pub same_host : Option HostInfo → Option HostInfo → Bool
unfolding eq
same_host none none = true
same_host none (some h) = false
same_host (some h) none = false
same_host (some h) (some g) = eq h g

module _ (is_instance is_instance_alias : String → Bool) where
  unfoldable pub populate_opened_connection_set : HostInfo → ℕ → Tracker → Tracker
  unfolding track_found
  populate_opened_connection_set h c t =
      if is_instance h.host
      then track_connection (as_alias h) c t
      else track_found c (first is_instance_alias h.all_aliases) t

  -- `invalidate_all_connections` with the aliases of a host.
  unfoldable pub invalidate_aliases : List String → Tracker → Tracker
  unfolding invalidate_endpoint
  invalidate_aliases aliases t = invalidate_endpoint (first is_instance_alias aliases) t

  -- `invalidate_all_connections` with a host.
  unfoldable pub invalidate_all_connections : Option HostInfo → Tracker → Tracker
  unfolding invalidate_aliases characters
  invalidate_all_connections none t = t
  invalidate_all_connections (some h) t =
      invalidate_aliases h.all_aliases (invalidate_aliases (characters (as_alias h)) t)

pub record State (W : Type 0) : Type 0 where
  pub tracker : Tracker
  pub current_writer : Option HostInfo
  pub need_update_current_writer : Bool
  pub world : W

pub record Outside (W : Type 0) : Type 0 where
  pub is_instance : String → Bool
  pub is_instance_alias : String → Bool
  pub is_rds_cluster : String → Bool
  pub fill_aliases : ℕ → HostInfo → Exec (State W) Exc HostInfo
  pub all_hosts : W → List HostInfo

module _ {W : Type 0} (out : Outside W) where
  unfoldable pub connect : HostInfo → Exec (State W) Exc ℕ → Exec (State W) Exc ℕ
  unfolding populate_opened_connection_set
  connect h connect_func = do
    conn ← connect_func
    filled ← if out.is_rds_cluster h.host then out.fill_aliases conn (reset_aliases h) else pure h
    modify (λ s. record s {
      tracker =
          populate_opened_connection_set out.is_instance out.is_instance_alias filled conn
            s.tracker;
    })
    pure conn

  unfoldable pub update_current_writer : State W → State W
  unfolding get_writer
  update_current_writer s =
      if not (is_some s.current_writer) || s.need_update_current_writer
      then record s {
        current_writer = get_writer (out.all_hosts s.world);
        need_update_current_writer = false;
      }
      else s

  unfoldable pub writer_lost : State W → State W
  unfolding invalidate_all_connections
  writer_lost s = record s {
    tracker =
        invalidate_all_connections out.is_instance out.is_instance_alias s.current_writer s.tracker;
    need_update_current_writer = true;
  }

  unfoldable pub after_failure : Exc → State W → State W
  unfolding writer_lost same_host
  after_failure e s =
      if is_failover_error e
        && not (same_host (get_writer (out.all_hosts s.world)) s.current_writer)
      then writer_lost s
      else s

  unfoldable pub execute : {A : Type 0} → Exec (State W) Exc A → Exec (State W) Exc A
  unfolding update_current_writer after_failure
  execute execute_func s =
      catch execute_func (λ e t. (raised e, after_failure e t)) (update_current_writer s)
