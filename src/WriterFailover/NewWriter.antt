-- ===== src/WriterFailover/NewWriter.antt =====
-- writer_failover_handler.py: `wait_for_new_writer`, task B of a failover. Its fields are those of the
-- handler that only this task uses, and they stay from one failover to the next. All exceptions of
-- what it calls are handled inside; the topology is never None, since the task is given one.
pub mod Found
pub mod Answer
use aws_advanced_python_wrap.Prelude.{
  ℕ, zero, suc, Bool, true, false, not, ◌&&◌, Option, none, some, List, [], ◌∷◌, if◌then◌else◌,
  ◌==◌,
}
use aws_advanced_python_wrap.Errors.{Exc}
use aws_advanced_python_wrap.Exec.{
  Result, ok, raised, Exec, pure, gets, modify, ignore, ◌>>=◌, ◌>>◌,
}
use aws_advanced_python_wrap.Host.{HostInfo}
use aws_advanced_python_wrap.Host.Role.{HostAvailability}
use aws_advanced_python_wrap.Failover.{WriterFailoverResult, ReaderFailoverResult}
use aws_advanced_python_wrap.WriterFailover.{Service, get_writer, is_same}

pub record State (W : Type 0) : Type 0 where
  pub current_connection : Option ℕ
  pub current_topology : List HostInfo
  pub current_reader_connection : Option ℕ
  pub current_reader_host : Option HostInfo
  pub world : W

-- `a is b` on optional connections.
abbrev pub is_connection : Option ℕ → Option ℕ → Bool
is_connection none none = true
is_connection none (some d) = false
is_connection (some c) none = false
is_connection (some c) (some d) = c == d

module _ {W : Type 0} (v : Service W) where
  -- A part of the task: its answer, or `none` without fuel.
  abbrev pub Part : Type 0
  Part = State W → Option Bool × State W

  unfoldable pub pause : ℕ → State W → State W
  pause n s = record s { world = v.sleep n s.world }

  unfoldable pub use_reader : Part → Bool → Option ℕ → Option HostInfo → Part
  unfolding pause
  use_reader again true (some c) (some h) s =
      (some true, record s { current_reader_connection = some c; current_reader_host = some h })
  use_reader again true (some c) none s = again (pause 1 s)
  use_reader again true none h s = again (pause 1 s)
  use_reader again false c h s = again (pause 1 s)

  unfoldable pub after_reader :
      Part → State W → Result Exc ReaderFailoverResult × W → Option Bool × State W
  unfolding use_reader
  after_reader again s (raised e, w) = again (pause 1 (record s { world = w }))
  after_reader again s (ok r, w) =
      use_reader again r.is_connected r.connection r.new_host (record s { world = w })

  unfoldable pub connect_to_reader : ℕ → Part
  unfolding after_reader
  connect_to_reader zero s = (none, s)
  connect_to_reader (suc fuel) s =
      let next =
        after_reader (connect_to_reader fuel) s
          (v.get_reader_connection s.current_topology s.world) in
      if v.is_set s.world then (some true, s) else next

  unfoldable pub after_connect : HostInfo → State W → Result Exc ℕ × W → Bool × State W
  after_connect h s (ok c, w) = (
    true,
    record s {
      current_connection = some c;
      world = v.set_availability h.all_aliases HostAvailability.available w;
    },
  )
  after_connect h s (raised e, w) =
      (false, record s { world = v.set_availability h.all_aliases HostAvailability.unavailable w })

  unfoldable pub connect_to_candidate : Option HostInfo → State W → Bool × State W
  unfolding after_connect
  connect_to_candidate none s = (false, s)
  connect_to_candidate (some h) s = after_connect h s (v.force_connect h s.world)

  unfoldable pub connect_to_writer : Option HostInfo → State W → Bool × State W
  unfolding connect_to_candidate
  connect_to_writer candidate s =
      if is_same candidate s.current_reader_host
      then (true, record s { current_connection = s.current_reader_connection })
      else connect_to_candidate candidate s

  unfoldable pub after_writer : Part → Bool × State W → Option Bool × State W
  unfolding pause
  after_writer again (true, s) = (some true, s)
  after_writer again (false, s) = again (pause v.read_topology_interval_sec s)

  unfoldable pub consider : Part → HostInfo → List HostInfo → Part
  unfolding connect_to_writer after_writer
  consider again initial hosts s =
      let t = record s { current_topology = hosts } in
      if is_same (get_writer hosts) (some initial)
      then again (pause v.read_topology_interval_sec t)
      else after_writer again (connect_to_writer (get_writer hosts) t)

  -- Of one host, the reader is not yet connected to the cluster.
  unfoldable pub after_refresh :
      Part → HostInfo → State W → Result Exc (Unit {0}) × W → List HostInfo → Option Bool × State W
  unfolding consider
  after_refresh again initial s (raised e, w) hosts = (some false, record s { world = w })
  after_refresh again initial s (ok _, w) [] =
      again (pause v.read_topology_interval_sec (record s { world = w }))
  after_refresh again initial s (ok _, w) (h ∷ []) =
      again (pause v.read_topology_interval_sec (record s { world = w }))
  after_refresh again initial s (ok _, w) (h ∷ g ∷ hosts) =
      consider again initial (h ∷ g ∷ hosts) (record s { world = w })

  unfoldable pub refresh_topology_and_connect_to_new_writer : ℕ → HostInfo → Part
  unfolding after_refresh
  refresh_topology_and_connect_to_new_writer zero initial s = (none, s)
  refresh_topology_and_connect_to_new_writer (suc fuel) initial s =
      let r = v.force_refresh_host_list s.current_reader_connection s.world in
      let next =
        after_refresh (refresh_topology_and_connect_to_new_writer fuel initial) initial s r
          (v.all_hosts r.1) in
      if v.is_set s.world then (some false, s) else next

  unfoldable pub close_quietly : Option ℕ → State W → State W
  close_quietly none s = s
  close_quietly (some c) s = record s { world = (v.close c s.world).1 }

  unfoldable pub close_reader_connection : State W → State W
  unfolding close_quietly
  close_reader_connection s = record (close_quietly s.current_reader_connection s) {
    current_reader_connection = none;
    current_reader_host = none;
  }

  unfoldable pub after_search : Part → Option Bool × State W → Option Bool × State W
  unfolding close_reader_connection
  after_search again (none, s) = (none, s)
  after_search again (some true, s) = (some true, s)
  after_search again (some false, s) = again (close_reader_connection s)

  unfoldable pub search : Part → ℕ → HostInfo → Option Bool × State W → Option Bool × State W
  unfolding refresh_topology_and_connect_to_new_writer after_search
  search again fuel initial (none, s) = (none, s)
  search again fuel initial (some _, s) =
      after_search again (refresh_topology_and_connect_to_new_writer fuel initial s)

  -- The loop of the task. The answer is `success`.
  unfoldable pub loop : ℕ → HostInfo → Part
  unfolding connect_to_reader search
  loop zero initial s = (none, s)
  loop (suc fuel) initial s =
      let next = search (loop fuel initial) (suc fuel) initial (connect_to_reader (suc fuel) s) in
      if v.is_set s.world then (some false, s) else next

  unfoldable pub cleanup : State W → State W
  unfolding close_quietly
  cleanup s =
      if is_connection s.current_connection s.current_reader_connection
      then s
      else close_quietly s.current_reader_connection s

  unfoldable pub conclude : Option Bool × State W → Option WriterFailoverResult × State W
  unfolding cleanup
  conclude (none, s) = (none, s)
  conclude (some _, s) = (
    some (record {
      is_connected = true;
      topology = some s.current_topology;
      new_connection = s.current_connection;
      exception = none;
    }),
    cleanup s,
  )

  unfoldable pub wait_for_new_writer :
      ℕ → List HostInfo → HostInfo → State W → Option WriterFailoverResult × State W
  unfolding loop conclude
  wait_for_new_writer fuel current_topology current_host s =
      conclude (loop fuel current_host (record s { current_topology = current_topology }))
