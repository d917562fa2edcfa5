-- ===== src/WriterFailover/NewWriter/Answer.antt =====
-- writer_failover_handler.py: the answer of task B.
use aws_advanced_python_wrap.Prelude.{
  ℕ, zero, suc, ◌≡◌, refl, Bool, true, false, Option, none, some, List, if◌then◌else◌,
}
use aws_advanced_python_wrap.Host.{HostInfo}
use aws_advanced_python_wrap.Failover.{WriterFailoverResult}
use aws_advanced_python_wrap.WriterFailover.{Service}
use aws_advanced_python_wrap.WriterFailover.NewWriter.{
  State, Part, refresh_topology_and_connect_to_new_writer, close_reader_connection, after_search,
  search, connect_to_reader, loop, conclude, wait_for_new_writer,
}
use aws_advanced_python_wrap.WriterFailover.NewWriter.Found.{Found, Searched, refresh-Searched}

module _ {W : Type 0} (v : Service W) (initial : HostInfo) where
  -- The loop ends with a new writer, or because the event is set.
  abbrev Ended : Option Bool × State W → Type 0
  Ended (none, s) = Unit
  Ended (some false, s) = v.is_set s.world ≡ true
  Ended (some true, s) = Found v initial s

  after_search-Ended :
      (again : Part v) (r : Option Bool × State W)
      → ((t : State W) → Ended (again t))
      → Searched v initial r
      → Ended (after_search v again r)
  unfolding after_search
  after_search-Ended again (none, s) k h = tt
  after_search-Ended again (some true, s) k h = h
  after_search-Ended again (some false, s) k h = k (close_reader_connection v s)

  search-Ended :
      (again : Part v) (fuel : ℕ) (r : Option Bool × State W)
      → ((t : State W) → Ended (again t))
      → Ended (search v again fuel initial r)
  unfolding search
  search-Ended again fuel (none, s) k = tt
  search-Ended again fuel (some b, s) k =
      after_search-Ended again (refresh_topology_and_connect_to_new_writer v fuel initial s) k
        (refresh-Searched v initial fuel s)

  either-Ended :
      (b : Bool) (x y : Option Bool × State W)
      → (b ≡ true → Ended x)
      → Ended y
      → Ended (if b then x else y)
  either-Ended true x y p q = p refl
  either-Ended false x y p q = q

  loop-Ended : (fuel : ℕ) (s : State W) → Ended (loop v fuel initial s)
  unfolding loop
  loop-Ended zero s = tt
  loop-Ended (suc fuel) s =
      let r = connect_to_reader v (suc fuel) s in
      either-Ended (v.is_set s.world) (some false, s)
        (search v (loop v fuel initial) (suc fuel) initial r) (λ e. e)
        (search-Ended (loop v fuel initial) (suc fuel) r (loop-Ended fuel))

  -- Why the loop ended in `t`: with success, or because the event is set.
  abbrev pub Reason : Bool → State W → Type 0
  Reason true t = Found v initial t
  Reason false t = v.is_set t.world ≡ true

  -- Of how the loop ended, the answer of the task.
  abbrev pub Answered : Option Bool × State W → Option WriterFailoverResult → Type 0
  Answered (none, t) o = o ≡ none
  Answered (some b, t) o =
      (o
        ≡ some (record {
          is_connected = true;
          topology = some t.current_topology;
          new_connection = t.current_connection;
          exception = none;
        }))
      × Reason b t

  conclude-Answered : (p : Option Bool × State W) → Ended p → Answered p (conclude v p).0
  unfolding conclude
  conclude-Answered (none, s) h = refl
  conclude-Answered (some true, s) h = (refl, h)
  conclude-Answered (some false, s) h = (refl, h)

  -- The loop of task B runs on fuel from the topology that the task is given; without enough of it
  -- there is no result. Else the result says that it is connected, with the connection and the
  -- topology of the state in which the loop ended. If the loop ended with success, the writer of that
  -- topology is not the old one, and that connection was made to it or is the one of the reader that
  -- is that writer. If it ended without, the event was set in that state, and the result is the same
  -- in form.
  pub wait_for_new_writer-Answered :
      (fuel : ℕ) (topology : List HostInfo) (s : State W)
      → Answered
          (loop v fuel initial (record s { current_topology = topology }))
          (wait_for_new_writer v fuel topology initial s).0
  unfolding wait_for_new_writer
  wait_for_new_writer-Answered fuel topology s =
      let t = record s { current_topology = topology } in
      conclude-Answered (loop v fuel initial t) (loop-Ended fuel t)
