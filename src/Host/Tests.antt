-- ===== src/Host/Tests.antt =====
-- Runs of the methods of a host at concrete inputs.
use aws_advanced_python_wrap.Prelude.{
  ◌≡◌, refl, ◌<◌, ◌↔◌, ◌+◌, ◌*◌, ◌^◌, true, false, none, some, [], ◌∷◌, String-discrete,
}
use aws_advanced_python_wrap.Host.Role.{writer, reader, available, unavailable}
use aws_advanced_python_wrap.Host.Backoff.{
  Backoff, get_host_availability, set_host_availability, mark_down, mark_down-get, last_of,
}
use aws_advanced_python_wrap.Host.Backoff
use aws_advanced_python_wrap.Host.{
  port_eq, HostInfo, mem, init, url, eq, add_alias, remove_alias, get_availability,
}
use aws_advanced_python_wrap.Host.Aliases.{mem-add_alias, mem-remove_alias}

program : Unit {0}
unfolding init url eq add_alias remove_alias get_availability String-discrete Backoff.init
program = tt

abbrev node : HostInfo
node = record {
  host = "db-1";
  port = some 5432;
  role = reader;
  raw_availability = available;
  backoff = none;
  host_id = some "db-1";
  last_update_time = none;
  aliases = [];
  all_aliases = "db-1:5432" ∷ [];
}

node-init : init "db-1" (some 5432) reader available none (some "db-1") none ≡ node
unfolding program
node-init = refl

node-url : url node ≡ "db-1:5432"
unfolding program
node-url = refl

abbrev fresh : Backoff
fresh = record {
  max_retries = 3;
  initial_backoff_time_secs = 1;
  not_available_count = 0;
  last_changed = 0;
}

mark_down-get_example :
    ((get_host_availability (mark_down (5 ∷ 9 ∷ []) fresh) 4_000_010 unavailable ≡ available)
      ↔ ((2 < 3) × (9 + 2 ^ 2 * 1 * 1000 * 1000 < 4_000_010)))
    × ((set_host_availability available 4_000_010
          (mark_down (5 ∷ 9 ∷ []) fresh)).not_available_count
        ≡ 0)
unfolding program
mark_down-get_example = mark_down-get 3 1 0 (5 ∷ 9 ∷ []) 4_000_010 fresh refl

added_alias :
    (mem "b" (add_alias ("a" ∷ "b" ∷ []) node).aliases ≡ true)
    × (mem "b" (add_alias ("a" ∷ "b" ∷ []) node).all_aliases ≡ true)
unfolding String-discrete
added_alias = mem-add_alias "b" ("a" ∷ "b" ∷ []) node

removed_alias :
    (mem "db-1:5432" (remove_alias ("db-1:5432" ∷ []) node).aliases ≡ false)
    × (mem "db-1:5432" (remove_alias ("db-1:5432" ∷ []) node).all_aliases ≡ false)
unfolding String-discrete
removed_alias = mem-remove_alias "db-1:5432" ("db-1:5432" ∷ []) node

-- Hosts with the same name and port differ for `__eq__` when their roles do.
other_role : (eq node node ≡ true) × (eq node (record node { role = writer }) ≡ false)
unfolding eq port_eq String-discrete
other_role = (refl, refl)
