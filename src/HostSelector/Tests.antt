-- ===== src/HostSelector/Tests.antt =====
-- Runs of the round robin selector at concrete inputs.
use aws_advanced_python_wrap.Prelude.{
  inl, ◌≡◌, refl, ◌≢◌, none, List, [], ◌∷◌, String, String-discrete,
}
use aws_advanced_python_wrap.Exec.{ok}
use aws_advanced_python_wrap.Host.{HostInfo}
use aws_advanced_python_wrap.Host.Role.{reader, available}
use aws_advanced_python_wrap.HostSelector.{RoundRobinClusterInfo, get_host, next_index, weight_of}
use aws_advanced_python_wrap.HostSelector.Rotation.{
  served, copies, serving, served-rotation, test_yes,
}

program : Unit {0}
unfolding get_host next_index weight_of served String-discrete
program = tt

abbrev node : String → HostInfo
node name = record {
  host = name;
  port = none;
  role = reader;
  raw_availability = available;
  backoff = none;
  host_id = none;
  last_update_time = none;
  aliases = [];
  all_aliases = [];
}

abbrev info : RoundRobinClusterInfo
info = record {
  last_host = none;
  cluster_weights_dict = ("b", 2) ∷ [];
  default_weight = 1;
  weight_counter = 0;
}

abbrev hosts : List HostInfo
hosts = node "a" ∷ node "b" ∷ []

served-four :
    (served 4 hosts info).0 ≡ ok (node "a") ∷ ok (node "b") ∷ ok (node "b") ∷ ok (node "a") ∷ []
unfolding program
served-four = refl

b_ne_a : ◌≢◌ {A = String} "b" "a"
unfolding String-discrete
b_ne_a e = cc (test_yes "b" "a" e)

served-rotation_example :
    served 2 hosts (serving info (node "a") 0) ≡ (copies 2 (node "b"), serving info (node "b") 0)
unfolding String-discrete
served-rotation_example =
    served-rotation hosts info (node "a") (node "b") 0 1 ((b_ne_a, tt), (tt, tt)) refl (inl refl)
      (inl refl)
