-- ===== src/RdsUtils/Tests.antt =====
-- Runs of the tests on host names at concrete inputs.
use aws_advanced_python_wrap.Prelude.{
  ◌≡◌, refl, Option, none, some, [], String, String-discrete, test, if◌then◌else◌,
}
use aws_advanced_python_wrap.RdsUtils.{
  Pattern, aurora_dns, Match, Python, rds_writer_cluster, identify_rds_type,
}
use aws_advanced_python_wrap.RdsUtils.Identify.{Coherent, kind, identify_rds_type-Gives}

abbrev cluster_match : Match
cluster_match = record {
  dns = some "cluster-";
  domain = some "xyz.us-east-2.rds.amazonaws.com";
  instance_name = some "db";
  region = some "us-east-2";
}

abbrev matched : Pattern → Option Match
matched aurora_dns = some cluster_match
matched _ = none

-- One name, of a writer cluster.
abbrev python : Python
python = record {
  search = λ p host.
      if test (String-discrete host "db.cluster-xyz.us-east-2.rds.amazonaws.com")
      then matched p
      else none;
  casefold = λ s. s;
  is_blank = λ s. test (String-discrete s "");
}

abbrev name : Option String
name = some "db.cluster-xyz.us-east-2.rds.amazonaws.com"

a_writer : ((identify_rds_type python name []).0 ≡ rds_writer_cluster)
unfolding identify_rds_type String-discrete
a_writer = refl

identify_rds_type-Gives_example :
    ((identify_rds_type python name []).0 ≡ kind python name)
    × Coherent python (identify_rds_type python name []).1
identify_rds_type-Gives_example = identify_rds_type-Gives python name [] (λ host m e. cc)
