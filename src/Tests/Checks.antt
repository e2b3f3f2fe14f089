-- ===== src/Tests/Checks.antt =====
-- The checks of the hub.
use gpupgrade.Base.{
  ◌≡◌, refl, pos, true, false, none, [], ◌∷◌, ltb, ℕ, if◌then◌else◌, ◌==◌, string_eq,
}
use gpupgrade.System.{plain, ok, err}
use gpupgrade.Hub.Database.{Env, Database, new_db_conn}
use gpupgrade.Hub.Checks.{panicked, check_object_count, get_counts_for_db, DiskNet, check_host}
use gpupgrade.Hub.Checks.Laws.{check_object_count-rows}

abbrev env : Env
env = record {
  getenv = λ name. "";
  username = "gpadmin";
  hostname = "mdw";
  atoi = λ text. pos 15432;
}

-- Two databases; the tables of one cannot be counted.
abbrev database : Database
database = record {
  connect = λ conn. none;
  version_before = λ conn version. true;
  version_at_least = λ conn version. false;
  select_segments = λ conn query. ok [];
  select_names = λ conn query. ok ("template1" ∷ "sales" ∷ []);
  get_count =
      λ conn query. if conn.db_name == "sales" then err (plain "permission denied") else ok (pos 3);
}

check_object_count-rows_example : check_object_count database env (pos 5432) ≡ panicked
unfolding get_counts_for_db new_db_conn
check_object_count-rows_example =
    check_object_count-rows database env (pos 5432) ("template1" ∷ "sales" ∷ []) refl refl
      (refl, (refl, tt))

-- Usages in percent.
abbrev net : DiskNet
net = record {
  Conn = Unit {0};
  Usage = ℕ;
  dial = λ target. ok tt;
  usage_on = λ conn. ok [];
  at_limit = λ n. ltb 79 n;
  shown = λ n. if ltb 89 n then "90.0" else "80.0";
}

host_warned :
    check_host net "sdw1" (ok (("/", 20) ∷ ("/data", 80) ∷ [])) []
    ≡ "diskspace check - sdw1 - WARNING /data 80.0 use" ∷ []
unfolding check_host
host_warned = refl
