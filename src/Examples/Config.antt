-- ===== src/Examples/Config.antt =====
-- The configuration loader with an environment that names a database and a shorter heartbeat; texts
-- are numbers of whole seconds here, of which one is written down.
use automation_platform.Base.{ℕ, ◌≡◌, refl, false, none, some, String, ltb, if◌then◌else◌, ◌*◌}
use automation_platform.Errors.{ok, raised, value_error}
use automation_platform.Texts.{same}
use automation_platform.Config.{Python, Environment, Settings, load_settings}
use automation_platform.Config.Timing.{IsSafe, load_settings-IsSafe}

abbrev seconds : Python
seconds = record {
  Float = ℕ;
  Int = ℕ;
  to_float = λ t. if same t "5" then some 5 else none;
  to_int = λ t. none;
  strip = λ t. t;
  lower = λ t. t;
  float = λ n. n;
  int = λ n. n;
  is_positive = λ n. ltb 0 n;
  less = ltb;
  thrice = λ n. 3 * n;
  duration = λ n. ok (n * 1000000);
}

abbrev environment : String → Environment
environment lease name =
    if same name "DATABASE_URL"
    then some "postgresql://db"
    else if same name "WORKER_HEARTBEAT_INTERVAL_SECONDS"
    then some "5"
    else if same name "QUEUE_LEASE_TIMEOUT_SECONDS"
    then some lease
    else none

-- A lease as short as the heartbeat is refused.
short_lease : load_settings seconds (environment "5") ≡ raised value_error
unfolding load_settings same
short_lease = refl

abbrev unset_lease : Environment
unset_lease name =
    if same name "DATABASE_URL"
    then some "postgresql://db"
    else if same name "WORKER_HEARTBEAT_INTERVAL_SECONDS"
    then some "5"
    else none

abbrev settings : Settings seconds
settings = record {
  database_url = "postgresql://db";
  echo_sql = false;
  queue_type = "postgres";
  queue_lease_timeout = 30000000;
  worker_poll_interval = 1000000;
  worker_heartbeat_interval = 5000000;
  scheduler_poll_interval = 1000000;
  reconciliation_interval = 30000000;
  api_host = "0.0.0.0";
  api_port = 8000;
  log_level = "INFO";
}

loads : load_settings seconds unset_lease ≡ ok settings
unfolding load_settings same
loads = refl

load_settings-IsSafe_example : IsSafe seconds unset_lease settings
load_settings-IsSafe_example = load_settings-IsSafe seconds unset_lease settings loads
