-- ===== src/Config.antt =====
-- The configuration: src/automation_platform/config (loader.py, settings.py), over the environment
-- variables. Floats and the parsing of texts are Python's own, and parameters: `Python`.
pub mod Timing
use automation_platform.Base.{
  ℕ, Bool, true, false, not, Option, none, some, String, if◌then◌else◌, ◌||◌,
}
use automation_platform.Domain.{Time}
use automation_platform.Errors.{Result, ok, raised, value_error, ◌>>=◌, ◌>>◌, raise_if}
use automation_platform.Texts.{same}

-- What the loader uses of Python: `float(text)`, `int(text)`, where nothing stands for a ValueError,
-- `text.strip()`, `text.lower()`, `float(n)`, `x > 0`, `x < y`, `3 * x` and `timedelta(seconds=x)`.
pub record Python : Type 1 where
  pub Float : Type 0
  pub Int : Type 0
  pub to_float : String → Option Float
  pub to_int : String → Option Int
  pub strip : String → String
  pub lower : String → String
  pub float : ℕ → Float
  pub int : ℕ → Int
  pub is_positive : Float → Bool
  pub less : Float → Float → Bool
  pub thrice : Float → Float
  pub duration : Float → Result Time

-- `os.getenv`
abbrev pub Environment : Type 0
Environment = String → Option String

module _ (python : Python) where
  pub record Settings : Type 0 where
    pub database_url : String
    pub echo_sql : Bool
    pub queue_type : String
    pub queue_lease_timeout : Time
    pub worker_poll_interval : Time
    pub worker_heartbeat_interval : Time
    pub scheduler_poll_interval : Time
    pub reconciliation_interval : Time
    pub api_host : String
    pub api_port : python.Int
    pub log_level : String

  -- `_get_required`
  pub get_required : String → Environment → Result String
  get_required name env = elim (env name) [
    | none ↦ raised value_error
    | some value ↦ if same (python.strip value) "" then raised value_error else ok value
  ]

  abbrev pub flag : String → Result Bool
  flag normalized =
      if same normalized "true"
      then ok true
      else if same normalized "false"
      then ok false
      else raised value_error

  -- `_get_bool`
  pub get_bool : String → Bool → Environment → Result Bool
  get_bool name default env = elim (env name) [
    | none ↦ ok default
    | some value ↦ flag (python.lower (python.strip value))
  ]

  -- `except ValueError: raise ValueError`
  abbrev pub parsed : {A : Type 0} → Option A → Result A
  parsed none = raised value_error
  parsed (some x) = ok x

  -- `_get_float`
  pub get_float : String → python.Float → Environment → Result python.Float
  get_float name default env = elim (env name) [
    | none ↦ ok default
    | some value ↦ parsed (python.to_float value)
  ]

  -- `_get_int`
  pub get_int : String → python.Int → Environment → Result python.Int
  get_int name default env = elim (env name) [
    | none ↦ ok default
    | some value ↦ parsed (python.to_int value)
  ]

  -- `os.getenv(name, default)`
  abbrev pub get_text : String → String → Environment → String
  get_text name default env = elim (env name) [ none ↦ default | some value ↦ value ]

  -- `_validate_timing`
  pub validate_timing :
      python.Float → python.Float → python.Float → python.Float → python.Float → Result (Unit {0})
  validate_timing lease poll beat schedule repair = do
    raise_if (not (python.is_positive lease)) value_error
    raise_if (not (python.is_positive poll)) value_error
    raise_if (not (python.is_positive beat)) value_error
    raise_if (not (python.is_positive schedule)) value_error
    raise_if (not (python.is_positive repair)) value_error
    raise_if (python.less lease (python.thrice beat)) value_error

  -- `return Settings(…)`
  pub build_settings :
      Environment
      → python.Float
      → python.Float
      → python.Float
      → python.Float
      → python.Float
      → Result Settings
  unfolding get_required get_bool get_int
  build_settings env lease poll beat schedule repair = do
    database_url ← get_required "DATABASE_URL" env
    echo_sql ← get_bool "ECHO_SQL" false env
    queue_lease_timeout ← python.duration lease
    worker_poll_interval ← python.duration poll
    worker_heartbeat_interval ← python.duration beat
    scheduler_poll_interval ← python.duration schedule
    reconciliation_interval ← python.duration repair
    api_port ← get_int "API_PORT" (python.int 8000) env
    ok (record {
      database_url = database_url;
      echo_sql = echo_sql;
      queue_type = get_text "QUEUE_TYPE" "postgres" env;
      queue_lease_timeout = queue_lease_timeout;
      worker_poll_interval = worker_poll_interval;
      worker_heartbeat_interval = worker_heartbeat_interval;
      scheduler_poll_interval = scheduler_poll_interval;
      reconciliation_interval = reconciliation_interval;
      api_host = get_text "API_HOST" "0.0.0.0" env;
      api_port = api_port;
      log_level = get_text "LOG_LEVEL" "INFO" env;
    })

  unfoldable pub load_settings : Environment → Result Settings
  unfolding get_float validate_timing build_settings
  load_settings env = do
    lease ← get_float "QUEUE_LEASE_TIMEOUT_SECONDS" (python.float 30) env
    poll ← get_float "WORKER_POLL_INTERVAL_SECONDS" (python.float 1) env
    beat ← get_float "WORKER_HEARTBEAT_INTERVAL_SECONDS" (python.float 10) env
    schedule ← get_float "SCHEDULER_POLL_INTERVAL" (python.float 1) env
    repair ← get_float "RECONCILIATION_INTERVAL_SECONDS" (python.float 30) env
    validate_timing lease poll beat schedule repair
    build_settings env lease poll beat schedule repair
