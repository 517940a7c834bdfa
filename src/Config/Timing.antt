-- ===== src/Config/Timing.antt =====
-- What holds of the settings that the loader returns.
use automation_platform.Base.{
  ◌≡◌, refl, true, false, Option, none, some, String, arith, ap, ◌∙◌, inl, inr, if◌then◌else◌,
  Bool-cases,
}
use automation_platform.Errors.{ok, raised, value_error, ◌>>=◌, bind_lem}
use automation_platform.Texts.{same}
use automation_platform.Config.{
  Python, Environment, Settings, get_required, get_float, validate_timing, build_settings,
  load_settings, get_bool, get_int,
}

module _ (python : Python) where
  -- The intervals are positive, and the lease is at least three heartbeats long.
  pub record AreSafe (lease poll beat schedule repair : python.Float) : Type 0 where
    pub lease_positive : python.is_positive lease ≡ true
    pub poll_positive : python.is_positive poll ≡ true
    pub beat_positive : python.is_positive beat ≡ true
    pub schedule_positive : python.is_positive schedule ≡ true
    pub repair_positive : python.is_positive repair ≡ true
    pub three_beats : python.less lease (python.thrice beat) ≡ false

  -- The settings come from such readings of the environment.
  pub record IsSafe (env : Environment) (s : Settings python) : Type 0 where
    pub lease : python.Float
    pub poll : python.Float
    pub beat : python.Float
    pub schedule : python.Float
    pub repair : python.Float
    pub safe : AreSafe lease poll beat schedule repair
    pub lease_read : get_float python "QUEUE_LEASE_TIMEOUT_SECONDS" (python.float 30) env ≡ ok lease
    pub beat_read :
        get_float python "WORKER_HEARTBEAT_INTERVAL_SECONDS" (python.float 10) env ≡ ok beat
    pub lease_kept : python.duration lease ≡ ok s.queue_lease_timeout
    pub poll_kept : python.duration poll ≡ ok s.worker_poll_interval
    pub beat_kept : python.duration beat ≡ ok s.worker_heartbeat_interval
    pub schedule_kept : python.duration schedule ≡ ok s.scheduler_poll_interval
    pub repair_kept : python.duration repair ≡ ok s.reconciliation_interval
    pub database : env "DATABASE_URL" ≡ some s.database_url
    pub database_named : same (python.strip s.database_url) "" ≡ false

  validate_timing_lem :
      (lease poll beat schedule repair : python.Float)
      → validate_timing python lease poll beat schedule repair ≡ ok tt
      → AreSafe lease poll beat schedule repair
  unfolding validate_timing
  validate_timing_lem lease poll beat schedule repair h = record {
    lease_positive = ground arith;
    poll_positive = ground arith;
    beat_positive = ground arith;
    schedule_positive = ground arith;
    repair_positive = ground arith;
    three_beats = ground arith;
  }

  get_required_lem :
      (name value : String) (env : Environment)
      → get_required python name env ≡ ok value
      → (env name ≡ some value) × (same (python.strip value) "" ≡ false)
  unfolding get_required
  get_required_lem name value env h = go (env name) refl h
    where
      go :
          (o : Option String)
          → env name ≡ o
          → (elim o [
            | none ↦ raised value_error
            | some v ↦ if same (python.strip v) "" then raised value_error else ok v
          ])
            ≡ ok value
          → (env name ≡ some value) × (same (python.strip value) "" ≡ false)
      go none e q = cc
      go (some v) e q = elim (Bool-cases (same (python.strip v) "")) [
        | inl t ↦ absurd (ground arith)
        | inr f ↦ (ground arith, ground arith)
      ]

  -- What the settings hold of the intervals and the environment.
  record IsBuilt (env : Environment) (lease poll beat schedule repair : python.Float)
      (s : Settings python) : Type 0 where
    lease_kept : python.duration lease ≡ ok s.queue_lease_timeout
    poll_kept : python.duration poll ≡ ok s.worker_poll_interval
    beat_kept : python.duration beat ≡ ok s.worker_heartbeat_interval
    schedule_kept : python.duration schedule ≡ ok s.scheduler_poll_interval
    repair_kept : python.duration repair ≡ ok s.reconciliation_interval
    database : get_required python "DATABASE_URL" env ≡ ok s.database_url

  build_settings_lem :
      (env : Environment) (lease poll beat schedule repair : python.Float) (s : Settings python)
      → build_settings python env lease poll beat schedule repair ≡ ok s
      → IsBuilt env lease poll beat schedule repair s
  unfolding build_settings
  build_settings_lem env lease poll beat schedule repair s h =
      let (url, hu, h1) = bind_lem (get_required python "DATABASE_URL" env) _ s h in
      let (echo, _, h2) = bind_lem (get_bool python "ECHO_SQL" false env) _ s h1 in
      let (a, ha, h3) = bind_lem (python.duration lease) _ s h2 in
      let (b, hb, h4) = bind_lem (python.duration poll) _ s h3 in
      let (c, hc, h5) = bind_lem (python.duration beat) _ s h4 in
      let (d, hd, h6) = bind_lem (python.duration schedule) _ s h5 in
      let (e, he, h7) = bind_lem (python.duration repair) _ s h6 in
      let (port, _, h8) = bind_lem (get_int python "API_PORT" (python.int 8000) env) _ s h7 in
      record {
        lease_kept = ha ∙ ap (λ m. m >>= λ s. ok s.queue_lease_timeout) h8;
        poll_kept = hb ∙ ap (λ m. m >>= λ s. ok s.worker_poll_interval) h8;
        beat_kept = hc ∙ ap (λ m. m >>= λ s. ok s.worker_heartbeat_interval) h8;
        schedule_kept = hd ∙ ap (λ m. m >>= λ s. ok s.scheduler_poll_interval) h8;
        repair_kept = he ∙ ap (λ m. m >>= λ s. ok s.reconciliation_interval) h8;
        database = hu ∙ ap (λ m. m >>= λ s. ok s.database_url) h8;
      }

  -- Whatever the environment holds: settings that the loader returns have positive intervals and a
  -- lease of at least three heartbeats, in the floats that were read, whose durations they hold, and a
  -- database that is named.
  pub load_settings-IsSafe :
      (env : Environment) (s : Settings python) → load_settings python env ≡ ok s → IsSafe env s
  unfolding load_settings
  load_settings-IsSafe env s h =
      let (lease, lease_read, h1) =
        bind_lem (get_float python "QUEUE_LEASE_TIMEOUT_SECONDS" (python.float 30) env) _ s h in
      let (poll, _, h2) =
        bind_lem (get_float python "WORKER_POLL_INTERVAL_SECONDS" (python.float 1) env) _ s h1 in
      let (beat, beat_read, h3) =
        bind_lem (get_float python "WORKER_HEARTBEAT_INTERVAL_SECONDS" (python.float 10) env) _ s
          h2 in
      let (schedule, _, h4) =
        bind_lem (get_float python "SCHEDULER_POLL_INTERVAL" (python.float 1) env) _ s h3 in
      let (repair, _, h5) =
        bind_lem (get_float python "RECONCILIATION_INTERVAL_SECONDS" (python.float 30) env) _ s
          h4 in
      let (_, valid, h6) =
        bind_lem (validate_timing python lease poll beat schedule repair) _ s h5 in
      let b = build_settings_lem env lease poll beat schedule repair s h6 in
      let (found, named) = get_required_lem "DATABASE_URL" s.database_url env b.database in
      record {
        lease = lease;
        poll = poll;
        beat = beat;
        schedule = schedule;
        repair = repair;
        safe = validate_timing_lem lease poll beat schedule repair valid;
        lease_read = lease_read;
        beat_read = beat_read;
        lease_kept = b.lease_kept;
        poll_kept = b.poll_kept;
        beat_kept = b.beat_kept;
        schedule_kept = b.schedule_kept;
        repair_kept = b.repair_kept;
        database = found;
        database_named = named;
      }
