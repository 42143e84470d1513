-- ===== src/Config.antt =====
-- platform/config/config.go. The environment, net/url and the parsers of strconv and time are
-- parameters; messages are left out, so a problem says only which rule was broken.
pub mod Rules
pub mod Origins
pub mod Tests
use billiards_online.Base.{
  ℕ, ℤ, pos, ltb_ℤ, Bool, true, false, not, ◌&&◌, ◌||◌, Option, none, some, List, [], ◌∷◌, ◌++◌,
  map, select, Text, text_eq, codes, split_on, trim_space, to_lower, ◌*◌, if◌then◌else◌, Result, ok,
  err, any,
}

-- What url.Parse gives, of which these parts are read.
pub record Url : Type 0 where
  pub scheme : Text
  pub host : Text
  pub path : Text
  pub raw_query : Text

pub record System : Type 0 where
  -- os.LookupEnv
  pub lookup_env : Text → Option Text
  -- strconv.ParseInt at base 10 and 32 bits, and time.ParseDuration, in nanoseconds
  pub parse_int : Text → Option ℤ
  pub parse_duration : Text → Option ℤ
  pub parse_url : Text → Option Url
  -- unicode.ToLower above ASCII
  pub lower : ℕ → ℕ

pub record Http : Type 0 where
  pub addr : Text
  pub internal_addr : Text
  pub allowed_origins : List Text
  pub shutdown_timeout : ℤ

pub record Database : Type 0 where
  pub url : Text
  pub max_conns : ℤ
  pub min_conns : ℤ
  pub max_conn_lifetime : ℤ
  pub max_conn_idle_time : ℤ
  pub connect_timeout : ℤ

pub record Log : Type 0 where
  pub level : Text
  pub format : Text

pub record Config : Type 0 where
  pub env : Text
  pub http : Http
  pub database : Database
  pub log : Log

pub data Problem : Type 0 where
  not_an_integer not_a_duration : Text → Problem
  bad_env bad_addr bad_internal_addr same_addr bad_shutdown_timeout no_origins : Problem
  not_absolute not_bare not_https : Text → Problem
  no_database_url bad_database_url bad_max_conns bad_min_conns min_above_max : Problem
  bad_connect_timeout bad_level bad_format : Problem

abbrev pub env_development : Text
env_development = codes "development"

abbrev pub env_production : Text
env_production = codes "production"

unfoldable pub is_production : Text → Bool
is_production e = text_eq e env_production

-- What a test adds to the list of problems.
abbrev pub unless : Bool → Problem → List Problem
unless true p = []
unless false p = p ∷ []

abbrev pub is_empty : {A : Type 0} → List A → Bool
is_empty [] = true
is_empty (x ∷ xs) = false

-- The tests on one origin: the first that fails is reported.
unfoldable pub origin_problem : Text → Text → Option Url → List Problem
unfolding is_production
origin_problem env o none = not_absolute o ∷ []
origin_problem env o (some u) =
    if is_empty u.scheme || is_empty u.host
    then not_absolute o ∷ []
    else if not (is_empty u.path) || not (is_empty u.raw_query)
    then not_bare o ∷ []
    else if is_production env && not (text_eq u.scheme (codes "https"))
    then not_https o ∷ []
    else []

abbrev pub one_of : List Text → Text → Bool
one_of names s = any (text_eq s) names

abbrev pub levels : List Text
levels = codes "debug" ∷ codes "info" ∷ codes "warn" ∷ codes "error" ∷ []

abbrev pub formats : List Text
formats = codes "json" ∷ codes "text" ∷ []

abbrev pub is_some : {A : Type 0} → Option A → Bool
is_some none = false
is_some (some a) = true

unfoldable pub split_list : Text → List Text
split_list raw = select (λ p. not (is_empty p)) (map trim_space (split_on b',' raw))

-- Every problem that was found, or the configuration.
abbrev pub outcome : List Problem → Config → Result (List Problem) Config
outcome [] c = ok c
outcome (p ∷ ps) c = err (p ∷ ps)

unfoldable pub allows : List Text → Text → Bool
allows [] origin = false
allows (allowed ∷ os) origin = if text_eq origin allowed then true else allows os origin

unfoldable pub allows_origin : Config → Text → Bool
unfolding allows
allows_origin c origin = allows c.http.allowed_origins origin

module _ (sys : System) where
  unfoldable pub origin_problems : Text → List Text → List Problem
  unfolding origin_problem
  origin_problems env [] = []
  origin_problems env (o ∷ os) = origin_problem env o (sys.parse_url o) ++ origin_problems env os

  unfoldable pub http_problems : Text → Http → List Problem
  unfolding origin_problems
  http_problems env h =
      unless (not (is_empty h.addr)) bad_addr
      ++ (unless (not (is_empty h.internal_addr)) bad_internal_addr
          ++ (unless (not (text_eq h.internal_addr h.addr)) same_addr
              ++ (unless (ltb_ℤ (pos 0) h.shutdown_timeout) bad_shutdown_timeout
                  ++ (unless (not (is_empty h.allowed_origins)) no_origins
                      ++ origin_problems env h.allowed_origins))))

  unfoldable pub url_problems : Text → List Problem
  url_problems [] = no_database_url ∷ []
  url_problems (c ∷ cs) = unless (is_some (sys.parse_url (c ∷ cs))) bad_database_url

  unfoldable pub database_problems : Database → List Problem
  unfolding url_problems
  database_problems d =
      url_problems d.url
      ++ (unless (not (ltb_ℤ d.max_conns (pos 1))) bad_max_conns
          ++ (unless (not (ltb_ℤ d.min_conns (pos 0))) bad_min_conns
              ++ (unless (not (ltb_ℤ d.max_conns d.min_conns)) min_above_max
                  ++ unless (ltb_ℤ (pos 0) d.connect_timeout) bad_connect_timeout)))

  unfoldable pub validate : Config → List Problem
  unfolding http_problems database_problems
  validate c =
      unless (one_of (env_development ∷ env_production ∷ []) c.env) bad_env
      ++ (http_problems c.env c.http
          ++ (database_problems c.database
              ++ (unless (one_of levels c.log.level) bad_level
                  ++ unless (one_of formats c.log.format) bad_format)))

  -- The values read from the environment.
  unfoldable pub getenv : Text → Text
  getenv key = elim (sys.lookup_env key) [ none ↦ [] | some v ↦ v ]

  unfoldable pub get : Text → Text → Text
  get key fallback = elim (sys.lookup_env key) [
    | none ↦ fallback
    | some v ↦ if is_empty v then fallback else v
  ]

  -- A number, and the problem of one that cannot be read.
  abbrev pub parsed : ℤ → Problem → Option ℤ → ℤ × List Problem
  parsed fallback p none = (fallback, p ∷ [])
  parsed fallback p (some n) = (n, [])

  abbrev pub parsed_or : (Text → Option ℤ) → ℤ → Problem → Option Text → ℤ × List Problem
  parsed_or parse fallback p none = (fallback, [])
  parsed_or parse fallback p (some []) = (fallback, [])
  parsed_or parse fallback p (some (c ∷ cs)) = parsed fallback p (parse (c ∷ cs))

  unfoldable pub get_int : Text → ℤ → ℤ × List Problem
  get_int key fallback = parsed_or sys.parse_int fallback (not_an_integer key) (sys.lookup_env key)

  unfoldable pub get_dur : Text → ℤ → ℤ × List Problem
  get_dur key fallback =
      parsed_or sys.parse_duration fallback (not_a_duration key) (sys.lookup_env key)

  unfoldable pub default_log_format : Text
  unfolding is_production getenv
  default_log_format =
      if is_production (getenv (codes "APP_ENV")) then codes "json" else codes "text"

  -- Seconds, as a time.Duration.
  abbrev pub seconds : ℕ → ℤ
  seconds n = pos (n * 1000000000)

  -- The `cfg` of `Load`, and the problems met in reading it, in the order of its fields.
  unfoldable pub read_config : Config
  unfolding get get_int get_dur getenv default_log_format split_list
  read_config = record {
    env = get (codes "APP_ENV") env_development;
    http = record {
      addr = get (codes "HTTP_ADDR") (codes ":8080");
      internal_addr = get (codes "HTTP_INTERNAL_ADDR") (codes "127.0.0.1:6060");
      allowed_origins =
          split_list (get (codes "HTTP_ALLOWED_ORIGINS") (codes "http://billiards.localhost"));
      shutdown_timeout = (get_dur (codes "HTTP_SHUTDOWN_TIMEOUT") (seconds 15)).0;
    };
    database = record {
      url = getenv (codes "DATABASE_URL");
      max_conns = (get_int (codes "DATABASE_MAX_CONNS") (pos 10)).0;
      min_conns = (get_int (codes "DATABASE_MIN_CONNS") (pos 2)).0;
      max_conn_lifetime = (get_dur (codes "DATABASE_MAX_CONN_LIFETIME") (seconds 3600)).0;
      max_conn_idle_time = (get_dur (codes "DATABASE_MAX_CONN_IDLE_TIME") (seconds 1800)).0;
      connect_timeout = (get_dur (codes "DATABASE_CONNECT_TIMEOUT") (seconds 10)).0;
    };
    log = record {
      level = to_lower sys.lower (get (codes "LOG_LEVEL") (codes "info"));
      format = to_lower sys.lower (get (codes "LOG_FORMAT") default_log_format);
    };
  }

  unfoldable pub read_problems : List Problem
  unfolding get_int get_dur
  read_problems =
      (get_dur (codes "HTTP_SHUTDOWN_TIMEOUT") (seconds 15)).1
      ++ ((get_int (codes "DATABASE_MAX_CONNS") (pos 10)).1
          ++ ((get_int (codes "DATABASE_MIN_CONNS") (pos 2)).1
              ++ ((get_dur (codes "DATABASE_MAX_CONN_LIFETIME") (seconds 3600)).1
                  ++ ((get_dur (codes "DATABASE_MAX_CONN_IDLE_TIME") (seconds 1800)).1
                      ++ (get_dur (codes "DATABASE_CONNECT_TIMEOUT") (seconds 10)).1))))

  -- `Load`
  unfoldable pub load : Result (List Problem) Config
  unfolding read_config read_problems validate
  load = outcome (read_problems ++ validate read_config) read_config
