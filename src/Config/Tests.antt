-- ===== src/Config/Tests.antt =====
-- Configurations at concrete inputs.
use billiards_online.Base.{
  ◌*◌, ◌≡◌, refl, pos, Option, none, some, [], ◌∷◌, Text, text_eq, codes, if◌then◌else◌, ok, any,
  split_on, trim_space, trim_left, to_lower, select, starts_with, drop,
}
use billiards_online.Config.{
  Url, System, Config, load, read_config, read_problems, validate, get_dur, split_list,
}
use billiards_online.Config.Rules.{Valid, load-Valid}

-- Only the database and the origins are set.
abbrev lookup : Text → Option Text
lookup key =
    if text_eq key (codes "DATABASE_URL")
    then some (codes "db")
    else if text_eq key (codes "HTTP_ALLOWED_ORIGINS")
    then some (codes "http://a, http://b")
    else none

-- A URL of a host alone, or a path.
abbrev read_url : Text → Url
read_url s =
    if starts_with (codes "http://") s
    then record { scheme = codes "http"; host = drop 7 s; path = []; raw_query = [] }
    else record { scheme = []; host = []; path = s; raw_query = [] }

abbrev pub plain : System
plain = record {
  lookup_env = lookup;
  parse_int = λ s. none;
  parse_duration = λ s. none;
  parse_url = λ s. some (read_url s);
  lower = λ c. c;
}

abbrev pub loaded : Config
loaded = record {
  env = codes "development";
  http = record {
    addr = codes ":8080";
    internal_addr = codes "127.0.0.1:6060";
    allowed_origins = codes "http://a" ∷ codes "http://b" ∷ [];
    shutdown_timeout = pos (15 * 1000000000);
  };
  database = record {
    url = codes "db";
    max_conns = pos 10;
    min_conns = pos 2;
    max_conn_lifetime = pos (3600 * 1000000000);
    max_conn_idle_time = pos (1800 * 1000000000);
    connect_timeout = pos (10 * 1000000000);
  };
  log = record { level = codes "info"; format = codes "text" };
}

load_example : load plain ≡ ok loaded
unfolding load read_config read_problems get_dur validate text_eq any to_lower split_list split_on
    trim_space trim_left select starts_with
load_example = refl

load-Valid_example : Valid plain loaded
load-Valid_example = load-Valid plain loaded load_example
