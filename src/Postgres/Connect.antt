-- ===== src/Postgres/Connect.antt =====
-- platform/postgres/postgres.go: Connect. pgx is given by what it answers; its configuration is the
-- URL that it was read from and the fields that Connect sets, and a pool is its configuration.
use billiards_online.Base.{ℤ, Bool, Option, none, some, Text, if◌then◌else◌}
use billiards_online.Config.{Database}

pub record PoolConfig : Type 0 where
  pub url : Text
  pub max_conns : ℤ
  pub min_conns : ℤ
  pub max_conn_lifetime : ℤ
  pub max_conn_idle_time : ℤ
  pub connect_timeout : ℤ

-- `ParseConfig`, whether `NewWithConfig` works, and whether a `Ping` answers within a time.
pub record Driver : Type 0 where
  pub parse_config : Text → Option PoolConfig
  pub new_with_config : PoolConfig → Bool
  pub ping : PoolConfig → ℤ → Bool

-- What comes of it: no pool was made, a pool that did not answer was closed again, or the caller
-- holds one.
pub data Attempt : Type 0 where
  bad_url no_pool : Attempt
  closed_again reached : PoolConfig → Attempt

-- The fields that Connect sets.
unfoldable pub configured : Database → PoolConfig → PoolConfig
configured db c = record c {
  max_conns = db.max_conns;
  min_conns = db.min_conns;
  max_conn_lifetime = db.max_conn_lifetime;
  max_conn_idle_time = db.max_conn_idle_time;
  connect_timeout = db.connect_timeout;
}

-- From NewWithConfig on.
unfoldable pub open_pool : Driver → ℤ → PoolConfig → Attempt
open_pool d timeout c =
    if d.new_with_config c
    then (if d.ping c timeout then reached c else closed_again c)
    else no_pool

unfoldable pub connect : Driver → Database → Attempt
unfolding configured open_pool
connect d db = elim (d.parse_config db.url) [
  | none ↦ bad_url
  | some c ↦ open_pool d db.connect_timeout (configured db c)
]
