-- ===== src/Postgres.antt =====
-- platform/postgres/postgres.go: statements and transactions over the tables, as a state monad
-- with errors. What the process does not decide is its environment: when a statement or a
-- commit fails, what the clock shows, which uuids and random bytes are drawn. Each call outward
-- has a number, and the environment answers by that number.
-- The registry of running match actors, if there is one, stands in the world too: it is memory,
-- which no transaction rolls back.
pub mod Laws
pub mod Connect
use billiards_online.Base.{ℕ, suc, Bool, Option, none, some, List, if◌then◌else◌, Result, ok, err}
use billiards_online.Schema.{Tables, PgError, broken}
use billiards_online.Matches.Model.{Match}

pub record Env : Type 0 where
  pub fails : ℕ → Bool
  pub clock : ℕ → ℕ
  -- uuid.NewV7
  pub new_uuid : ℕ → Option ℕ
  -- crypto/rand.Read, by the number of bytes asked for
  pub random : ℕ → ℕ → Option (List ℕ)
  -- unicode.ToUpper above ASCII
  pub upper : ℕ → ℕ
  -- unicode.ToLower above ASCII
  pub lower : ℕ → ℕ

pub record World : Type 0 where
  pub env : Env
  pub tick : ℕ
  pub tables : Tables
  pub registry : Option (List Match)

abbrev pub M : Type 0 → Type 0 → Type 0
M E A = World → Result E A × World

module _ {E A : Type 0} where
  unfoldable pub pure : A → M E A
  pure a w = (ok a, w)

  unfoldable pub raise : E → M E A
  raise e w = (err e, w)

  -- The pure part of a chain.
  unfoldable pub lift : Result E A → M E A
  lift r w = (r, w)

  unfoldable pub asks : (Env → A) → M E A
  asks f w = (ok (f w.env), w)

  -- `if err != nil { … }` with a handler that may go on.
  unfoldable pub catch : M E A → (E → M E A) → M E A
  catch m h w = let (r, w') = m w in elim r [ ok a ↦ (ok a, w') | err e ↦ h e w' ]

  -- `if err != nil { return …, f(err) }`
  unfoldable pub map_err : {F : Type 0} → (F → E) → M F A → M E A
  map_err f m w = let (r, w') = m w in elim r [ ok a ↦ (ok a, w') | err e ↦ (err (f e), w') ]

-- A test with an early return.
unfoldable pub guard : {E : Type 0} → Bool → E → M E (Unit {0})
guard b e w = (if b then ok tt else err e, w)

infixl 5 ◌>>=◌ ◌>>◌
-- Opening this opens the other combinators too.
unfoldable pub ◌>>=◌ : {E A B : Type 0} → M E A → (A → M E B) → M E B
unfolding pure raise lift asks catch map_err guard
◌>>=◌ m f w = let (r, w') = m w in elim r [ ok a ↦ f a w' | err e ↦ (err e, w') ]

abbrev pub ◌>>◌ : {E B : Type 0} → M E (Unit {0}) → M E B → M E B
m >> k = m >>= λ _. k

-- What the code calls a DB: the pool, or a transaction with the time of its start.
pub data Handle : Type 0 where
  pool : Handle
  tx : ℕ → Handle

-- SQL's now() and clock_timestamp().
pub record Times : Type 0 where
  pub now : ℕ
  pub clock_timestamp : ℕ

abbrev pub Statement : Type 0 → Type 0
Statement A = Times → Tables → Result PgError (A × Tables)

unfoldable pub now_at : Handle → ℕ → ℕ
now_at pool t = t
now_at (tx started) t = started

abbrev pub next : World → World
next w = record w { tick = suc w.tick }

-- How a statement that was run leaves the world.
abbrev pub settle : {A : Type 0} → World → Result PgError (A × Tables) → Result PgError A × World
settle w (ok (a, t)) = (ok a, record (next w) { tables = t })
settle w (err e) = (err e, next w)

abbrev pub times : Handle → World → Times
times db w = record { now = now_at db (w.env.clock w.tick); clock_timestamp = w.env.clock w.tick }

-- One statement: it fails and changes nothing, or has its effect.
unfoldable pub exec : {A : Type 0} → Handle → Statement A → M PgError A
unfolding now_at
exec db s w =
    if w.env.fails w.tick then (err broken, next w) else settle w (s (times db w) w.tables)

-- pgx's Query returns only the errors of sending; those of running the statement, such as a
-- violated constraint, come with the rows.
unfoldable pub query : {E A : Type 0} → (PgError → E) → (PgError → E) → Handle → Statement A → M E A
unfolding map_err exec
query sending reading db s =
    map_err (λ e. elim e [ broken ↦ sending broken | other ↦ reading other ]) (exec db s)

-- How a transaction ends: an error rolls back to the tables of its start, a result is committed.
-- A commit that fails has not taken place.
abbrev pub finish : {E A : Type 0} → E → Tables → Result E A → World → Result E A × World
finish failure before (err e) w = (err e, record (next w) { tables = before })
finish failure before (ok a) w =
    if w.env.fails w.tick
    then (err failure, record (next w) { tables = before })
    else (ok a, next w)

-- `InTx`: begin (a savepoint inside a transaction), run, and commit or roll back.
unfoldable pub in_tx : {E A : Type 0} → E → Handle → (Handle → M E A) → M E A
unfolding now_at
in_tx failure db body w =
    if w.env.fails w.tick
    then (err failure, next w)
    else let (r, w') = body (tx (times db w).now) (next w) in finish failure w.tables r w'

-- The current time outside SQL.
unfoldable pub time_now : {E : Type 0} → M E ℕ
time_now w = (ok (w.env.clock w.tick), next w)

unfoldable pub new_uuid : {E : Type 0} → E → M E ℕ
new_uuid failure w = elim (w.env.new_uuid w.tick) [
  | none ↦ (err failure, next w)
  | some id ↦ (ok id, next w)
]

unfoldable pub rand_read : {E : Type 0} → E → ℕ → M E (List ℕ)
rand_read failure n w = elim (w.env.random w.tick n) [
  | none ↦ (err failure, next w)
  | some bs ↦ (ok bs, next w)
]
