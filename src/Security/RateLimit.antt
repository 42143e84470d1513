-- ===== src/Security/RateLimit.antt =====
-- platform/security/ratelimit.go: a token bucket for each key. The floating-point numbers and the
-- seconds between two times are a parameter. The mutex makes each call one step; the sweep is one
-- too. Nothing here takes time, so the goroutine of the sweeper is the list of its sweeps.
pub mod Sweeping
pub mod Tests
use billiards_online.Base.{
  ℕ, Bool, true, false, Option, none, some, List, [], ◌∷◌, Text, text_eq, if◌then◌else◌,
}

pub record Float : Type 1 where
  pub F : Type 0
  pub one : F
  pub add : F → F → F
  pub sub : F → F → F
  pub mul : F → F → F
  pub lt : F → F → Bool
  pub le : F → F → Bool
  -- now.Sub(last).Seconds()
  pub seconds : ℕ → ℕ → F

module _ (fl : Float) where
  pub record Bucket : Type 0 where
    pub tokens : fl.F
    pub last : ℕ

  -- `rate` and `burst` are fixed by NewRateLimiter.
  pub record Limits : Type 0 where
    pub rate : fl.F
    pub burst : fl.F

  -- The map of buckets.
  abbrev pub Buckets : Type 0
  Buckets = Text → Option Bucket

  unfoldable pub put : Text → Option Bucket → Buckets → Buckets
  put key b bs k = if text_eq k key then b else bs k

  module _ (lim : Limits) where
    -- The tokens at a time, and capped.
    unfoldable pub refilled : Bucket → ℕ → fl.F
    refilled b now = fl.add b.tokens (fl.mul (fl.seconds now b.last) lim.rate)

    unfoldable pub capped : fl.F → fl.F
    capped x = if fl.lt lim.burst x then lim.burst else x

    abbrev pub spent : fl.F → ℕ → Bucket
    spent x now = record { tokens = fl.sub x fl.one; last = now }

    -- The verdict on a bucket, and the bucket that is left.
    unfoldable pub take_token : fl.F → ℕ → Bool × Bucket
    take_token x now =
        if fl.lt x fl.one then (false, record { tokens = x; last = now }) else (true, spent x now)

    unfoldable pub consume : Option Bucket → ℕ → Bool × Bucket
    unfolding refilled capped take_token
    consume none now = (true, spent lim.burst now)
    consume (some b) now = take_token (capped (refilled b now)) now

    unfoldable pub allow_at : Text → ℕ → Buckets → Bool × Buckets
    unfolding consume put
    allow_at key now bs = let (verdict, b) = consume (bs key) now in (verdict, put key (some b) bs)

    unfoldable pub reset : Text → Buckets → Buckets
    unfolding put
    reset key bs = put key none bs

    unfoldable pub swept : ℕ → Option Bucket → Option Bucket
    unfolding refilled
    swept now none = none
    swept now (some b) = if fl.le lim.burst (refilled b now) then none else some b

    unfoldable pub sweep : ℕ → Buckets → Buckets
    unfolding swept
    sweep now bs k = swept now (bs k)
