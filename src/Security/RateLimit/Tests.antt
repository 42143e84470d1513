-- ===== src/Security/RateLimit/Tests.antt =====
-- A rate limiter over whole numbers.
use billiards_online.Base.{
  ℕ, ◌+◌, ◌-◌, ◌*◌, ◌≡◌, refl, true, false, none, List, [], ◌∷◌, ltb, leb, arith, codes, Text,
  text_eq,
}
use billiards_online.Security.RateLimit.{
  Float, Limits, Buckets, refilled, allow_at, put, consume, take_token, capped, sweep, swept,
}
use billiards_online.Security.RateLimit.Sweeping.{
  Ordered, Call, allow, sweep_call, verdicts, unswept, verdicts-unswept,
}

abbrev pub whole : Float
whole = record {
  F = ℕ;
  one = 1;
  add = λ a b. a + b;
  sub = λ a b. a - b;
  mul = λ a b. a * b;
  lt = ltb;
  le = leb;
  seconds = λ now last. now - last;
}

-- Two at once, and one more each second.
abbrev pub two_at_once : Limits whole
two_at_once = record { rate = 1; burst = 2 }

whole-Ordered : Ordered whole two_at_once
whole-Ordered = record {
  tight = λ x h g. ground arith;
  trans = λ x y z h g. ground arith;
  add_mono = λ a x y h. ground arith;
  rate_mono = λ x y h. ground arith;
  seconds_mono = λ t t' last h. ground arith;
  burst_some = refl;
}

abbrev key : Text
key = codes "login:1"

abbrev calls : List Call
calls = allow key 0 ∷ allow key 0 ∷ allow key 0 ∷ sweep_call 5 ∷ allow key 5 ∷ []

abbrev pub no_buckets : Buckets whole
no_buckets k = none

refused : verdicts whole two_at_once calls no_buckets ≡ true ∷ true ∷ false ∷ true ∷ []
unfolding verdicts allow_at consume put take_token capped sweep swept refilled text_eq
refused = refl

verdicts-unswept_example :
    verdicts whole two_at_once calls no_buckets
    ≡ verdicts whole two_at_once (unswept calls) no_buckets
verdicts-unswept_example =
    verdicts-unswept whole two_at_once whole-Ordered calls 0 no_buckets
      (ground arith, (ground arith, (ground arith, (ground arith, (ground arith, tt)))))
