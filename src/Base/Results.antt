-- ===== src/Base/Results.antt =====
-- What a function with an `error` result returns: the value, or the error.
pub data Result (E A : Type 0) : Type 0 where
  ok : A → Result E A
  err : E → Result E A
