-- ===== src/Server/Internal.antt =====
-- apps/server/cmd/server/internal_router.go and healthcheck.go: the numbers of /debug/vitals, and
-- the probe that the container runs. pprof, the counters of package runtime and the HTTP client are
-- not modelled: what they give is an argument.
use billiards_online.Base.{
  ℕ, suc, ◌+◌, ◌*◌, ◌/◌, ◌%◌, ◌^◌, ◌<◌, ◌≡◌, refl, ap, ◌∙◌, true, false, Bool-cases, inl, inr, ◌-◌,
  ◌||◌, Option, none, some, [], ◌∷◌, ◌++◌, Text, ℤ, pos, negsuc, codes, text_eq, ltb, ◌==◌,
  if◌then◌else◌, arith,
}
use billiards_online.Rooms.Http.{parse_digits}

-- The loop of `itoa` with the places that its buffer has left; past them it would panic, `none`.
unfoldable pub itoa_loop : ℕ → ℕ → Text → Option Text
itoa_loop ℕ.zero n digits = if n == 0 then some digits else none
itoa_loop (suc i) n digits =
    let rest = itoa_loop i (n / 10) ((b'0' + n % 10) ∷ digits) in
    if n == 0 then some digits else rest

unfoldable pub itoa : ℤ → Option Text
itoa (negsuc n) = some []
itoa (pos n) = if n == 0 then some (codes "0") else itoa_loop 20 n []

-- /debug/vitals
unfoldable pub vitals : ℤ → ℤ → ℤ → Option Text
unfolding itoa
vitals goroutines heap cycles = elim (itoa goroutines) [
  | none ↦ none
  | some g ↦ elim (itoa heap) [
    | none ↦ none
    | some h ↦ elim (itoa cycles) [
      | none ↦ none
      | some c ↦ some (
          codes "{\"goroutines\":"
          ++ (g
              ++ (codes ",\"heapAllocBytes\":"
                  ++ (h ++ (codes ",\"gcCycles\":" ++ (c ++ codes "}"))))))
    ]
  ]
]

-- net.SplitHostPort and net.JoinHostPort
pub record Net : Type 0 where
  pub split_host_port : Text → Option (Text × Text)
  pub join_host_port : Text → Text → Text

unfoldable pub dialable : Text → Text
dialable host =
    if text_eq host [] || text_eq host (codes "0.0.0.0") || text_eq host (codes "::")
    then codes "127.0.0.1"
    else host

-- `runHealthcheck`: the exit status, by HTTP_ADDR and what a GET of a URL comes to.
unfoldable pub run_healthcheck : Net → Text → (Text → Option ℕ) → ℕ
unfolding dialable
run_healthcheck net http_addr fetch =
    let addr = if text_eq http_addr [] then codes ":8080" else http_addr in
    elim (net.split_host_port addr) [
      | none ↦ 1
      | some (host, port) ↦
          elim (fetch
            (codes "http://" ++ (net.join_host_port (dialable host) port ++ codes "/health"))) [
              | none ↦ 1
              | some status ↦ if status == 200 then 0 else 1
            ]
    ]

-- Ten to so many.
power_of_ten : ℕ → ℕ
power_of_ten ℕ.zero = 1
power_of_ten (suc i) = 10 * power_of_ten i

parse_digits-step :
    (m d n : ℕ) (digits : Text)
    → d < 10
    → (m * 10 + (b'0' + d - b'0')) % 2 ^ 64 ≡ n
    → parse_digits m ((b'0' + d) ∷ digits) ≡ parse_digits n digits
unfolding parse_digits
parse_digits-step m d n digits small e =
    let in_range : (ltb (b'0' + d) b'0' || ltb b'9' (b'0' + d)) ≡ false = ground arith in
    rw in_range (ap (λ v. parse_digits v digits) e)

parse_digits-digit :
    (n : ℕ) (digits : Text)
    → n < 2 ^ 63
    → parse_digits (n / 10) ((b'0' + n % 10) ∷ digits) ≡ parse_digits n digits
parse_digits-digit n digits k =
    parse_digits-step (n / 10) (n % 10) n digits (omega arith) (omega arith)

itoa_loop-parse_digits :
    (i n : ℕ) (digits : Text)
    → n < power_of_ten i
    → n < 2 ^ 63
    → (t : Text) × (itoa_loop i n digits ≡ some t) × (parse_digits 0 t ≡ parse_digits n digits)
unfolding itoa_loop power_of_ten
itoa_loop-parse_digits ℕ.zero n digits h k =
    (digits, ground arith, ap (λ m. parse_digits m digits) (omega arith))
itoa_loop-parse_digits (suc i) n digits h k = elim (Bool-cases (n == 0)) [
  | inl zero ↦ (digits, rw zero refl, ap (λ m. parse_digits m digits) (ground arith))
  | inr more ↦
      let (t, runs, reads) =
        itoa_loop-parse_digits i (n / 10) ((b'0' + n % 10) ∷ digits) (omega arith) (omega arith) in
      (t, rw more runs, reads ∙ parse_digits-digit n digits k)
]

zero_text : (n : ℕ) → (n == 0) ≡ true → parse_digits 0 (codes "0") ≡ some n
unfolding parse_digits
zero_text n e = ground arith

parse_digits-nil : (n : ℕ) → parse_digits n [] ≡ some n
unfolding parse_digits
parse_digits-nil n = refl

below_buffer : (n : ℕ) → n < 2 ^ 63 → n < power_of_ten 20
unfolding power_of_ten
below_buffer n k = omega arith

-- Every number that fits an int, if it is not negative, is written within the buffer, and what is
-- written is read back as that number by the parser of numbers of internal/rooms/handler.go.
pub itoa-parse_digits :
    (n : ℕ) → n < 2 ^ 63 → (t : Text) × (itoa (pos n) ≡ some t) × (parse_digits 0 t ≡ some n)
unfolding itoa
itoa-parse_digits n k = elim (Bool-cases (n == 0)) [
  | inl zero ↦ (codes "0", rw zero refl, zero_text n zero)
  | inr more ↦
      let (t, runs, reads) = itoa_loop-parse_digits 20 n [] (below_buffer n k) k in
      (t, rw more runs, reads ∙ parse_digits-nil n)
]
