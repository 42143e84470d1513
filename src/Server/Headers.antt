-- ===== src/Server/Headers.antt =====
-- About apps/server/cmd/server/middleware.go: the headers of a response, and its request id.
use billiards_online.Base.{
  ℕ, suc, ◌+◌, ◌/◌, ◌%◌, ◌≤◌, ◌<◌, ◌≡◌, ◌⊎◌, refl, false, Bool-cases, Option-cases, ◌&&◌, inl, inr,
  some, List, [], ◌∷◌, Text, codes, text_eq, text_eq_iff, byte_len, length, All, ltb, leb,
  if◌then◌else◌, arith,
}
use billiards_online.Server.Middleware.{
  Headers, get_header, set_header, secured, Deps, header_request_id, hex_digit, hex, new_request_id,
  chosen_id,
}
use billiards_online.Postgres.{World, rand_read}

pub get-set :
    (k j v : Text) (hs : Headers)
    → get_header k (set_header j v hs) ≡ (if text_eq k j then v else get_header k hs)
unfolding get_header set_header
get-set k j v [] = refl
get-set k j v ((i, u) ∷ hs) =
    ground (arith, text_eq_iff k j, text_eq_iff j i, text_eq_iff k i, get-set k j v hs)

-- Every response of the public listener has these.
pub record IsSecured (hs : Headers) : Type 0 where
  pub content_type_options : get_header (codes "X-Content-Type-Options") hs ≡ codes "nosniff"
  pub frame_options : get_header (codes "X-Frame-Options") hs ≡ codes "DENY"
  pub referrer_policy : get_header (codes "Referrer-Policy") hs ≡ codes "no-referrer"
  pub content_security_policy :
      get_header (codes "Content-Security-Policy") hs
      ≡ codes "default-src 'none'; frame-ancestors 'none'"

pub secured-id :
    (hs : Headers) → get_header header_request_id (secured hs) ≡ get_header header_request_id hs
unfolding secured text_eq
secured-id hs = simp get-set

pub secured-IsSecured : (hs : Headers) → IsSecured (secured hs)
unfolding secured text_eq
secured-IsSecured hs = record {
  content_type_options = simp get-set;
  frame_options = simp get-set;
  referrer_policy = simp get-set;
  content_security_policy = simp get-set;
}

abbrev IsByte : ℕ → Type 0
IsByte b = b < 256

hex_digit-ascii : (n : ℕ) → n < 16 → hex_digit n < 128
unfolding hex_digit
hex_digit-ascii n h = ground arith

byte_len-hex : (bs : List ℕ) → All IsByte bs → byte_len (hex bs) ≡ length bs + length bs
unfolding hex byte_len
byte_len-hex [] h = refl
byte_len-hex (b ∷ bs) h = ground (
  arith,
  hex_digit-ascii (b / 16) (omega arith),
  hex_digit-ascii (b % 16) (omega arith),
  byte_len-hex bs h.1,
)

-- What package time and crypto/rand promise: the layout has 25 characters, and as many bytes come
-- as were asked for.
pub record Promises {B : Type 0} (d : Deps B) (w : World) : Type 0 where
  pub time : (t : ℕ) → byte_len (d.format_time t) ≡ 25
  pub random : (bs : List ℕ) → w.env.random w.tick 12 ≡ some bs → (length bs ≡ 12) × All IsByte bs

new_request_id_bounds :
    {B : Type 0} (d : Deps B) (w : World)
    → Promises d w
    → (1 ≤ byte_len (new_request_id d.format_time w).0)
      × (byte_len (new_request_id d.format_time w).0 ≤ 64)
unfolding new_request_id rand_read byte_len
new_request_id_bounds d w p = elim (Option-cases (w.env.random w.tick 12)) [
  | inl gone ↦
      rw (gone, new_request_id, rand_read)
        (
          omega (arith, p.time (w.env.clock (suc w.tick))),
          omega (arith, p.time (w.env.clock (suc w.tick))),
        )
  | inr (bs, e) ↦
      let (l, b) = p.random bs e in
      rw (e, new_request_id, rand_read)
        (omega (arith, byte_len-hex bs b), omega (arith, byte_len-hex bs b))
]

pub chosen_id_bounds :
    {B : Type 0} (d : Deps B) (given : Text) (w : World)
    → Promises d w
    → (1 ≤ byte_len (chosen_id d.format_time given w).0)
      × (byte_len (chosen_id d.format_time given w).0 ≤ 64)
unfolding chosen_id
chosen_id_bounds d given w p =
    elim (Bool-cases (ltb 0 (byte_len given) && leb (byte_len given) 64)) [
      | inl keep ↦ rw keep (ground arith, ground arith)
      | inr new ↦ rw new (new_request_id_bounds d w p)
    ]

-- An id that the client may choose.
abbrev pub IsKept : Text → Type 0
IsKept given = (1 ≤ byte_len given) × (byte_len given ≤ 64)

pub chosen_id_cases :
    (format_time : ℕ → Text) (given : Text) (w : World)
    → ((chosen_id format_time given w).0 ≡ given) ⊎ (¬ IsKept given)
unfolding chosen_id
chosen_id_cases format_time given w =
    elim (Bool-cases (ltb 0 (byte_len given) && leb (byte_len given) 64)) [
      | inl keep ↦ inl (rw keep refl)
      | inr new ↦ inr (λ k. absurd (long given k.0 k.1 new))
    ]
  where
    long :
        (t : Text)
        → 1 ≤ byte_len t
        → byte_len t ≤ 64
        → (ltb 0 (byte_len t) && leb (byte_len t) 64) ≡ false
        → ⊥
    long t a b e = ground arith
