-- ===== src/Rooms/Codes.antt =====
-- The join codes that are drawn: `generateJoinCode` of internal/rooms/repository.go.
use billiards_online.Base.{
  ℕ, zero, suc, ◌%◌, ◌<◌, ◌≡◌, refl, Bool, true, some, List, [], ◌∷◌, map, Text, arith, ◌==◌, any,
  length, get_elem?, All, subst, ok, inl, inr, Option-cases,
}
use billiards_online.Rooms.Repository.{code_char, join_code_alphabet, generate_join_code}
use billiards_online.Postgres.{World, ◌>>=◌, rand_read}

abbrev pub member : Text → ℕ → Bool
member s c = any (λ d. d == c) s

abbrev pub InAlphabet : ℕ → Type 0
InAlphabet c = member join_code_alphabet c ≡ true

get_elem?-member :
    (s : Text) (i : ℕ) → i < length s → (c : ℕ) × (get_elem? s i ≡ some c) × (member s c ≡ true)
unfolding any
get_elem?-member [] i h = ground arith
get_elem?-member (x ∷ s) zero h = (x, refl, ground arith)
get_elem?-member (x ∷ s) (suc i) h =
    let (c, e, m) = get_elem?-member s i (omega (arith, h)) in (c, e, ground arith)

code_char-member : (v : ℕ) → member join_code_alphabet (code_char v) ≡ true
unfolding code_char
code_char-member v =
    let (c, e, m) = get_elem?-member join_code_alphabet (v % 31) (omega arith) in
    rw (e, code_char) m

code_chars : (bs : List ℕ) → All InAlphabet (map code_char bs)
code_chars [] = tt
code_chars (b ∷ bs) = (code_char-member b, code_chars bs)

drawn :
    (w : World) (code : Text) (bs : List ℕ)
    → w.env.random w.tick 8 ≡ some bs
    → (generate_join_code w).0 ≡ ok code
    → map code_char bs ≡ code
unfolding generate_join_code ◌>>=◌ rand_read
drawn w code bs e h = ground arith

-- Every character of a join code that is drawn is one of the alphabet, whatever bytes the random
-- source has given.
pub generate_join_code-alphabet :
    (w : World) (code : Text) → (generate_join_code w).0 ≡ ok code → All InAlphabet code
unfolding generate_join_code ◌>>=◌ rand_read
generate_join_code-alphabet w code h = elim (Option-cases (w.env.random w.tick 8)) [
  | inl e ↦ ground arith
  | inr (bs, e) ↦ subst (All InAlphabet) (drawn w code bs e h) (code_chars bs)
]
