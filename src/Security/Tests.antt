-- ===== src/Security/Tests.antt =====
-- The passwords of a small instance of the packages.
use billiards_online.Base.{
  ℕ, ◌+◌, ◌-◌, ◌*◌, ◌≡◌, refl, ap, false, true, none, some, Option, List, [], ◌∷◌, Text, codes, map,
  pos, replicate, length, lacks, arith, byte_len,
}
use billiards_online.Schema.{Tables}
use billiards_online.Security.Crypto.{Crypto, Params, version_text, params_text}
use billiards_online.Security.Password.{hash_password, phc, policy, key_len}
use billiards_online.Security.Password.Verify.{Trusted, GoodFor, hash_password-verify}
use billiards_online.Postgres.{World, Env, ◌>>=◌, rand_read}

-- The first `n` numbers, then zeros.
abbrev pub fill : ℕ → List ℕ → List ℕ
fill ℕ.zero xs = []
fill (ℕ.suc n) [] = 0 ∷ fill n []
fill (ℕ.suc n) (x ∷ xs) = x ∷ fill n xs

length-fill : (n : ℕ) (xs : List ℕ) → length (fill n xs) ≡ n
length-fill ℕ.zero xs = refl
length-fill (ℕ.suc n) [] = ap ℕ.suc (length-fill n [])
length-fill (ℕ.suc n) (x ∷ xs) = ap ℕ.suc (length-fill n xs)

abbrev third : Text → Option ℕ
third (_ ∷ _ ∷ x ∷ []) = some (x - 100)
third _ = none

abbrev three : Text → Option Params
three (_ ∷ _ ∷ m ∷ _ ∷ _ ∷ _ ∷ t ∷ _ ∷ _ ∷ _ ∷ p ∷ []) =
    some (record { memory = m - 100; time = t - 100; threads = p - 100 })
three _ = none

abbrev pub toy : Crypto
toy = record {
  id_key = λ plain salt p n. fill n plain;
  version = 19;
  base64_encode = map (λ b. b + 100);
  base64_decode = λ s. some (map (λ x. x - 100) s);
  format_int = λ n. (n + 100) ∷ [];
  scan_version = λ s. elim (third s) [ none ↦ none | some n ↦ some (pos n) ];
  scan_params = three;
  sha256 = fill 32;
  url_encode = λ b. b;
}

shifted : (bs : List ℕ) → map (λ x. x - 100) (map (λ b. b + 100) bs) ≡ bs
shifted [] = refl
shifted (b ∷ bs) = ground (arith, shifted bs)

shifted-lacks : (bs : List ℕ) → lacks b'$' (map (λ b. b + 100) bs) ≡ true
unfolding lacks
shifted-lacks [] = refl
shifted-lacks (b ∷ bs) = ground (arith, shifted-lacks bs)

toy-Trusted : Trusted toy
unfolding version_text params_text lacks
toy-Trusted = record {
  base64 = λ b. ap some (shifted b);
  base64_lacks = shifted-lacks;
  version = refl;
  version_lacks = refl;
  params = refl;
  params_lacks = refl;
  key_length = λ plain salt. length-fill key_len plain;
}

abbrev pub calm : Env
calm = record {
  fails = λ n. false;
  clock = λ n. 1000000 * n;
  new_uuid = λ n. some (500 + n);
  random = λ n k. some (replicate k 7);
  upper = λ c. c;
  lower = λ c. c;
}

abbrev pub empty : Tables
empty = record {
  users = [];
  profiles = [];
  credentials = [];
  sessions = [];
  rooms = [];
  members = [];
  matches = [];
  match_sides = [];
  participants = [];
}

abbrev start : World
start = record { env = calm; tick = 0; tables = empty; registry = none }

abbrev pub good_password : Text
good_password = codes "correct horse"

abbrev pub stored : Text
stored = phc toy policy (replicate 16 7) (fill key_len good_password)

hash_password_example : GoodFor toy good_password stored
unfolding hash_password ◌>>=◌ rand_read byte_len phc
hash_password_example = hash_password-verify toy good_password stored start toy-Trusted refl
