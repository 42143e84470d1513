-- ===== src/Security/Password.antt =====
-- platform/security/password.go. `DummyVerify` spends time and has no effect, so it is left out.
pub mod Verify
use billiards_online.Base.{
  ℕ, Bool, true, false, not, ◌&&◌, ◌||◌, Option, none, some, List, [], ◌∷◌, ◌++◌, Text, text_eq,
  codes, split_on, byte_len, ltb, ◌==◌, if◌then◌else◌, length, ℤ, pos, negsuc,
}
use billiards_online.Security.Crypto.{Crypto, Params, version_text, params_text}
use billiards_online.Postgres.{M, ◌>>=◌, ◌>>◌, pure, raise, guard, rand_read}

abbrev pub min_password_len : ℕ
min_password_len = 10

abbrev pub max_password_len : ℕ
max_password_len = 1024

abbrev pub salt_len : ℕ
salt_len = 16

abbrev pub key_len : ℕ
key_len = 32

-- argonTime, argonMemory and argonThreads
abbrev pub policy : Params
policy = record { memory = 65536; time = 3; threads = 4 }

-- The errors that this package names; `internal` is that of crypto/rand.
pub data Error : Type 0 where
  too_short too_long internal : Error

abbrev pub scheme : Text
scheme = codes "argon2id"

-- The PHC string.
unfoldable pub phc : Crypto → Params → List ℕ → List ℕ → Text
phc c p salt key =
    b'$'
    ∷ (scheme
        ++ b'$'
          ∷ (version_text c
              ++ b'$'
                ∷ (params_text c p ++ b'$' ∷ (c.base64_encode salt ++ b'$' ∷ c.base64_encode key))))

unfoldable pub hash_password : Crypto → Text → M Error Text
unfolding phc
hash_password c plain = do
  guard (not (ltb (byte_len plain) min_password_len)) too_short
  guard (not (ltb max_password_len (byte_len plain))) too_long
  salt ← rand_read internal salt_len
  pure (phc c policy salt (c.id_key plain salt policy key_len))

-- The parameters, the salt and the key of a hash.
pub record Decoded : Type 0 where
  pub params : Params
  pub salt : List ℕ
  pub key : List ℕ

abbrev pub is_version : ℤ → ℕ → Bool
is_version (pos n) v = n == v
is_version (negsuc n) v = false

unfoldable pub some_zero : Params → Bool
some_zero p = (p.memory == 0) || ((p.time == 0) || (p.threads == 0))

module _ (c : Crypto) where
  -- The last two parts.
  unfoldable pub decode_key : Params → Option (List ℕ) → Option (List ℕ) → Option Decoded
  decode_key p none key = none
  decode_key p (some salt) none = none
  decode_key p (some salt) (some key) =
      if length key == 0 then none else some (record { params = p; salt = salt; key = key })

  unfoldable pub decode_params : Option Params → Text → Text → Option Decoded
  unfolding some_zero decode_key
  decode_params none salt key = none
  decode_params (some p) salt key =
      if some_zero p then none else decode_key p (c.base64_decode salt) (c.base64_decode key)

  unfoldable pub decode_version : Option ℤ → Text → Text → Text → Option Decoded
  unfolding decode_params
  decode_version none params salt key = none
  decode_version (some v) params salt key =
      if not (is_version v c.version) then none else decode_params (c.scan_params params) salt key

  unfoldable pub decode_parts : List Text → Option Decoded
  unfolding decode_version
  decode_parts (_ ∷ name ∷ version ∷ params ∷ salt ∷ key ∷ []) =
      if not (text_eq name scheme)
      then none
      else decode_version (c.scan_version version) params salt key
  decode_parts _ = none

  -- `decodeHash`; every failure is ErrInvalidHashFormat.
  unfoldable pub decode_hash : Text → Option Decoded
  unfolding decode_parts split_on
  decode_hash encoded = decode_parts (split_on b'$' encoded)

  -- `none` is the error.
  unfoldable pub verify_password : Text → Text → Option Bool
  unfolding decode_hash
  verify_password plain encoded = elim (decode_hash encoded) [
    | none ↦ none
    | some d ↦ some (text_eq (c.id_key plain d.salt d.params (length d.key)) d.key)
  ]

  unfoldable pub weaker : Params → Bool
  weaker p = ltb p.memory policy.memory || (ltb p.time policy.time || ltb p.threads policy.threads)

  unfoldable pub needs_rehash : Text → Bool
  unfolding decode_hash weaker
  needs_rehash encoded = elim (decode_hash encoded) [ none ↦ true | some d ↦ weaker d.params ]
