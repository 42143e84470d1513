-- ===== src/Security/Password/Verify.antt =====
-- Hashing a password and checking it: `HashPassword`, `VerifyPassword` and `NeedsRehash`.
use billiards_online.Base.{
  ℕ, ◌≡◌, refl, ap, ◌∙◌, true, false, none, some, List, [], ◌∷◌, Text, text_eq, text_eq_iff,
  ==_refl, codes, split_on, split_on-append, split_on-lacks, lacks, starts_with, pos, length, arith,
  ◌==◌, ok, Option-cases, inl, inr, subst,
}
use billiards_online.Security.Crypto.{Crypto, Params, version_text, params_text}
use billiards_online.Security.Password.{
  phc, scheme, policy, key_len, salt_len, hash_password, decode_hash, decode_parts, decode_version,
  decode_params, decode_key, some_zero, verify_password, needs_rehash, weaker,
}
use billiards_online.Postgres.{World, ◌>>=◌, rand_read}

-- What the packages promise: base64 and Sscanf read back what was written, neither a number nor
-- base64 has a dollar in it, and a key has the length that was asked for.
pub record Trusted (c : Crypto) : Type 0 where
  pub base64 : (b : List ℕ) → c.base64_decode (c.base64_encode b) ≡ some b
  pub base64_lacks : (b : List ℕ) → lacks b'$' (c.base64_encode b) ≡ true
  pub version : c.scan_version (version_text c) ≡ some (pos c.version)
  pub version_lacks : lacks b'$' (version_text c) ≡ true
  pub params : c.scan_params (params_text c policy) ≡ some policy
  pub params_lacks : lacks b'$' (params_text c policy) ≡ true
  pub key_length :
      (plain : Text) (salt : List ℕ) → length (c.id_key plain salt policy key_len) ≡ key_len

text_eq_refl : (s : Text) → text_eq s s ≡ true
text_eq_refl s = (text_eq_iff s s).1 refl

module _ (c : Crypto) (trust : Trusted c) where
  split_on-phc :
      (salt key : List ℕ)
      → split_on b'$' (phc c policy salt key)
        ≡ []
          ∷ scheme
          ∷ version_text c
          ∷ params_text c policy
          ∷ c.base64_encode salt
          ∷ c.base64_encode key
          ∷ []
  unfolding phc lacks
  split_on-phc salt key =
      split_on-append b'$' [] _ refl
      ∙ ap ([] ∷◌) (
          split_on-append b'$' scheme _ refl
          ∙ ap (scheme ∷◌) (
              split_on-append b'$' (version_text c) _ trust.version_lacks
              ∙ ap (version_text c ∷◌) (
                  split_on-append b'$' (params_text c policy) _ trust.params_lacks
                  ∙ ap (params_text c policy ∷◌) (
                      split_on-append b'$' (c.base64_encode salt) _ (trust.base64_lacks salt)
                      ∙ ap (c.base64_encode salt ∷◌)
                          (split_on-lacks b'$' (c.base64_encode key) (trust.base64_lacks key))))))

  decode_params-known :
      (p : Params) (salt key : List ℕ)
      → some_zero p ≡ false
      → (length key == 0) ≡ false
      → decode_params c (some p) (c.base64_encode salt) (c.base64_encode key)
        ≡ some (record { params = p; salt = salt; key = key })
  unfolding decode_params decode_key
  decode_params-known p salt key hp hk =
      rw hp (rw (trust.base64 salt, decode_key) (rw (trust.base64 key, decode_key) (rw hk refl)))

  decode_version-known :
      (params salt key : Text)
      → decode_version c (some (pos c.version)) params salt key
        ≡ decode_params c (c.scan_params params) salt key
  unfolding decode_version
  decode_version-known params salt key = rw (==_refl c.version) refl

  decode_hash-phc :
      (salt key : List ℕ)
      → (length key == 0) ≡ false
      → decode_hash c (phc c policy salt key)
        ≡ some (record { params = policy; salt = salt; key = key })
  unfolding decode_hash decode_parts text_eq some_zero
  decode_hash-phc salt key hk =
      ap (decode_parts c) (split_on-phc salt key)
      ∙ ap
          (λ v.
            decode_version c v (params_text c policy) (c.base64_encode salt) (c.base64_encode key))
          trust.version
      ∙ decode_version-known _ _ _
      ∙ ap (λ o. decode_params c o (c.base64_encode salt) (c.base64_encode key)) trust.params
      ∙ decode_params-known policy salt key refl hk

  module _ (plain : Text) (salt : List ℕ) where
    abbrev fresh_key : List ℕ
    fresh_key = c.id_key plain salt policy key_len

    abbrev fresh : Text
    fresh = phc c policy salt fresh_key

    decode_hash-fresh :
        decode_hash c fresh ≡ some (record { params = policy; salt = salt; key = fresh_key })
    decode_hash-fresh =
        decode_hash-phc salt fresh_key (ap (λ n. n == 0) (trust.key_length plain salt))

    verify-fresh : verify_password c plain fresh ≡ some true
    unfolding verify_password
    verify-fresh =
        rw (decode_hash-fresh, verify_password)
          (rw (trust.key_length plain salt) (ap some (text_eq_refl fresh_key)))

    needs_rehash-fresh : needs_rehash c fresh ≡ false
    unfolding needs_rehash weaker
    needs_rehash-fresh = rw (decode_hash-fresh, needs_rehash) refl

    fresh-scheme : starts_with (codes "$argon2id$") fresh ≡ true
    unfolding starts_with phc
    fresh-scheme = refl

-- A stored hash is good for its password.
abbrev pub GoodFor : Crypto → Text → Text → Type 0
GoodFor c plain h =
    (verify_password c plain h ≡ some true)
    × (needs_rehash c h ≡ false)
    × (starts_with (codes "$argon2id$") h ≡ true)

drawn :
    (c : Crypto) (plain h : Text) (w : World) (salt : List ℕ)
    → w.env.random w.tick salt_len ≡ some salt
    → (hash_password c plain w).0 ≡ ok h
    → phc c policy salt (c.id_key plain salt policy key_len) ≡ h
unfolding hash_password ◌>>=◌ rand_read
drawn c plain h w salt e k = ground arith

not_drawn :
    (c : Crypto) (plain h : Text) (w : World)
    → w.env.random w.tick salt_len ≡ none
    → ¬ ((hash_password c plain w).0 ≡ ok h)
unfolding hash_password ◌>>=◌ rand_read
not_drawn c plain h w e k = ground arith

-- Whatever salt is drawn, the hash of a password verifies against that password, need not be
-- upgraded, and satisfies the CHECK of the table that stores it, if the packages keep their word.
pub hash_password-verify :
    (c : Crypto) (plain h : Text) (w : World)
    → Trusted c
    → (hash_password c plain w).0 ≡ ok h
    → GoodFor c plain h
hash_password-verify c plain h w trust k = elim (Option-cases (w.env.random w.tick salt_len)) [
  | inl e ↦ elim (not_drawn c plain h w e k) [ ]
  | inr (salt, e) ↦ subst (GoodFor c plain) (drawn c plain h w salt e k) (
    verify-fresh c trust plain salt,
    needs_rehash-fresh c trust plain salt,
    fresh-scheme c trust plain salt,
  )
]
