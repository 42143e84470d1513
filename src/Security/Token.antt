-- ===== src/Security/Token.antt =====
-- platform/security/token.go.
use billiards_online.Base.{ℕ, Bool, List, Text, text_eq}
use billiards_online.Security.Crypto.{Crypto}
use billiards_online.Postgres.{M, ◌>>=◌, pure, rand_read}

abbrev pub token_bytes : ℕ
token_bytes = 32

unfoldable pub new_token : {E : Type 0} → Crypto → E → M E Text
new_token c failure = do b ← rand_read failure token_bytes; pure (c.url_encode b)

unfoldable pub hash_token : Crypto → Text → List ℕ
hash_token c t = c.sha256 t

unfoldable pub equal_token_hash : List ℕ → List ℕ → Bool
equal_token_hash = text_eq
