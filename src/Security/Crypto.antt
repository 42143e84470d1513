-- ===== src/Security/Crypto.antt =====
-- What platform/security calls of other packages: argon2, sha256, base64, and fmt.
use billiards_online.Base.{ℕ, ℤ, List, Text, Option, ◌++◌, codes}

-- argonParams
pub record Params : Type 0 where
  pub memory : ℕ
  pub time : ℕ
  pub threads : ℕ

pub record Crypto : Type 0 where
  -- argon2.IDKey: the password, the salt, the parameters, and the length of the key
  pub id_key : Text → List ℕ → Params → ℕ → List ℕ
  -- argon2.Version
  pub version : ℕ
  -- base64.RawStdEncoding
  pub base64_encode : List ℕ → Text
  pub base64_decode : Text → Option (List ℕ)
  -- fmt's %d of a number that is not negative
  pub format_int : ℕ → Text
  -- fmt.Sscanf with "v=%d" into an int, and with "m=%d,t=%d,p=%d" into two uint32 and a uint8
  pub scan_version : Text → Option ℤ
  pub scan_params : Text → Option Params
  -- sha256.Sum256
  pub sha256 : Text → List ℕ
  -- base64.RawURLEncoding
  pub url_encode : List ℕ → Text

-- "v=%d"
unfoldable pub version_text : Crypto → Text
version_text c = codes "v=" ++ c.format_int c.version

-- "m=%d,t=%d,p=%d"
unfoldable pub params_text : Crypto → Params → Text
params_text c p =
    codes "m="
    ++ (c.format_int p.memory
        ++ (codes ",t=" ++ (c.format_int p.time ++ (codes ",p=" ++ c.format_int p.threads))))
