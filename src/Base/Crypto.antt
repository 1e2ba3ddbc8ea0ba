-- ===== src/Base/Crypto.antt =====
-- The functions of crypto/rand, crypto/sha256, encoding/base64, fmt.Sscanf and
-- golang.org/x/crypto/argon2 that passwords and session tokens use, as a record of operations on
-- bytes, and encoding/hex.
use go_invoicing.Base.Text.{Text}
use go_invoicing.Base.Tests.{ltb, if◌then◌else◌}
use Prim.Native.Nat.{ℕ, ◌+◌, ◌/◌, ◌%◌}
use mathlib.Core.List.{List, [], ◌∷◌}
use mathlib.Core.Option.{Option}

pub record CryptoOps : Type 0 where
  pub random : ℕ → Option (List ℕ)  -- rand.Read of so many bytes
  pub sha256 : Text → List ℕ  -- sha256.Sum256 of the bytes of a string
  pub id_key : Text → List ℕ → ℕ → ℕ → ℕ → ℕ → List ℕ  -- argon2.IDKey
  pub base64_raw_std : List ℕ → Text
  pub base64_raw_url : List ℕ → Text
  pub decode_raw_std : Text → Option (List ℕ)
  pub scan_version : Text → Option ℕ  -- Sscanf by "v=%d"
  pub scan_costs : Text → Option (ℕ × ℕ × ℕ)  -- Sscanf by "m=%d,t=%d,p=%d"

abbrev hex_digit : ℕ → ℕ
hex_digit n = if ltb n 10 then 48 + n else 87 + n

-- hex.EncodeToString
abbrev pub hex : List ℕ → Text
hex [] = []
hex (b ∷ bs) = hex_digit (b / 16) ∷ hex_digit (b % 16) ∷ hex bs
