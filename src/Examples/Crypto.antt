-- ===== src/Examples/Crypto.antt =====
-- Stand-ins for the packages behind passwords and tokens, for which what the packages promise holds.
use go_invoicing.Base.{
  ℕ, zero, suc, ◌+◌, ◌-◌, ◌==◌, ◌≡◌, refl, ap, true, not, Bool-cases, inl, inr, some, List, [], ◌∷◌,
  length, arith,
}
use go_invoicing.Base.Text.{Text, all_codes}
use go_invoicing.Base.Crypto.{CryptoOps}
use go_invoicing.Admin.Password.Laws.{IsCoding}

-- The first so many codes of a text, filled up with zeros.
abbrev fitted : ℕ → Text → Text
fitted zero s = []
fitted (suc n) [] = 0 ∷ fitted n []
fitted (suc n) (c ∷ s) = c ∷ fitted n s

abbrev raised : List ℕ → Text
raised [] = []
raised (b ∷ bytes) = (b + 37) ∷ raised bytes

abbrev lowered : Text → List ℕ
lowered [] = []
lowered (c ∷ s) = (c - 37) ∷ lowered s

abbrev pub crypto : CryptoOps
crypto = record {
  random = λ n. some (7 ∷ n ∷ []);
  sha256 = λ t. t;
  id_key = λ password salt time memory threads n. fitted n password;
  base64_raw_std = raised;
  base64_raw_url = λ bytes. b'a' ∷ [];
  decode_raw_std = λ t. some (lowered t);
  scan_version = λ t. some 19;
  scan_costs = λ t. some (19456, 2, 1);
}

length-fitted : (n : ℕ) (s : Text) → length (fitted n s) ≡ n
length-fitted zero s = refl
length-fitted (suc n) [] = ap suc (length-fitted n [])
length-fitted (suc n) (c ∷ s) = ap suc (length-fitted n s)

lowered-raised : (bytes : List ℕ) → lowered (raised bytes) ≡ bytes
lowered-raised [] = refl
lowered-raised (b ∷ bytes) =
    let i = lowered-raised bytes in rw i (ap (λ c. c ∷ bytes) (omega arith))

all_codes-raised : (bytes : List ℕ) → all_codes (λ c. not (c == b'$')) (raised bytes) ≡ true
all_codes-raised [] = refl
all_codes-raised (b ∷ bytes) = elim (Bool-cases ((b + 37) == b'$')) [
  | inl hit ↦ absurd (ground arith)
  | inr miss ↦ rw miss (all_codes-raised bytes)
]

pub coding : IsCoding crypto
coding = record {
  decoded = λ bytes. ap some (lowered-raised bytes);
  plain = all_codes-raised;
  version = refl;
  costs = refl;
  sized = λ password salt time memory threads n. length-fitted n password;
}
