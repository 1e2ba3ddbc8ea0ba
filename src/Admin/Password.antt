-- ===== src/Admin/Password.antt =====
-- Hashes of passwords (password.go): the derived key with the salt and the costs in one text, in
-- the form that verifyPassword takes apart.
pub mod Laws
use go_invoicing.Base.{
  ℕ, Bool, false, ◌==◌, Option, none, some, List, [], ◌∷◌, ◌++◌, length, if◌then◌else◌,
}
use go_invoicing.Base.Text.{Text, codes, text_eq, itoa}
use go_invoicing.Base.Crypto.{CryptoOps}

abbrev pub argon2_version : ℕ
argon2_version = 19

abbrev pub argon2_memory : ℕ
argon2_memory = 19456

abbrev pub argon2_iterations : ℕ
argon2_iterations = 2

abbrev pub argon2_parallelism : ℕ
argon2_parallelism = 1

abbrev pub argon2_salt_length : ℕ
argon2_salt_length = 16

abbrev pub argon2_key_length : ℕ
argon2_key_length = 32

abbrev pub version_text : Text
version_text = codes "v=" ++ itoa argon2_version

abbrev pub costs_text : Text
costs_text =
    codes "m="
    ++ itoa argon2_memory
    ++ codes ",t="
    ++ itoa argon2_iterations
    ++ codes ",p="
    ++ itoa argon2_parallelism

abbrev pub encoded_hash : CryptoOps → List ℕ → List ℕ → Text
encoded_hash crypto salt key =
    codes "$argon2id$"
    ++ version_text
    ++ (b'$' ∷ costs_text)
    ++ (b'$' ∷ crypto.base64_raw_std salt)
    ++ (b'$' ∷ crypto.base64_raw_std key)

abbrev pub derived_key : CryptoOps → Text → List ℕ → List ℕ
derived_key crypto password salt =
    crypto.id_key password salt argon2_iterations argon2_memory argon2_parallelism argon2_key_length

abbrev pub hash_salted : CryptoOps → Text → Option (List ℕ) → Option Text
hash_salted crypto password none = none
hash_salted crypto password (some salt) =
    some (encoded_hash crypto salt (derived_key crypto password salt))

-- none: the salt could not be read.
unfoldable pub hash_password : CryptoOps → Text → Option Text
hash_password crypto password = hash_salted crypto password (crypto.random argon2_salt_length)

abbrev start_word : ℕ → List Text → List Text
start_word c [] = (c ∷ []) ∷ []
start_word c (w ∷ ws) = (c ∷ w) ∷ ws

-- strings.Split(s, "$")
abbrev pub split_dollar : Text → List Text
split_dollar [] = [] ∷ []
split_dollar (c ∷ s) =
    let rest = split_dollar s in if c == b'$' then [] ∷ rest else start_word c rest

pub record DecodedHash : Type 0 where
  pub version : ℕ
  pub memory : ℕ
  pub iterations : ℕ
  pub parallelism : ℕ
  pub salt : List ℕ
  pub key : List ℕ

abbrev assembled :
    Option ℕ → Option (ℕ × ℕ × ℕ) → Option (List ℕ) → Option (List ℕ) → Option DecodedHash
assembled (some version) (some (memory, iterations, parallelism)) (some salt) (some key) =
    some (record {
      version = version;
      memory = memory;
      iterations = iterations;
      parallelism = parallelism;
      salt = salt;
      key = key;
    })
assembled _ _ _ _ = none

abbrev decode_segments : CryptoOps → List Text → Option DecodedHash
decode_segments crypto (first ∷ algorithm ∷ version ∷ costs ∷ salt ∷ key ∷ []) =
    if text_eq algorithm (codes "argon2id")
    then assembled (crypto.scan_version version) (crypto.scan_costs costs)
        (crypto.decode_raw_std salt) (crypto.decode_raw_std key)
    else none
decode_segments crypto _ = none

-- none for ErrMalformedHash and ErrUnsupportedHashVariant, which no caller tells apart.
abbrev pub decode_hash : CryptoOps → Text → Option DecodedHash
decode_hash crypto encoded = decode_segments crypto (split_dollar encoded)

abbrev matches_hash : CryptoOps → Text → Option DecodedHash → Bool
matches_hash crypto password none = false
matches_hash crypto password (some h) =
    if h.version == argon2_version
    then text_eq (crypto.id_key password h.salt h.iterations h.memory h.parallelism (length h.key))
        h.key
    else false

-- Whether verifyPassword returns no error.
unfoldable pub verify_password : CryptoOps → Text → Text → Bool
verify_password crypto password encoded = matches_hash crypto password (decode_hash crypto encoded)
