-- ===== src/Admin/Password/Laws.antt =====
-- A password and the hash that was made of it (password.go).
use mathlib.Core.Option.{some_inj}
use go_invoicing.Base.{
  ◌≡◌, ◌∙◌, ◌↔◌, refl, sym, ap, true, not, Bool-cases, inl, inr, ℕ, ◌==◌, Option, none, some, List,
  [], ◌∷◌, ◌++◌, length, arith,
}
use go_invoicing.Base.Text.{
  Text, codes, text_eq, text_eq_refl, eq_of_text_eq, itoa, decimal_from, all_codes,
}
use go_invoicing.Base.Crypto.{CryptoOps}
use go_invoicing.Admin.Password.{
  hash_salted, hash_password, verify_password, encoded_hash, derived_key, version_text, costs_text,
  split_dollar, argon2_salt_length, argon2_version, argon2_memory, argon2_iterations,
  argon2_parallelism, argon2_key_length, decode_hash,
}

-- What the package promises: base64 is read back and has no dollar sign, Sscanf reads the numbers that
-- Sprintf printed, and a derived key has the length that was asked for.
pub record IsCoding (crypto : CryptoOps) : Type 0 where
  pub decoded : (bytes : List ℕ) → crypto.decode_raw_std (crypto.base64_raw_std bytes) ≡ some bytes
  pub plain :
      (bytes : List ℕ) → all_codes (λ c. not (c == b'$')) (crypto.base64_raw_std bytes) ≡ true
  pub version : crypto.scan_version version_text ≡ some argon2_version
  pub costs :
      crypto.scan_costs costs_text ≡ some (argon2_memory, argon2_iterations, argon2_parallelism)
  pub sized :
      (password : Text) (salt : List ℕ) (time memory threads n : ℕ)
      → length (crypto.id_key password salt time memory threads n) ≡ n

split_last : (w : Text) → all_codes (λ c. not (c == b'$')) w ≡ true → split_dollar w ≡ w ∷ []
split_last [] h = refl
split_last (c ∷ w) h = elim (Bool-cases (c == b'$')) [
  | inl dollar ↦ absurd (ground arith)
  | inr other ↦ let rest = split_last w (ground arith) in rw (other, rest) refl
]

split_first :
    (w rest : Text)
    → all_codes (λ c. not (c == b'$')) w ≡ true
    → split_dollar (w ++ (b'$' ∷ rest)) ≡ w ∷ split_dollar rest
split_first [] rest h = refl
split_first (c ∷ w) rest h = elim (Bool-cases (c == b'$')) [
  | inl dollar ↦ absurd (ground arith)
  | inr other ↦ let e = split_first w rest (ground arith) in rw (other, e) refl
]

module _ (crypto : CryptoOps) (coding : IsCoding crypto) where
  split-encoded_hash :
      (salt key : List ℕ)
      → split_dollar (encoded_hash crypto salt key)
        ≡ []
          ∷ codes "argon2id"
          ∷ version_text
          ∷ costs_text
          ∷ crypto.base64_raw_std salt
          ∷ crypto.base64_raw_std key
          ∷ []
  unfolding itoa decimal_from
  split-encoded_hash salt key =
      let b = crypto.base64_raw_std salt in
      let d = crypto.base64_raw_std key in
      let ends : split_dollar (b ++ (b'$' ∷ d)) ≡ b ∷ d ∷ [] =
        split_first b d (coding.plain salt) ∙ ap (λ r. b ∷ r) (split_last d (coding.plain key)) in
      split_first []
        (codes "argon2id"
          ++ (b'$' ∷ (version_text ++ (b'$' ∷ (costs_text ++ (b'$' ∷ (b ++ (b'$' ∷ d))))))))
        refl
      ∙ ap (λ r. [] ∷ r)
          (split_first (codes "argon2id")
              (version_text ++ (b'$' ∷ (costs_text ++ (b'$' ∷ (b ++ (b'$' ∷ d)))))) refl
            ∙ ap (λ r. codes "argon2id" ∷ r)
                (split_first version_text (costs_text ++ (b'$' ∷ (b ++ (b'$' ∷ d)))) refl
                  ∙ ap (λ r. version_text ∷ r)
                      (split_first costs_text (b ++ (b'$' ∷ d)) refl
                        ∙ ap (λ r. costs_text ∷ r) ends)))

  decode-encoded_hash :
      (salt key : List ℕ)
      → decode_hash crypto (encoded_hash crypto salt key)
        ≡ some (record {
          version = argon2_version;
          memory = argon2_memory;
          iterations = argon2_iterations;
          parallelism = argon2_parallelism;
          salt = salt;
          key = key;
        })
  decode-encoded_hash salt key =
      rw
        (
          split-encoded_hash salt key,
          coding.version,
          coding.costs,
          coding.decoded salt,
          coding.decoded key,
        )
        refl

  -- A password is accepted for a stored hash of another exactly if the two have one derived key.
  hashed :
      (password salt other : List ℕ)
      → verify_password crypto other (encoded_hash crypto salt (derived_key crypto password salt))
        ≡ text_eq (derived_key crypto other salt) (derived_key crypto password salt)
  unfolding verify_password
  hashed password salt other =
      let e = decode-encoded_hash salt (derived_key crypto password salt) in
      let n =
        coding.sized password salt argon2_iterations argon2_memory argon2_parallelism
          argon2_key_length in
      rw (e, n) refl

  salted :
      (password other h : Text) (drawn : Option (List ℕ))
      → hash_salted crypto password drawn ≡ some h
      → (salt : List ℕ) × (drawn ≡ some salt)
        × (verify_password crypto other h
            ≡ text_eq (derived_key crypto other salt) (derived_key crypto password salt))
  salted password other h none e = absurd (ground arith)
  salted password other h (some salt) e = (
    salt,
    refl,
    sym (ap (λ k. verify_password crypto other k) (some_inj.0 e)) ∙ hashed password salt other,
  )

  -- Against a hash that hashPassword has made of a password, verifyPassword accepts exactly the texts
  -- with the derived key that the password has under the hash's salt, so the password itself, if
  -- base64, Sscanf and the key derivation do as their packages say.
  pub verify_password-hash_password :
      (password other h : Text)
      → hash_password crypto password ≡ some h
      → (salt : List ℕ) × (crypto.random argon2_salt_length ≡ some salt)
        × ((verify_password crypto other h ≡ true)
            ↔ (derived_key crypto other salt ≡ derived_key crypto password salt))
        × (verify_password crypto password h ≡ true)
  unfolding hash_password
  verify_password-hash_password password other h e =
      let (salt, drawn, v) = salted password other h (crypto.random argon2_salt_length) e in
      let (salt', drawn', w) = salted password password h (crypto.random argon2_salt_length) e in
      (
        salt,
        drawn,
        (
          λ t.
              eq_of_text_eq (derived_key crypto other salt) (derived_key crypto password salt)
                (sym v ∙ t),
          λ t. v ∙ rw t (text_eq_refl (derived_key crypto password salt)),
        ),
        w ∙ text_eq_refl (derived_key crypto password salt'),
      )
