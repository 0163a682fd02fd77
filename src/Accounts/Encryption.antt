-- ===== src/Accounts/Encryption.antt =====
-- internals/security/encryption.go, of which internals/utils/encryption.go is a copy. Bytes are numbers.
-- AES in Galois counter mode is a parameter: `seal` and `unseal` take the key and the nonce first.
use gotel_reserves.Base.{
  ℕ, ◌≡◌, ap, sym, true, false, ◌∙◌, Option, none, some, List, ◌++◌, ◌==◌, nat_eq, not,
  if◌then◌else◌, ltb, length, take, drop, arith, Bool-cases, inl, inr, length-append, take-append,
  drop-append,
}

pub record Gcm : Type 0 where
  pub nonce_size : ℕ
  pub seal : List ℕ → List ℕ → List ℕ → List ℕ
  pub unseal : List ℕ → List ℕ → List ℕ → Option (List ℕ)

-- What was sealed is opened by the same key and nonce.
pub record IsOpening (gcm : Gcm) : Type 0 where
  pub unseal-seal :
      (key nonce plaintext : List ℕ)
      → length nonce ≡ gcm.nonce_size
      → gcm.unseal key nonce (gcm.seal key nonce plaintext) ≡ some plaintext

-- `random` is the nonce, if crypto/rand gives one.
abbrev pub sealed : Gcm → Option (List ℕ) → List ℕ → List ℕ → Option (List ℕ)
sealed gcm none plaintext key = none
sealed gcm (some nonce) plaintext key = some (nonce ++ gcm.seal key nonce plaintext)

unfoldable pub encrypt : Gcm → Option (List ℕ) → List ℕ → List ℕ → Option (List ℕ)
encrypt gcm random plaintext key =
    if not (length key == 32) then none else sealed gcm random plaintext key

unfoldable pub decrypt : Gcm → List ℕ → List ℕ → Option (List ℕ)
decrypt gcm ciphertext key =
    if not (length key == 32)
    then none
    else if ltb (length ciphertext) gcm.nonce_size
    then none
    else gcm.unseal key (take gcm.nonce_size ciphertext) (drop gcm.nonce_size ciphertext)

decrypt_sealed :
    (gcm : Gcm)
    → IsOpening gcm
    → (nonce plaintext key : List ℕ) → length nonce ≡ gcm.nonce_size
    → (length key == 32) ≡ true
    → decrypt gcm (nonce ++ gcm.seal key nonce plaintext) key ≡ some plaintext
unfolding decrypt
decrypt_sealed gcm opening nonce plaintext key size e =
    let s = gcm.seal key nonce plaintext in
    let long : ltb (length (nonce ++ s)) gcm.nonce_size ≡ false =
      ground (arith, length-append nonce s, size) in
    let first : take gcm.nonce_size (nonce ++ s) ≡ nonce =
      ap (λ n. take n (nonce ++ s)) (sym size) ∙ take-append nonce s in
    let rest : drop gcm.nonce_size (nonce ++ s) ≡ s =
      ap (λ n. drop n (nonce ++ s)) (sym size) ∙ drop-append nonce s in
    rw (e, long, first, rest) (opening.unseal-seal key nonce plaintext size)

-- What is encrypted with a nonce of the right length is decrypted by the same key.
pub decrypt-encrypt :
    (gcm : Gcm)
    → IsOpening gcm
    → (nonce plaintext key ciphertext : List ℕ) → length nonce ≡ gcm.nonce_size
    → encrypt gcm (some nonce) plaintext key ≡ some ciphertext
    → decrypt gcm ciphertext key ≡ some plaintext
unfolding encrypt
decrypt-encrypt gcm opening nonce plaintext key ciphertext size h =
    elim (Bool-cases (length key == 32)) [
      | inr e ↦ cc (rw e at h)
      | inl e ↦
          let same : nonce ++ gcm.seal key nonce plaintext ≡ ciphertext = cc (rw e at h) in
          ap (λ c. decrypt gcm c key) (sym same)
          ∙ decrypt_sealed gcm opening nonce plaintext key size e
    ]
