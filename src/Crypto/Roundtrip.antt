-- ===== src/Crypto/Roundtrip.antt =====
-- Keys and ciphertexts of crypto/src/lib.rs are read back by whom they are for.
use lmao.Prelude.{
  ◌≡◌, refl, sym, subst, ap, ◌∙◌, true, some, length, eqb, Option-cases, inl, inr, arith,
}
use lmao.Prelude.Result.{ok, err, ok_inj, err_not_ok}
use lmao.Sds.Message.{Bytes}
use lmao.Node.Poll.{EncryptedPayload}
use lmao.Crypto.{
  CryptoApi, cipher, returned, key_length, nonce_length, from_secret, secret_hex, public_key_hex,
  from_hex, parse_public_key, shared_key, encrypt_raw, decrypt_raw, unseal, seal_for, encrypt,
  decrypt, key_of_hex,
}

-- What the code relies on: both sides of a key agreement reach one key, decryption undoes encryption
-- under the same key and nonce, and hex and base64 are read back.
pub record CryptoLaws (api : CryptoApi) : Type 0 where
  pub diffie_hellman_comm :
      (a b : Bytes)
      → length a ≡ key_length
      → length b ≡ key_length
      → api.diffie_hellman a (api.public_of b) ≡ api.diffie_hellman b (api.public_of a)
  pub length-public_of : (a : Bytes) → length a ≡ key_length → length (api.public_of a) ≡ key_length
  pub decrypt-encrypt :
      (key nonce plaintext ciphertext : Bytes)
      → api.aead_encrypt key nonce plaintext ≡ some ciphertext
      → api.aead_decrypt key nonce ciphertext ≡ some plaintext
  pub hex_decode-hex_encode : (bytes : Bytes) → api.hex_decode (api.hex_encode bytes) ≡ ok bytes
  pub base64_decode-base64_encode :
      (bytes : Bytes) → api.base64_decode (api.base64_encode bytes) ≡ some bytes

module _ (api : CryptoApi) (laws : CryptoLaws api) where
  -- An identity is read back from the hex of its secret, and its public key from that of the key.
  pub from_hex-secret_hex :
      (secret : Bytes)
      → length secret ≡ key_length
      → let me = from_secret api secret in
        (from_hex api (secret_hex api me) ≡ ok me)
        × (parse_public_key api (public_key_hex api me) ≡ ok me.public)
  unfolding from_hex parse_public_key
  from_hex-secret_hex secret len =
      let me = from_secret api secret in
      let right : eqb (length secret) key_length ≡ true = ground (arith, len) in
      let right' : eqb (length me.public) key_length ≡ true =
        ground (arith, laws.length-public_of secret len) in
      (
        rw (from_hex, key_of_hex, laws.hex_decode-hex_encode secret, right) refl,
        rw (parse_public_key, key_of_hex, laws.hex_decode-hex_encode me.public, right') refl,
      )

  decrypt-encrypt_key :
      (key nonce plaintext : Bytes) (payload : EncryptedPayload)
      → length nonce ≡ nonce_length
      → encrypt api nonce key plaintext ≡ ok payload
      → decrypt api key payload ≡ returned (ok plaintext)
  unfolding encrypt decrypt decrypt_raw
  decrypt-encrypt_key key nonce plaintext payload ln h =
      elim (Option-cases (api.aead_encrypt key nonce plaintext)) [
        | inl e ↦
            let fails : encrypt api nonce key plaintext ≡ err (cipher "encrypt: aead::Error") =
              rw (e, encrypt) refl in
            absurd (err_not_ok (cipher "encrypt: aead::Error") payload (sym fails ∙ h))
        | inr (ciphertext, e) ↦
            let sent : EncryptedPayload = record {
              nonce = api.base64_encode nonce;
              ciphertext = api.base64_encode ciphertext;
            } in
            let works : encrypt api nonce key plaintext ≡ ok sent = rw (e, encrypt) refl in
            let right : eqb (length nonce) nonce_length ≡ true = ground (arith, ln) in
            let opens : decrypt api key sent ≡ returned (ok plaintext) =
              rw
                (
                  decrypt,
                  laws.base64_decode-base64_encode nonce,
                  right,
                  laws.base64_decode-base64_encode ciphertext,
                  laws.decrypt-encrypt key nonce plaintext ciphertext e,
                )
                refl in
            subst (λ (p : EncryptedPayload). decrypt api key p ≡ returned (ok plaintext))
              (ok_inj sent payload (sym works ∙ h)) opens
      ]

  -- What one agent encrypts under the key that it shares with another, with a nonce of 12 bytes, the
  -- other decrypts under the key that it shares with the first.
  pub decrypt-encrypt_shared :
      (a b nonce plaintext : Bytes) (payload : EncryptedPayload)
      → length a ≡ key_length
      → length b ≡ key_length
      → length nonce ≡ nonce_length
      → let alice = from_secret api a in
        let bob = from_secret api b in
        encrypt api nonce (shared_key api alice bob.public) plaintext ≡ ok payload
        → decrypt api (shared_key api bob alice.public) payload ≡ returned (ok plaintext)
  unfolding encrypt decrypt shared_key decrypt_raw
  decrypt-encrypt_shared a b nonce plaintext payload la lb ln h =
      let alice = from_secret api a in
      let bob = from_secret api b in
      let same_key : shared_key api alice bob.public ≡ shared_key api bob alice.public =
        laws.diffie_hellman_comm a b la lb in
      subst (λ (k : Bytes). decrypt api k payload ≡ returned (ok plaintext)) same_key
        (decrypt-encrypt_key (shared_key api alice bob.public) nonce plaintext payload ln h)

  -- What is sealed for a public key, its owner unseals.
  pub unseal-seal_for :
      (ephemeral secret nonce plaintext : Bytes) (sealed : Bytes × Bytes × Bytes)
      → length ephemeral ≡ key_length
      → length secret ≡ key_length
      → let me = from_secret api secret in
        seal_for api ephemeral nonce me.public plaintext ≡ ok sealed
        → unseal api me sealed.0 sealed.1 sealed.2 ≡ ok plaintext
  unfolding seal_for unseal encrypt_raw decrypt_raw shared_key
  unseal-seal_for ephemeral secret nonce plaintext sealed le ls h =
      let me = from_secret api secret in
      let key = api.diffie_hellman ephemeral me.public in
      elim (Option-cases (api.aead_encrypt key nonce plaintext)) [
        | inl e ↦
            let fails : seal_for api ephemeral nonce me.public plaintext
                ≡ err (cipher "encrypt: aead::Error") =
              rw (e, seal_for) refl in
            absurd (err_not_ok (cipher "encrypt: aead::Error") sealed (sym fails ∙ h))
        | inr (ciphertext, e) ↦
            let made : Bytes × Bytes × Bytes = (api.public_of ephemeral, nonce, ciphertext) in
            let works : seal_for api ephemeral nonce me.public plaintext ≡ ok made =
              rw (e, seal_for) refl in
            let opens : unseal api me made.0 made.1 made.2 ≡ ok plaintext =
              rw
                (
                  ← laws.diffie_hellman_comm ephemeral secret le ls,
                  laws.decrypt-encrypt key nonce plaintext ciphertext e,
                )
                refl in
            subst (λ (p : Bytes × Bytes × Bytes). unseal api me p.0 p.1 p.2 ≡ ok plaintext)
              (ok_inj made sealed (sym works ∙ h)) opens
      ]

-- The public half of the ephemeral key and the nonce travel in the clear.
pub seal_for_clear :
    (api : CryptoApi) (ephemeral nonce recipient plaintext : Bytes) (sealed : Bytes × Bytes × Bytes)
    → seal_for api ephemeral nonce recipient plaintext ≡ ok sealed
    → (sealed.0 ≡ api.public_of ephemeral) × (sealed.1 ≡ nonce)
unfolding seal_for encrypt_raw
seal_for_clear api ephemeral nonce recipient plaintext sealed h =
    elim (Option-cases
      (api.aead_encrypt (api.diffie_hellman ephemeral recipient) nonce plaintext)) [
        | inl e ↦
            let fails : seal_for api ephemeral nonce recipient plaintext
                ≡ err (cipher "encrypt: aead::Error") =
              rw (e, seal_for) refl in
            absurd (err_not_ok (cipher "encrypt: aead::Error") sealed (sym fails ∙ h))
        | inr (ciphertext, e) ↦
            let made : Bytes × Bytes × Bytes = (api.public_of ephemeral, nonce, ciphertext) in
            let works : seal_for api ephemeral nonce recipient plaintext ≡ ok made =
              rw (e, seal_for) refl in
            let same = ok_inj made sealed (sym works ∙ h) in
            (
              sym (ap (λ (p : Bytes × Bytes × Bytes). p.0) same),
              sym (ap (λ (p : Bytes × Bytes × Bytes). p.1) same),
            )
      ]
