-- ===== src/Presence/Sealing.antt =====
-- A load status of core/src/presence.rs that is sealed for an agent, and who reads it.
use lmao.Prelude.{
  String, Option-cases, ◌≡◌, ◌≢◌, refl, sym, ap, ◌∙◌, subst, true, Option, none, some, [], ◌∷◌,
  length, eqb, inl, inr, arith, Bool-cases,
}
use lmao.Prelude.Result.{ok, err, Result-cases, ok_inj, err_not_ok}
use lmao.Sds.Message.{Bytes}
use lmao.Crypto.{
  CryptoApi, AgentIdentity, display, key_length, nonce_length, from_secret, public_key_hex,
  encrypt_raw, parse_public_key, seal_for,
}
use lmao.Crypto.Roundtrip.{CryptoLaws, from_hex-secret_hex, unseal-seal_for, seal_for_clear}
use lmao.Node.Peers.{LoadStatus, SealedStatus}
use lmao.Presence.{
  invalid_recipient_pubkey, seal_crypto, recipient_hint, same_bytes, envelope, seal, read_status,
  unseal_with,
}

pub same_bytes_self : (xs : Bytes) → same_bytes xs xs ≡ true
same_bytes_self [] = refl
same_bytes_self (x ∷ xs) = ground (arith, same_bytes_self xs)

same_bytes_eq : (xs ys : Bytes) → same_bytes xs ys ≡ true → xs ≡ ys
same_bytes_eq [] [] h = refl
same_bytes_eq [] (y ∷ ys) h = cc
same_bytes_eq (x ∷ xs) [] h = cc
same_bytes_eq (x ∷ xs) (y ∷ ys) h = ground (arith, same_bytes_eq xs ys)

-- An envelope that bears another agent's hint is not looked into, whatever else it holds.
pub unseal_with-other :
    (api : CryptoApi) (decode : Bytes → Option LoadStatus) (me : AgentIdentity) (s : SealedStatus)
    → s.recipient_hint ≢ recipient_hint me.public
    → unseal_with api decode me s ≡ ok none
unfolding unseal_with
unseal_with-other api decode me s other =
    elim (Bool-cases (same_bytes s.recipient_hint (recipient_hint me.public))) [
      | inl same ↦ absurd (other (same_bytes_eq s.recipient_hint (recipient_hint me.public) same))
      | inr apart ↦ rw (apart, unseal_with) refl
    ]

module _ (crypto : CryptoApi) (encode_status : LoadStatus → Option Bytes) where
  -- An envelope bears the hint of the key that it is sealed for.
  pub seal_hint :
      (ephemeral nonce : Bytes) (hex : String) (status : LoadStatus) (s : SealedStatus)
      → seal crypto encode_status ephemeral nonce hex status ≡ ok s
      → (key : Bytes) × (parse_public_key crypto hex ≡ ok key)
        × (s.recipient_hint ≡ recipient_hint key)
  unfolding seal
  seal_hint ephemeral nonce hex status s h = elim (Result-cases (parse_public_key crypto hex)) [
    | inr (e, failed) ↦
        let fails : seal crypto encode_status ephemeral nonce hex status
            ≡ err (invalid_recipient_pubkey (display e)) =
          rw (failed, seal) refl in
        absurd (err_not_ok (invalid_recipient_pubkey (display e)) s (sym fails ∙ h))
    | inl (key, parsed) ↦ elim (Option-cases (encode_status status)) [
      | inl e ↦
          let fails : seal crypto encode_status ephemeral nonce hex status
              ≡ err (seal_crypto "encode: serde_json") =
            rw (parsed, e, seal) refl in
          absurd (err_not_ok (seal_crypto "encode: serde_json") s (sym fails ∙ h))
      | inr (json, e) ↦ elim (Result-cases (seal_for crypto ephemeral nonce key json)) [
        | inr (x, failed) ↦
            let fails : seal crypto encode_status ephemeral nonce hex status
                ≡ err (seal_crypto (display x)) =
              rw (parsed, e, envelope, failed, seal) refl in
            absurd (err_not_ok (seal_crypto (display x)) s (sym fails ∙ h))
        | inl (sealed, done) ↦
            let made : SealedStatus = record {
              recipient_hint = recipient_hint key;
              ephemeral_pub = sealed.0;
              nonce = sealed.1;
              ciphertext = sealed.2;
            } in
            let works : seal crypto encode_status ephemeral nonce hex status ≡ ok made =
              rw (parsed, e, envelope, done, seal) refl in
            (
              key,
              parsed,
              sym (ap (λ (x : SealedStatus). x.recipient_hint) (ok_inj made s (sym works ∙ h))),
            )
      ]
    ]
  ]

pub unseal_with-seal_own :
    (api : CryptoApi) (laws : CryptoLaws api) (encode : LoadStatus → Option Bytes)
    (decode : Bytes → Option LoadStatus) (ephemeral secret nonce json : Bytes) (status : LoadStatus)
    (s : SealedStatus)
    → length ephemeral ≡ key_length
    → length secret ≡ key_length
    → length nonce ≡ nonce_length
    → encode status ≡ some json
    → decode json ≡ some status
    → let me = from_secret api secret in
      seal api encode ephemeral nonce (public_key_hex api me) status ≡ ok s
      → unseal_with api decode me s ≡ ok (some status)
unfolding seal unseal_with seal_for encrypt_raw
unseal_with-seal_own api laws encode decode ephemeral secret nonce json status s le ls ln written
      read h =
    let me = from_secret api secret in
    let key = (from_hex-secret_hex api laws secret ls).1 in
    let shape : seal api encode ephemeral nonce (public_key_hex api me) status
        ≡ envelope api me.public (seal_for api ephemeral nonce me.public json) =
      rw (seal, key, written) refl in
    elim (Result-cases (seal_for api ephemeral nonce me.public json)) [
      | inr (e, failed) ↦
          let fails : seal api encode ephemeral nonce (public_key_hex api me) status
              ≡ err (seal_crypto (display e)) =
            shape ∙ rw failed refl in
          absurd (err_not_ok (seal_crypto (display e)) s (sym fails ∙ h))
      | inl (sealed, done) ↦
          let made : SealedStatus = record {
            recipient_hint = recipient_hint me.public;
            ephemeral_pub = sealed.0;
            nonce = sealed.1;
            ciphertext = sealed.2;
          } in
          let works : seal api encode ephemeral nonce (public_key_hex api me) status ≡ ok made =
            shape ∙ rw done refl in
          let (public, clear) = seal_for_clear api ephemeral nonce me.public json sealed done in
          let long : eqb (length sealed.0) key_length ≡ true =
            ground (arith, ap length public, laws.length-public_of ephemeral le) in
          let right : eqb (length sealed.1) nonce_length ≡ true =
            ground (arith, ap length clear, ln) in
          let opens = unseal-seal_for api laws ephemeral secret nonce json sealed le ls done in
          let mine : unseal_with api decode me made ≡ ok (some status) =
            rw
              (
                unseal_with,
                same_bytes_self (recipient_hint me.public),
                long,
                right,
                opens,
                read_status,
                read,
              )
              refl in
          subst (λ (x : SealedStatus). unseal_with api decode me x ≡ ok (some status))
            (ok_inj made s (sym works ∙ h)) mine
    ]

-- Sealing for a key in hex that an agent gave out never fails while encryption does not.
pub seal_total :
    (api : CryptoApi) (laws : CryptoLaws api) (encode : LoadStatus → Option Bytes)
    (ephemeral secret nonce json : Bytes) (status : LoadStatus)
    → ((key nonce plaintext : Bytes)
        → (c : Bytes) × (api.aead_encrypt key nonce plaintext ≡ some c))
    → length secret ≡ key_length
    → encode status ≡ some json
    → (s : SealedStatus) × (seal api encode ephemeral nonce
          (public_key_hex api (from_secret api secret))
          status
        ≡ ok s)
unfolding seal seal_for encrypt_raw
seal_total api laws encode ephemeral secret nonce json status encrypts ls written =
    let me = from_secret api secret in
    let (c, e) = encrypts (api.diffie_hellman ephemeral me.public) nonce json in
    (
      record {
        recipient_hint = recipient_hint me.public;
        ephemeral_pub = api.public_of ephemeral;
        nonce = nonce;
        ciphertext = c;
      },
      rw (seal, (from_hex-secret_hex api laws secret ls).1, written, seal_for, encrypt_raw, e) refl,
    )

-- A status that is sealed for an agent's public key in hex, with a nonce of 12 bytes and an ephemeral
-- secret of 32, is what that agent unseals; an agent whose key ends in other bytes finds the envelope
-- not addressed to it.
unseal_with-seal :
    (api : CryptoApi) (laws : CryptoLaws api) (encode : LoadStatus → Option Bytes)
    (decode : Bytes → Option LoadStatus) (ephemeral secret nonce json : Bytes) (status : LoadStatus)
    (other : AgentIdentity) (s : SealedStatus)
    → length ephemeral ≡ key_length
    → length secret ≡ key_length
    → length nonce ≡ nonce_length
    → encode status ≡ some json
    → decode json ≡ some status
    → let me = from_secret api secret in
      recipient_hint other.public ≢ recipient_hint me.public
      → seal api encode ephemeral nonce (public_key_hex api me) status ≡ ok s
      → (unseal_with api decode me s ≡ ok (some status))
        × (unseal_with api decode other s ≡ ok none)
unseal_with-seal api laws encode decode ephemeral secret nonce json status other s le ls ln written
      read apart h =
    let me = from_secret api secret in
    let (key, parsed, hint) =
      seal_hint api encode ephemeral nonce (public_key_hex api me) status s h in
    let mine : key ≡ me.public =
      ok_inj key me.public (sym parsed ∙ (from_hex-secret_hex api laws secret ls).1) in
    (
      unseal_with-seal_own api laws encode decode ephemeral secret nonce json status s le ls ln
          written read h,
      unseal_with-other api decode other s (λ e. apart (sym e ∙ hint ∙ ap recipient_hint mine)),
    )
