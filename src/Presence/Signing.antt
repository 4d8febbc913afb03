-- ===== src/Presence/Signing.antt =====
-- Signed announcements of core/src/presence.rs: what a signature holds for.
use lmao.Prelude.{◌≡◌, refl, sym, ap, ◌∙◌, String, true, some, List}
use lmao.Prelude.Bytewise.{Reordered, KeysApart, sort_by_bytes-Reordered}
use lmao.Prelude.Result.{ok}
use lmao.Sds.Message.{Bytes}
use lmao.Node.Peers.{SealedStatus, PresenceAnnouncement}
use lmao.Presence.{SignatureApi, canonical_bytes, sign, verify}

-- What the code relies on: a signature is read back from DER and verifies under its key's own
-- verifying key, which `public_hex` writes.
pub record SignatureLaws {K V G : Type 0} (api : SignatureApi K V G) (public_hex : K → String)
    : Type 0 where
  pub public_bytes : K → Bytes
  pub verifying_key : K → V
  pub signature : K → Bytes → G
  pub hex_decode-public_hex : (k : K) → api.hex_decode (public_hex k) ≡ some (public_bytes k)
  pub from_sec1_bytes-public :
      (k : K) → api.from_sec1_bytes (public_bytes k) ≡ some (verifying_key k)
  pub from_der-sign :
      (k : K) (m : Bytes) → api.from_der (api.sign_to_der k m) ≡ some (signature k m)
  pub verify-sign : (k : K) (m : Bytes) → api.verify (verifying_key k) m (signature k m) ≡ true

module _ {K V G : Type 0} (api : SignatureApi K V G) where
  canonical_bytes-Reordered :
      (a : PresenceAnnouncement) (sealed : List SealedStatus)
      → Reordered a.sealed_status sealed
      → KeysApart (λ s. s.recipient_hint) a.sealed_status
      → canonical_bytes api (record a { sealed_status = sealed }) ≡ canonical_bytes api a
  unfolding canonical_bytes
  canonical_bytes-Reordered a sealed r apart =
      ap
        (λ (sorted : List SealedStatus). api.encode (record {
          agent_id = a.agent_id;
          capabilities = a.capabilities;
          name = a.name;
          sealed_status = sorted;
          ttl_secs = a.ttl_secs;
          waku_topic = a.waku_topic;
        }))
        (sym (sort_by_bytes-Reordered (λ s. s.recipient_hint) r apart))

  -- An announcement that its own agent signed is verified, also when its envelopes arrive in another
  -- order, if no two different ones bear the same hint.
  pub verify-sign-Reordered :
      (public_hex : K → String) (laws : SignatureLaws api public_hex) (k : K)
      (a : PresenceAnnouncement) (sealed : List SealedStatus)
      → a.agent_id ≡ public_hex k
      → Reordered a.sealed_status sealed
      → KeysApart (λ s. s.recipient_hint) a.sealed_status
      → verify api (record (sign api k a) { sealed_status = sealed }) ≡ ok tt
  unfolding verify sign canonical_bytes
  verify-sign-Reordered public_hex laws k a sealed own r apart =
      let m = canonical_bytes api a in
      let same = canonical_bytes-Reordered a sealed r apart in
      let checked : api.verify (laws.verifying_key k)
            (canonical_bytes api (record a { sealed_status = sealed })) (laws.signature k m)
          ≡ true =
        ap (λ (x : Bytes). api.verify (laws.verifying_key k) x (laws.signature k m)) same
        ∙ laws.verify-sign k m in
      rw
        (
          verify,
          own,
          laws.hex_decode-public_hex k,
          laws.from_sec1_bytes-public k,
          laws.from_der-sign k m,
        )
        (rw checked refl)

  -- The envelopes as they were signed.
  pub verify-sign :
      (public_hex : K → String) (laws : SignatureLaws api public_hex) (k : K)
      (a : PresenceAnnouncement)
      → a.agent_id ≡ public_hex k
      → verify api (sign api k a) ≡ ok tt
  unfolding verify sign canonical_bytes
  verify-sign public_hex laws k a own =
      let m = canonical_bytes api a in
      rw
        (
          verify,
          own,
          laws.hex_decode-public_hex k,
          laws.from_sec1_bytes-public k,
          laws.from_der-sign k m,
          laws.verify-sign k m,
        )
        refl
