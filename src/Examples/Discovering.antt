-- ===== src/Examples/Discovering.antt =====
-- Discovery and presence at concrete inputs.
use lmao.Prelude.{
  ℕ, ◌+◌, ◌≡◌, ◌≢◌, refl, ◌⊎◌, Option, none, some, List, [], ◌∷◌, Member, eqb, if◌then◌else◌,
}
use lmao.Prelude.Dict
use lmao.Prelude.Result.{Result, ok}
use lmao.Sds.Message.{Bytes}
use lmao.Task.{task_topic}
use lmao.Trust.{TrustEntry}
use lmao.Registry.{RegistryError}
use lmao.Crypto.{from_secret, public_key_hex}
use lmao.Node.Peers.{LoadStatus, PresenceAnnouncement, PeerMap, free}
use lmao.Node.Poll.{AgentCard, Envelope, agent_card, presence}
use lmao.Node.Announcing.{announcement, hear_all}
use lmao.Node.Discovery.{Finder}
use lmao.Node.Discovery.Authentic.{Proven, hear_all-Proven}
use lmao.Node.Discovery.Announced.{hear_all-announcement}
use lmao.Examples.Keys.{
  toy_crypto, toy_crypto_laws, key_a, key_b, nonce, toy_signatures, public_hex, toy-SignatureLaws,
  sealed,
}
use lmao.Examples.Registering.{card_of}

abbrev old : AgentCard
old = card_of "k1" "old" []

abbrev new : AgentCard
new = card_of "k1" "new" []

abbrev me : AgentCard
me = card_of "k0" "me" []

-- The messages are numbers of cards.
abbrev decode_card : Bytes → Option Envelope
decode_card [] = none
decode_card (n ∷ rest) =
    if eqb n 0 then some (agent_card me) else if eqb n 1 then some (agent_card old) else none

abbrev drain : Unit {0} → Unit {0} → List Bytes × Unit {0} × Unit {0}
drain rx t = ((0 ∷ []) ∷ (1 ∷ []) ∷ (9 ∷ []) ∷ [], rx, t)

abbrev finder : Finder Unit Unit
finder = record {
  transport = tt;
  discover_rx = none;
  presence_rx = none;
  peers = [];
  announcements_sent = 0;
  messages_published = 0;
  discoveries = 0;
  peers_discovered = 0;
}

abbrev listed : Option (Result RegistryError (List AgentCard))
listed = some (ok (new ∷ me ∷ []))

abbrev calm : LoadStatus
calm = record { bucket = free; queue_depth = 0; max_concurrent = 4; avg_latency_ms = 9 }

abbrev trusted_b : TrustEntry
trusted_b = record {
  pubkey = "k2";
  nickname = "b";
  capabilities = [];
  notes = none;
  encryption_pubkey = some (public_key_hex toy_crypto (from_secret toy_crypto key_b));
  added_at = 0;
}

abbrev speaker : AgentCard
speaker = card_of (public_hex 5) "speaker" ("text" ∷ [])

abbrev random : ℕ → Bytes × Bytes
random i = (key_a, nonce)

abbrev said : PresenceAnnouncement
said =
    announcement toy_crypto toy_signatures (λ status. some (6 ∷ [])) speaker 5 random calm
      (trusted_b ∷ []) 300

abbrev hears : Bytes → Option Envelope
hears bytes = some (presence said)

abbrev heard_by_b : ℕ × PeerMap
heard_by_b =
    hear_all hears "k2" toy_crypto toy_signatures (λ bytes. some calm) 1000
      (some (from_secret toy_crypto key_b)) ((1 ∷ []) ∷ []) (4, [])

other_key : public_hex 5 ≢ "k2"
other_key e = cc e

hear_all-announcement_example :
    (heard_by_b.0 ≡ 4 + 1)
    × (Dict.lookup (public_hex 5) heard_by_b.1
        ≡ some (record {
          name = "speaker";
          capabilities = "text" ∷ [];
          waku_topic = task_topic (public_hex 5);
          ttl_secs = 300;
          last_seen = 1000;
          load = some calm;
        }))
hear_all-announcement_example =
    hear_all-announcement hears toy_crypto toy_signatures (λ status. some (6 ∷ []))
      (λ bytes. some calm) toy_crypto_laws public_hex toy-SignatureLaws speaker 5 "k2" key_b
      (6 ∷ []) (1 ∷ []) random calm [] [] trusted_b 300 1000 4 [] refl other_key refl
      (λ i. (refl, refl)) (λ k n p. (sealed k p, refl)) refl refl refl tt refl

hear_all-Proven_example :
    (Dict.lookup (public_hex 5) heard_by_b.1 ≡ none)
    ⊎ ((msg : Bytes) × (ann : PresenceAnnouncement) × Member msg ((1 ∷ []) ∷ [])
        × (hears msg ≡ some (presence ann))
        × Proven hears "k2" toy_crypto toy_signatures
            (λ bytes. some calm)
            1000
            (some (from_secret toy_crypto key_b))
            (public_hex 5)
            ann
            heard_by_b.1)
unfolding Dict.lookup
hear_all-Proven_example =
    hear_all-Proven hears "k2" toy_crypto toy_signatures (λ bytes. some calm) 1000
      (some (from_secret toy_crypto key_b)) (public_hex 5) ((1 ∷ []) ∷ []) (4, [])
