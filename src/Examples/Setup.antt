-- ===== src/Examples/Setup.antt =====
-- A small filter, wire format and transport, and a few messages, with which the theorems are run.
use Prim.Native.Char.{code}
use lmao.Prelude.{
  ℕ, ◌≡◌, refl, String, true, Option, none, some, List, [], ◌∷◌, any, eqb, if◌then◌else◌, arith,
}
use lmao.Sds.Message.{
  Bytes, HistoryEntry, ContentMessage, SdsMessage, content_message, sync_message, ephemeral_message,
}
use lmao.Sds.Bloom.{BloomApi, BloomLaws}
use lmao.Sds.State.{Env, MessageChannel, default_config}
use lmao.Sds.Channel.{new_channel}

-- A text is remembered by its first character.
abbrev pub mark : String → ℕ
mark String.[] = 0
mark (String.◌∷◌ c s) = code c

abbrev pub toy_filter : BloomApi (List ℕ)
toy_filter = record {
  new_for_fp_rate = λ c r. [];
  check = λ f x. any (λ h. eqb h (mark x)) f;
  set = λ f x. mark x ∷ f;
  bitmap = λ f. f;
  number_of_bits = λ f. 8;
  number_of_hash_functions = λ f. 1;
  sip_keys = λ f. ((1, 2), (3, 4));
  from_existing = λ bits b k keys. bits;
}

eqb_refl : (n : ℕ) → eqb n n ≡ true
eqb_refl n = ground arith

set_self : (f : List ℕ) (x : String) → any (λ h. eqb h (mark x)) (mark x ∷ f) ≡ true
set_self f x = ground (arith, eqb_refl (mark x))

set_other :
    (f : List ℕ) (x y : String)
    → any (λ h. eqb h (mark x)) f ≡ true
    → any (λ h. eqb h (mark x)) (mark y ∷ f) ≡ true
set_other f x y h = ground (arith, h)

pub toy_laws : BloomLaws toy_filter
toy_laws = record {
  check-set_self = set_self;
  check-set = set_other;
  check-new = λ c r x. refl;
  bits_range = λ f. omega arith;
  hash_functions_range = λ f. omega arith;
  keys_range = λ f. omega arith;
  check-from_existing = λ f x. refl;
}

abbrev pub entry : String → ℕ → HistoryEntry
entry id ts = record { message_id = id; lamport_timestamp = ts; retrieval_hint = none }

abbrev pub content : String → ℕ → List HistoryEntry → Bytes → ContentMessage
content id ts deps payload = record {
  message_id = id;
  channel_id = "room";
  sender_id = "alice";
  lamport_timestamp = ts;
  causal_history = deps;
  bloom_filter = none;
  content = payload;
  repair_request = [];
  retrieval_hint = none;
}

-- `second` depends on `first`.
abbrev pub first : ContentMessage
first = content "a" 150 [] (1 ∷ [])

abbrev pub second : ContentMessage
second = content "b" 151 (entry "a" 150 ∷ []) (2 ∷ [])

abbrev pub toy_digest : Bytes → String
toy_digest [] = "z"
toy_digest (n ∷ bytes) = if eqb n 1 then "a" else if eqb n 2 then "b" else "c"

abbrev pub toy_encode : SdsMessage → Option Bytes
toy_encode (content_message m) = some m.content
toy_encode (sync_message m) = some (7 ∷ [])
toy_encode (ephemeral_message m) = some m.content

abbrev pub toy_decode : Bytes → Option SdsMessage
toy_decode [] = none
toy_decode (n ∷ bytes) =
    if eqb n 1
    then some (content_message first)
    else if eqb n 2
    then some (content_message second)
    else none

abbrev pub toy_env : Env (List ℕ)
toy_env = record {
  bloom = toy_filter;
  digest = toy_digest;
  encode = toy_encode;
  decode = toy_decode;
  encode_ack = λ id. some (8 ∷ []);
  decode_ack = λ bytes. some "a";
}

abbrev pub fresh : MessageChannel (List ℕ)
fresh = new_channel toy_env "room" "bob" default_config 100

-- `fresh` with `second` waiting.
abbrev pub waiting : MessageChannel (List ℕ)
waiting = record fresh { incoming_buffer = content_message second ∷ [] }
