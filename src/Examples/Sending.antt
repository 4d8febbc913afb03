-- ===== src/Examples/Sending.antt =====
-- The theorems on the filter, the clock, the acknowledgements and on sending at concrete inputs.
use lmao.Prelude.{ℕ, ◌<◌, ◌≡◌, ◌≢◌, refl, ap, String, not, none, some, List, [], ◌∷◌, filter, arith}
use lmao.Prelude.Result.{ok, err}
use lmao.Transport.{Transport, transport_error}
use lmao.Sds.Message.{Bytes, ContentMessage, content_message}
use lmao.Sds.Bloom
use lmao.Sds.Bloom.{SdsBloomFilter, default_capacity}
use lmao.Sds.Bloom.Bytes.{from_bytes-to_bytes}
use lmao.Sds.State.{MessageChannel, next_timestamp}
use lmao.Sds.Channel.{receive, check_outgoing_acks}
use lmao.Sds.Channel.Bounds.{InBounds}
use lmao.Sds.Channel.Clock.{receive-lamport}
use lmao.Sds.Channel.Acks.{is_acked, check_outgoing_acks-peer}
use lmao.Sds.Send.{World, send_reliable}
use lmao.Sds.Send.Reliable.{Calls, counted, ReliableSend, send_reliable_calls}
use lmao.Sds.Send.Repair.{Log}
use lmao.Examples.Setup.{toy_env, toy_filter, toy_laws, fresh, first, second, mark}

-- A transport that is down.
abbrev down : Transport Unit Unit
down = record {
  publish = λ topic bytes t. (err (transport_error "down"), t);
  subscribe = λ topic t. (ok tt, t);
  unsubscribe = λ topic t. (ok tt, t);
  recv_timeout = λ limit rx t. (none, rx, t);
}

abbrev small : SdsBloomFilter (List ℕ)
small = record { inner = mark "a" ∷ []; capacity = 3; item_count = 1 }

from_bytes-to_bytes_example :
    (b' : SdsBloomFilter (List ℕ)) × (Bloom.from_bytes toy_filter (Bloom.to_bytes toy_filter small)
      ≡ some b')
    × ((x : String) → Bloom.check toy_filter b' x ≡ Bloom.check toy_filter small x)
    × (b'.item_count ≡ 0)
    × (b'.capacity ≡ default_capacity)
from_bytes-to_bytes_example = from_bytes-to_bytes toy_filter toy_laws small

receive-lamport_example :
    let ch' = (receive toy_env (1 ∷ []) fresh).1 in
    (150 < ch'.lamport_timestamp)
    × (fresh.lamport_timestamp < ch'.lamport_timestamp)
    × (ch'.lamport_timestamp < (next_timestamp ch').0)
    × ((next_timestamp ch').1.lamport_timestamp ≡ (next_timestamp ch').0)
receive-lamport_example =
    receive-lamport toy_env (1 ∷ []) (content_message first) 150 fresh refl refl refl (omega arith)

-- `fresh` with two messages out.
abbrev sending : MessageChannel (List ℕ)
sending = record fresh { outgoing_buffer = first ∷ second ∷ [] }

second_is_not_first : second.message_id ≢ first.message_id
second_is_not_first h = different_chars (ap mark h)
  where
    different_chars : ◌≢◌ {A = ℕ} 98 97
    different_chars e = omega arith

check_outgoing_acks-peer_example :
    let ch' = check_outgoing_acks toy_env (Bloom.to_bytes toy_filter small) sending in
    (ch'.outgoing_buffer
      ≡ filter
          (λ m. not (
            is_acked
              (Bloom.check toy_filter small)
              sending.config.possible_acks_threshold
              sending.possible_acks
              m))
          sending.outgoing_buffer)
    × (ch'.incoming_buffer ≡ sending.incoming_buffer)
    × (ch'.local_history ≡ sending.local_history)
    × (ch'.bloom ≡ sending.bloom)
    × (ch'.lamport_timestamp ≡ sending.lamport_timestamp)
check_outgoing_acks-peer_example =
    check_outgoing_acks-peer toy_env toy_laws small sending ((second_is_not_first, tt), (tt, tt))

abbrev offline : World (List ℕ) Unit
offline = record { channel = fresh; transport = tt }

abbrev online : World (List ℕ) Log
online = record { channel = fresh; transport = [] }

-- The message that `fresh` sends first.
abbrev outgoing : ContentMessage
outgoing = record first {
  sender_id = "bob";
  lamport_timestamp = 101;
  bloom_filter = some (Bloom.to_bytes toy_filter fresh.bloom);
}

online-InBounds : InBounds online.channel
online-InBounds = omega arith

-- Nothing is ever received.
abbrev mute : Transport Unit Unit
mute = record down { publish = λ topic bytes t. (ok tt, t) }

abbrev metered : World (List ℕ) (Calls × Unit)
metered = record {
  channel = fresh;
  transport = (record { publishes = []; subscribes = []; unsubscribes = [] }, tt);
}

send_reliable_calls_example :
    ReliableSend toy_env mute "room" metered
      (send_reliable toy_env (counted mute) "room" (1 ∷ []) metered)
send_reliable_calls_example = send_reliable_calls toy_env mute "room" (1 ∷ []) metered

abbrev wire : ContentMessage → Bytes
wire m = m.content
