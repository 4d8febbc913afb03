-- ===== src/Node/Streaming.antt =====
-- crates/logos-messaging-a2a-node/src/streaming.rs: a result that is sent in numbered chunks and put
-- together again. `encode` and `decode` are serde on a chunk's envelope, `decode` yielding nothing
-- for other envelopes; `drain` is the loop of `try_recv`. Log lines are not modelled.
pub mod Order
pub mod Roundtrip
use lmao.Prelude.{
  ℕ, zero, suc, ◌+◌, ◌-◌, ◌%◌, ◌^◌, String, Bool, true, false, Option, none, some, List, [], ◌∷◌,
  ◌++◌, map, any, filter, length, eqb, ◌==◌, if◌then◌else◌, sort_by_key,
}
use lmao.Prelude.Dict
use lmao.Prelude.Dict.{Dict}
use lmao.Prelude.Result.{Result, ok, err}
use lmao.Transport.{Transport, TransportError, serialization_error, concat}
use lmao.Task.{Task, TaskStreamChunk, stream_topic}

abbrev pub Chunks : Type 0
Chunks = List TaskStreamChunk

-- The chunks of a stream from number `i` on, of `total`; a number is cast to 32 bits.
unfoldable pub chunks_from : String → ℕ → ℕ → List String → Chunks
chunks_from task_id i total [] = []
chunks_from task_id i total (text ∷ texts) =
    record {
      task_id = task_id;
      chunk_index = i % 2 ^ 32;
      text = text;
      is_final = eqb i (total - 1);
    }
    ∷ chunks_from task_id (i + 1) total texts

abbrev pub chunks_of : String → List String → Chunks
chunks_of task_id texts = chunks_from task_id 0 (length texts) texts

-- A new chunk is dropped if its number is taken.
abbrev pub add_chunk : Chunks → TaskStreamChunk → Chunks
add_chunk entry chunk =
    if any (λ c. eqb c.chunk_index chunk.chunk_index) entry then entry else entry ++ chunk ∷ []

unfoldable pub absorb : Chunks → Chunks → Chunks
absorb entry [] = entry
absorb entry (chunk ∷ new_chunks) = absorb (add_chunk entry chunk) new_chunks

unfoldable pub merge_chunks : Chunks → Chunks → Chunks
merge_chunks entry new_chunks = sort_by_key (λ c. c.chunk_index) (absorb entry new_chunks)

abbrev pub join : List String → String
join [] = ""
join (s ∷ rest) = concat s (join rest)

abbrev is_nil : Chunks → Bool
is_nil [] = true
is_nil (c ∷ cs) = false

unfoldable pub reassemble : Chunks → Option String
reassemble chunks =
    if is_nil chunks
    then none
    else if any (λ c. c.is_final) chunks
    then some (join (map (λ c. c.text) chunks))
    else none

pub record StreamState (T R : Type 0) : Type 0 where
  pub transport : T
  pub stream_rx : Dict R
  pub stream_chunks : Dict Chunks
  pub stream_chunks_sent : ℕ
  pub stream_chunks_received : ℕ
  pub messages_published : ℕ

abbrev entry_or_default : Option Chunks → Chunks
entry_or_default none = []
entry_or_default (some chunks) = chunks

abbrev known : List (Option TaskStreamChunk) → Chunks
known [] = []
known (none ∷ rest) = known rest
known (some c ∷ rest) = c ∷ known rest

module _ {T R : Type 0} (tr : Transport T R) (encode : TaskStreamChunk → Option (List ℕ))
    (decode : List ℕ → Option TaskStreamChunk) (drain : R → T → List (List ℕ) × R × T) where
  -- The loop of `respond_stream`; the first failure ends it.
  unfoldable pub publish_chunks : String → Chunks → T → Result TransportError Unit × T
  publish_chunks topic [] t = (ok tt, t)
  publish_chunks topic (c ∷ cs) t = elim (encode c) [
    | none ↦ (err (serialization_error "serde_json"), t)
    | some payload ↦
        let (sent, t') = tr.publish topic payload t in
        let rest = publish_chunks topic cs t' in elim sent [ err e ↦ (err e, t') | ok _ ↦ rest ]
  ]

  unfoldable pub respond_stream :
      Task → List String → StreamState T R → Result TransportError Unit × StreamState T R
  respond_stream task texts s =
      let (r, t) = publish_chunks (stream_topic task.id) (chunks_of task.id texts) s.transport in
      let s' : StreamState T R = record s { transport = t } in
      elim r [
        | err e ↦ (err e, s')
        | ok _ ↦ (
          ok tt,
          record s' {
            stream_chunks_sent = s.stream_chunks_sent + length texts;
            messages_published = s.messages_published + length texts;
          },
        )
      ]

  -- The receiver of a task's stream, subscribed to on the first call.
  unfoldable pub open_stream : String → StreamState T R → Result TransportError R × StreamState T R
  open_stream task_id s = elim (Dict.lookup task_id s.stream_rx) [
    | some rx ↦ (ok rx, s)
    | none ↦
        let (r, t) = tr.subscribe (stream_topic task_id) s.transport in
        let s' : StreamState T R = record s { transport = t } in
        elim r [
          | err e ↦ (err e, s')
          | ok rx ↦ (ok rx, record s' { stream_rx = Dict.insert task_id rx s.stream_rx })
        ]
  ]

  unfoldable pub poll_stream_chunks :
      String → StreamState T R → Result TransportError Chunks × StreamState T R
  poll_stream_chunks task_id s =
      let (r, s1) = open_stream task_id s in
      elim r [
        | err e ↦ (err e, s1)
        | ok rx ↦
            let (msgs, rx', t) = drain rx s1.transport in
            let new_chunks = filter (λ c. c.task_id == task_id) (known (map decode msgs)) in
            let entry = entry_or_default (Dict.lookup task_id s1.stream_chunks) in
            let chunks = merge_chunks entry new_chunks in
            (
              ok chunks,
              record s1 {
                transport = t;
                stream_rx = Dict.insert task_id rx' s1.stream_rx;
                stream_chunks = Dict.insert task_id chunks s1.stream_chunks;
                stream_chunks_received = s1.stream_chunks_received + length new_chunks;
              },
            )
      ]

  unfoldable pub reassemble_stream : String → StreamState T R → Option String
  reassemble_stream task_id s = elim (Dict.lookup task_id s.stream_chunks) [
    | none ↦ none
    | some chunks ↦ reassemble chunks
  ]
