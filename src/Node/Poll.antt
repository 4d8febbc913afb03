-- ===== src/Node/Poll.antt =====
-- crates/logos-messaging-a2a-node/src/tasks/poll.rs with the envelope of
-- crates/logos-messaging-a2a-core/src/envelope.rs: from raw messages to the tasks that the caller sees.
-- serde, decryption with the node's identity and the download from storage are `PollApi`; the raw
-- messages are what the loop of `try_recv` drained. Log lines are not modelled.
pub mod Accepted
use lmao.Prelude.{
  ℕ, zero, suc, ◌+◌, String, Bool, true, false, Option, none, some, List, [], ◌∷◌, ◌++◌, length,
  if◌then◌else◌,
}
use lmao.Prelude.Result.{Result, ok, err}
use lmao.Transport.{Transport}
use lmao.Sds.Message.{Bytes, ContentMessage}
use lmao.Sds.Channel
use lmao.Sds.State.{Env, MessageChannel}
use lmao.Sds.Channel.{receive, is_duplicate}
use lmao.Sds.Send.{World, send_ack}
use lmao.Trust.{TrustMode, TrustList, off, enforce, log, is_trusted}
use lmao.Task.{Task, TaskStreamChunk}
use lmao.Node.Peers.{PresenceAnnouncement}
use lmao.Node.Session.{Sessions, track_task}
use lmao.Node.Payment.{Chain, PaymentConfig, PaymentState, verify_all}

pub record IntroBundle : Type 0 where
  pub agent_pubkey : String
  pub version : String

pub record AgentCard : Type 0 where
  pub name : String
  pub description : String
  pub version : String
  pub capabilities : List String
  pub public_key : String
  pub intro_bundle : Option IntroBundle

pub record EncryptedPayload : Type 0 where
  pub nonce : String
  pub ciphertext : String

pub data Envelope : Type 0 where
  agent_card : AgentCard → Envelope
  task : Task → Envelope
  ack : String → Envelope
  encrypted_task : EncryptedPayload → String → Envelope
  presence : PresenceAnnouncement → Envelope
  stream_chunk : TaskStreamChunk → Envelope

-- `decrypt` is there if the node has an identity, and `download` if it has a storage backend; a
-- download that fails, or is no task, is an error's text.
pub record PollApi : Type 0 where
  pub decode_envelope : Bytes → Option Envelope
  pub decrypt : Option (EncryptedPayload → String → Option Task)
  pub download : Option (String → Result String Task)
  pub uuid : ℕ → String

pub record PollState (F T C : Type 0) : Type 0 where
  pub world : World F T
  pub trust : TrustList
  pub payments : PaymentState C
  pub sessions : Sessions
  pub messages_received : ℕ
  pub tasks_received : ℕ
  pub tasks_dropped_untrusted : ℕ

abbrev pub maybe_fetch_offloaded : PollApi → Task → Result String (Option Task)
maybe_fetch_offloaded api t = elim t.payload_cid [
  | none ↦ ok (some t)
  | some cid ↦ elim api.download [
    | none ↦ ok (some t)
    | some download ↦ elim (download cid) [ err e ↦ err e | ok original ↦ ok (some original) ]
  ]
]

abbrev pub extract_task_from_envelope : PollApi → Envelope → Result String (Option Task)
extract_task_from_envelope api (task t) = maybe_fetch_offloaded api t
extract_task_from_envelope api (encrypted_task encrypted sender_pubkey) = elim api.decrypt [
  | none ↦ ok none
  | some decrypt ↦ elim (decrypt encrypted sender_pubkey) [
    | none ↦ ok none
    | some t ↦ maybe_fetch_offloaded api t
  ]
]
extract_task_from_envelope api _ = ok none

abbrev pub extract_task : PollApi → Bytes → Result String (Option Task)
extract_task api payload = elim (api.decode_envelope payload) [
  | none ↦ ok none
  | some envelope ↦ extract_task_from_envelope api envelope
]

-- What an untrusted sender's task comes to.
abbrev pub tolerated : TrustMode → Bool
tolerated off = true
tolerated enforce = false
tolerated log = true

abbrev pub accept_or_drop : {F T C : Type 0} → Task → PollState F T C → Bool × PollState F T C
accept_or_drop t s = if is_trusted t.from s.trust then (true, s) else (
  tolerated s.trust.mode,
  record s { tasks_dropped_untrusted = s.tasks_dropped_untrusted + 1 },
)

-- The extracted task, if it is accepted, after the tasks before it.
unfoldable pub collect :
    {F T C : Type 0}
    → Result String (Option Task)
    → List Task
    → PollState F T C
    → Result String (List Task) × PollState F T C
collect (err e) tasks s = (err e, s)
collect (ok none) tasks s = (ok tasks, s)
collect (ok (some t)) tasks s =
    let (accepted, s') = accept_or_drop t s in
    (ok (if accepted then tasks ++ t ∷ [] else tasks), s')

module _ {F T R C E : Type 0} (env : Env F) (tr : Transport T R) (api : PollApi) (chain : Chain C E)
    (lower : String → String) (payment : Option PaymentConfig) where
  abbrev Polled : Type 0
  Polled = Result String (List Task) × PollState F T C

  -- The acknowledgement's result is dropped.
  abbrev acknowledge : String → PollState F T C → PollState F T C
  acknowledge id s = let (_, w) = send_ack env tr "" id s.world in record s { world = w }

  unfoldable pub take_delivered : List ContentMessage → List Task → PollState F T C → Polled
  take_delivered [] tasks s = (ok tasks, s)
  take_delivered (content ∷ rest) tasks s =
      let (r, s') =
        collect (extract_task api content.content) tasks (acknowledge content.message_id s) in
      elim r [ err e ↦ (err e, s') | ok tasks' ↦ take_delivered rest tasks' s' ]

  -- A message that is no SDS message, or that SDS delivers nothing of: an envelope without SDS.
  unfoldable pub take_raw : Bytes → List Task → PollState F T C → Polled
  take_raw msg tasks s = elim (api.decode_envelope msg) [
    | none ↦ (ok tasks, s)
    | some envelope ↦
        let dedup_id = env.digest msg in
        let w = s.world in
        let marked : PollState F T C = record s {
          world = record w { channel = Channel.mark_seen env dedup_id w.channel };
        } in
        if is_duplicate env dedup_id w.channel
        then (ok tasks, s)
        else collect (extract_task_from_envelope api envelope) tasks marked
  ]

  abbrev received : MessageChannel F → PollState F T C → PollState F T C
  received ch s = let w = s.world in record s { world = record w { channel = ch } }

  abbrev take_outcome : List ContentMessage → Bytes → List Task → PollState F T C → Polled
  take_outcome [] msg tasks s = take_raw msg tasks s
  take_outcome (content ∷ rest) msg tasks s = take_delivered (content ∷ rest) tasks s

  abbrev take_message : Bytes → List Task → PollState F T C → Polled
  take_message msg tasks s =
      let (delivered, ch) = receive env msg s.world.channel in
      take_outcome delivered msg tasks (received ch s)

  unfoldable pub take_messages : List Bytes → List Task → PollState F T C → Polled
  take_messages [] tasks s = (ok tasks, s)
  take_messages (msg ∷ msgs) tasks s =
      let (r, s') = take_message msg tasks s in
      elim r [ err e ↦ (err e, s') | ok tasks' ↦ take_messages msgs tasks' s' ]

  unfoldable pub track_tasks : ℕ → List Task → Sessions → Sessions
  track_tasks now [] s = s
  track_tasks now (t ∷ ts) s = elim t.session_id [
    | none ↦ track_tasks now ts s
    | some sid ↦ track_tasks now ts (track_task (api.uuid s.sessions_created) now sid t.from t.id s)
  ]

  -- The second half of `poll_tasks`. An error has ended the poll: the tasks that were collected
  -- before it are lost.
  abbrev settle : ℕ → Polled → Polled
  settle now (err e, s) = (err e, s)
  settle now (ok tasks, s) =
      let (verified, payments) = verify_all chain lower payment tasks s.payments in
      (
        ok verified,
        record s {
          payments = payments;
          tasks_received = s.tasks_received + length verified;
          sessions = track_tasks now verified s.sessions;
        },
      )

  unfoldable pub poll_tasks : ℕ → List Bytes → PollState F T C → Polled
  poll_tasks now raw_messages s =
      let s0 : PollState F T C = record s {
        messages_received = s.messages_received + length raw_messages;
      } in
      settle now (take_messages raw_messages [] s0)
