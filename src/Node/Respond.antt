-- ===== src/Node/Respond.antt =====
-- crates/logos-messaging-a2a-node/src/tasks/respond.rs: the response to a task is published as an envelope
-- of its own and noted in the history. Clock readings and whether the log takes its row are
-- arguments.
pub mod Reaches
use lmao.Prelude.{ℕ, ◌+◌, String, Bool, true, false, not, Option, none, some, if◌then◌else◌}
use lmao.Prelude.Result.{Result, ok, err}
use lmao.Transport.{Transport, TransportError}
use lmao.Task
use lmao.Task.{Task, task_topic}
use lmao.Node.Peers.{PeerMap}
use lmao.Node.Poll.{AgentCard}
use lmao.Node.Payload.{PayloadApi, prepare_payload}
use lmao.Node.History.{HistoryEntry, Lines, append, extract_codex_cid, or_empty, peer_name_of}

pub data RespondError : Type 0 where
  not_encoded : String → RespondError
  not_sent : TransportError → RespondError

pub record Responder (T S : Type 0) : Type 0 where
  pub transport : T
  pub storage : S
  pub peers : PeerMap
  pub history : Option Lines
  pub responses_sent : ℕ
  pub messages_published : ℕ

-- The readings: seconds for the peers, milliseconds for the row, the time that the response took.
pub record Readings : Type 0 where
  pub now_secs : ℕ
  pub now_ms : ℕ
  pub elapsed_ms : ℕ
  pub log_writes : Bool

abbrev pub response_to : Task → String → Bool → Task
response_to task body_text failed =
    if failed then Task.respond_failed body_text task else Task.respond body_text task

abbrev pub received_entry : Readings → PeerMap → Task → String → Bool → HistoryEntry
received_entry at peers task body_text failed = record {
  task_id = task.id;
  parent_id = "";
  created_at_ms = at.now_ms;
  direction = "received";
  peer_pubkey = task.from;
  peer_name = peer_name_of at.now_secs task.from peers;
  capability = "";
  text = or_empty (Task.text task);
  body = body_text;
  cid = extract_codex_cid body_text;
  success = not failed;
  error = if failed then some body_text else none;
  elapsed_ms = at.elapsed_ms;
  session_id = or_empty task.session_id;
}

-- A failure to write the row is ignored.
abbrev pub log_row : Bool → HistoryEntry → Option Lines → Option Lines
log_row writes entry none = none
log_row writes entry (some log) = some (append writes entry log).1

module _ {T R S : Type 0} (tr : Transport T R) (api : PayloadApi S) where
  abbrev published :
      Readings
      → Task
      → String
      → Bool
      → Result TransportError Unit
      → Responder T S
      → Result RespondError Unit × Responder T S
  published at task body_text failed (err e) s = (err (not_sent e), s)
  published at task body_text failed (ok u) s = (
    ok tt,
    record s {
      history = log_row at.log_writes (received_entry at s.peers task body_text failed) s.history;
      responses_sent = s.responses_sent + 1;
      messages_published = s.messages_published + 1;
    },
  )

  unfoldable pub publish_response :
      Readings
      → Task
      → String
      → Option AgentCard
      → Bool
      → Responder T S
      → Result RespondError Unit × Responder T S
  publish_response at task body_text sender_card failed s =
      let response = response_to task body_text failed in
      let (prepared, storage) = prepare_payload api response sender_card s.storage in
      elim prepared [
        | err e ↦ (err (not_encoded e), record s { storage = storage })
        | ok payload ↦
            let (r, t) = tr.publish (task_topic response.to) payload s.transport in
            published at task body_text failed r (record s { storage = storage; transport = t })
      ]

  abbrev pub respond_to :
      Readings
      → Task
      → String
      → Option AgentCard
      → Responder T S
      → Result RespondError Unit × Responder T S
  respond_to at task result_text sender_card s =
      publish_response at task result_text sender_card false s

  abbrev pub respond :
      Readings → Task → String → Responder T S → Result RespondError Unit × Responder T S
  respond at task result_text s = respond_to at task result_text none s

  abbrev pub respond_failed :
      Readings → Task → String → Responder T S → Result RespondError Unit × Responder T S
  respond_failed at task error_text s = publish_response at task error_text none true s
