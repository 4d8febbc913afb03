-- ===== src/Node/Outgoing.antt =====
-- crates/logos-messaging-a2a-node/src/tasks/send.rs: a task is paid for, encoded and sent over the
-- channel, by the retry layer where one is configured, and noted in its session. The public key, fresh
-- UUIDs and random numbers are arguments; an error of payment or encoding stands for its text.
pub mod Sent
pub mod Addressed
use lmao.Prelude.{ℕ, ◌+◌, String, Bool, Option, none, some, List}
use lmao.Prelude.Dict
use lmao.Prelude.Result.{Result, ok, err}
use lmao.Transport.{Transport, TransportError}
use lmao.Sds.Message.{Bytes, ContentMessage}
use lmao.Sds.State.{Env}
use lmao.Sds.Send.{World, send_reliable}
use lmao.Retry
use lmao.Retry.{RetryConfig, RetryState, Outcome, sent, all_failed, panicked}
use lmao.Task
use lmao.Task.{Task, task_topic}
use lmao.Node.Poll.{AgentCard}
use lmao.Node.Payment.{Chain, PaymentConfig, PaymentState, maybe_auto_pay}
use lmao.Node.Payload.{PayloadApi, prepare_payload}
use lmao.Node.Session.{Session, Sessions, note_sent}

-- `panics` is the panic of the retry layer.
pub data SendError : Type 0 where
  not_paid : String → SendError
  not_encoded : String → SendError
  not_sent : TransportError → SendError
  retries_exhausted : ℕ → TransportError → SendError
  session_not_found : String → SendError
  panics : SendError

-- What of the node a send reads and writes: `retry` holds the channel, its transport and the
-- counters of retries.
pub record Outbox (F T C S : Type 0) : Type 0 where
  pub payments : PaymentState C
  pub storage : S
  pub retry : RetryState (World F T)
  pub sessions : Sessions
  pub messages_published : ℕ
  pub tasks_sent : ℕ
  pub tasks_failed : ℕ

abbrev once : Result TransportError (ContentMessage × Bool) → Result SendError Bool
once (err e) = err (not_sent e)
once (ok (msg, acked)) = ok acked

abbrev retried : Outcome TransportError (ContentMessage × Bool) → Result SendError Bool
retried (sent (msg, acked)) = ok acked
retried (all_failed attempts e) = err (retries_exhausted attempts e)
retried panicked = err panics

-- The counters after a send; a panic passes them by.
unfoldable pub count_send :
    {F T C S : Type 0} → Result SendError Bool → Outbox F T C S → Outbox F T C S
count_send (ok acked) o = record o {
  messages_published = o.messages_published + 1;
  tasks_sent = o.tasks_sent + 1;
}
count_send (err panics) o = o
count_send (err _) o = record o {
  messages_published = o.messages_published + 1;
  tasks_failed = o.tasks_failed + 1;
}

abbrev pub note_in_session : String → String → Sessions → Sessions
note_in_session session_id task_id s = elim (Dict.lookup session_id s.sessions) [
  | none ↦ s
  | some session ↦ record s {
    sessions = Dict.insert session_id (note_sent task_id session) s.sessions;
  }
]

abbrev as_sent : Task → Result SendError Bool → Result SendError Task
as_sent task (err e) = err e
as_sent task (ok acked) = ok task

module _ {F T R C S : Type 0} (env : Env F) (tr : Transport T R) (chain : Chain C String)
    (lower : String → String) (payment : Option PaymentConfig) (api : PayloadApi S)
    (retry_config : Option RetryConfig) (draw : ℕ → ℕ) where
  -- The send itself, with the retry layer or without.
  unfoldable pub dispatch :
      String → Bytes → RetryState (World F T) → Result SendError Bool × RetryState (World F T)
  dispatch topic payload s = elim retry_config [
    | some cfg ↦
        let (r, s') = Retry.send_reliable cfg draw (send_reliable env tr topic payload) s in
        (retried r, s')
    | none ↦
        let (r, w) = send_reliable env tr topic payload s.world in (once r, record s { world = w })
  ]

  unfoldable pub send_payload :
      String → Bytes → Outbox F T C S → Result SendError Bool × Outbox F T C S
  send_payload topic payload o =
      let (r, s) = dispatch topic payload o.retry in (r, count_send r (record o { retry = s }))

  unfoldable pub send_prepared :
      Task → Option AgentCard → Outbox F T C S → Result SendError Bool × Outbox F T C S
  send_prepared task card o =
      let (prepared, storage) = prepare_payload api task card o.storage in
      elim prepared [
        | err e ↦ (err (not_encoded e), record o { storage = storage })
        | ok payload ↦ send_payload (task_topic task.to) payload (record o { storage = storage })
      ]

  unfoldable pub send_task_to :
      Task → Option AgentCard → Outbox F T C S → Result SendError Bool × Outbox F T C S
  send_task_to task card o =
      let (paid, payments) = maybe_auto_pay chain lower payment task o.payments in
      elim paid [
        | err e ↦ (err (not_paid e), record o { payments = payments })
        | ok paid_task ↦ send_prepared paid_task card (record o { payments = payments })
      ]

  abbrev pub send_task : Task → Outbox F T C S → Result SendError Bool × Outbox F T C S
  send_task task o = send_task_to task none o

  abbrev noted :
      String
      → Task
      → Result SendError Bool
      → Outbox F T C S
      → Result SendError Task × Outbox F T C S
  noted session_id task (err e) o = (err e, o)
  noted session_id task (ok acked) o =
      (ok task, record o { sessions = note_in_session session_id task.id o.sessions })

  unfoldable pub send_in_session :
      String → String → String → String → Outbox F T C S → Result SendError Task × Outbox F T C S
  send_in_session uuid pubkey session_id text o =
      elim (Dict.lookup session_id o.sessions.sessions) [
        | none ↦ (err (session_not_found session_id), o)
        | some session ↦
            let task = Task.new_in_session uuid pubkey session.peer text session_id in
            let (r, o') = send_task task o in noted session_id task r o'
      ]

  abbrev pub send_text :
      String → String → String → String → Outbox F T C S → Result SendError Task × Outbox F T C S
  send_text uuid pubkey to text o =
      let task = Task.new uuid pubkey to text in
      let (r, o') = send_task task o in (as_sent task r, o')
