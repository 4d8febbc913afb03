-- ===== src/Task.antt =====
-- crates/logos-messaging-a2a-core/src/task.rs: tasks and the responses that are built from them;
-- the topics of crates/logos-messaging-a2a-core/src/topics.rs. A fresh UUID is an argument.
use lmao.Prelude.{ℕ, String, Bool, Option, none, some, List, [], ◌∷◌}
use lmao.Transport.{concat}

pub data TaskState : Type 0 where
  submitted working input_required completed failed cancelled : TaskState

pub data Part : Type 0 where
  text_part : String → Part

pub record Message : Type 0 where
  pub role : String
  pub parts : List Part

pub record TaskStreamChunk : Type 0 where
  pub task_id : String
  pub chunk_index : ℕ
  pub text : String
  pub is_final : Bool

pub record Task : Type 0 where
  pub id : String
  pub from : String
  pub to : String
  pub state : TaskState
  pub message : Message
  pub result : Option Message
  pub session_id : Option String
  pub payload_cid : Option String
  pub payment_tx : Option String
  pub payment_amount : Option ℕ

abbrev pub new : String → String → String → String → Task
new uuid from to text = record {
  id = uuid;
  from = from;
  to = to;
  state = submitted;
  message = record { role = "user"; parts = text_part text ∷ [] };
  result = none;
  session_id = none;
  payload_cid = none;
  payment_tx = none;
  payment_amount = none;
}

abbrev pub new_in_session : String → String → String → String → String → Task
new_in_session uuid from to text session_id = record (new uuid from to text) {
  session_id = some session_id;
}

abbrev pub respond_with_state : String → TaskState → Task → Task
respond_with_state text state t = record {
  id = t.id;
  from = t.to;
  to = t.from;
  state = state;
  message = t.message;
  result = some (record { role = "agent"; parts = text_part text ∷ [] });
  session_id = t.session_id;
  payload_cid = none;
  payment_tx = none;
  payment_amount = none;
}

abbrev pub respond : String → Task → Task
respond text t = respond_with_state text completed t

abbrev pub respond_failed : String → Task → Task
respond_failed error_text t = respond_with_state error_text failed t

abbrev first_text : List Part → Option String
first_text [] = none
first_text (text_part text ∷ parts) = some text

abbrev pub text : Task → Option String
text t = first_text t.message.parts

abbrev pub result_text : Task → Option String
result_text t = elim t.result [ none ↦ none | some m ↦ first_text m.parts ]

abbrev pub task_topic : String → String
task_topic recipient_pubkey = concat "/lmao/1/task-" (concat recipient_pubkey "/proto")

abbrev pub stream_topic : String → String
stream_topic task_id = concat "/lmao/1/stream-" (concat task_id "/proto")
