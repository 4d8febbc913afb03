-- ===== src/Examples/Logging.antt =====
-- The history and the responses that it records at concrete inputs.
use lmao.Prelude.{ℕ, ◌+◌, ◌≡◌, refl, ◌↔◌, String, true, none, some, [], ◌∷◌, ◌++◌, length, Member}
use lmao.Prelude.Result.{ok}
use lmao.Sds.Message.{Bytes}
use lmao.Task
use lmao.Task.{Task, task_topic}
use lmao.Node.Poll.{extract_task}
use lmao.Node.Payload.{prepare_payload, maybe_encrypt_task, wire_form, offload}
use lmao.Node.History
use lmao.Node.History.{
  HistoryEntry, HistoryFilter, Lines, append, get, list, passes, cid_mark, extract_codex_cid,
}
use lmao.Node.History.Pages.{NewestFirst, list_pages}
use lmao.Node.Respond.{Responder, Readings, response_to, received_entry, publish_response}
use lmao.Node.Respond.Reaches.{IsLogged, publish_response-reaches}
use lmao.Examples.Outgoing.{silent}
use lmao.Examples.Posting.{sealed_post, card, post_office, post_laws}

abbrev row : String → ℕ → HistoryEntry
row id time = record {
  task_id = id;
  parent_id = "";
  created_at_ms = time;
  direction = "received";
  peer_pubkey = "02aa";
  peer_name = "";
  capability = "";
  text = "";
  body = "";
  cid = "";
  success = true;
  error = none;
  elapsed_ms = 0;
  session_id = "";
}

abbrev log : Lines
log = some (row "t1" 5) ∷ none ∷ some (row "t2" 9) ∷ some (row "t3" 2) ∷ []

abbrev recent : HistoryFilter
recent = record { direction = some "received"; capability = none; since_ms = some 3 }

list_pages_example :
    NewestFirst (list 1 0 recent log)
    × ((z : HistoryEntry)
        → Member z (list 1 0 recent log)
        → Member (some z) log × (passes recent z ≡ true))
    × (list 1 0 recent log ++ list 1 (0 + 1) recent log ≡ list (1 + 1) 0 recent log)
    × ((z : HistoryEntry)
        → Member z (list (length log) 0 recent log)
          ↔ (Member (some z) log × (passes recent z ≡ true)))
list_pages_example = list_pages 1 1 0 recent log

two_recent : list 9 0 recent log ≡ row "t2" 9 ∷ row "t1" 5 ∷ []
unfolding list History.read_entries History.newest_first History.insert_newest
two_recent = refl

abbrev job : Task
job = Task.new "t9" "02aa" "02me" "hello"

abbrev at_noon : Readings
at_noon = record { now_secs = 12; now_ms = 12000; elapsed_ms = 3; log_writes = true }

abbrev responder : Responder Unit Unit
responder = record {
  transport = tt;
  storage = tt;
  peers = [];
  history = some log;
  responses_sent = 1;
  messages_published = 4;
}

publish_response-reaches_example :
    let s' =
      (publish_response silent sealed_post at_noon job "no luck" (some card) true responder).1 in
    (payload : Bytes) × ((silent.publish (task_topic "02aa") payload tt).0 ≡ ok tt)
    × (s'.transport ≡ (silent.publish (task_topic "02aa") payload tt).1)
    × (extract_task (post_office (response_to job "no luck" true)) payload
        ≡ ok (some (response_to job "no luck" true)))
    × (s'.responses_sent ≡ 1 + 1)
    × IsLogged at_noon (received_entry at_noon [] job "no luck" true) (some log) s'.history
unfolding publish_response prepare_payload maybe_encrypt_task wire_form offload
publish_response-reaches_example =
    publish_response-reaches silent sealed_post (post_office (response_to job "no luck" true))
      at_noon job "no luck" (some card) true responder
      (post_laws (response_to job "no luck" true) refl) refl
