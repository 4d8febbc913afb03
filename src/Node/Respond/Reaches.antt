-- ===== src/Node/Respond/Reaches.antt =====
-- A response of node/src/tasks/respond.rs reaches the task's sender and the responder's history.
use lmao.Prelude.{
  ◌≡◌, refl, sym, ◌∙◌, ◌+◌, ◌⊎◌, String, Bool, true, false, Option, none, some, inl, inr, ◌==◌,
  eq_iff, Bool-cases, if◌then◌else◌,
}
use lmao.Prelude.Result.{ok, err, Result-cases, err_not_ok}
use lmao.Transport.{Transport}
use lmao.Sds.Message.{Bytes}
use lmao.Task.{Task, task_topic}
use lmao.Node.Poll.{AgentCard, PollApi, extract_task}
use lmao.Node.Payload.{PayloadApi, prepare_payload}
use lmao.Node.Payload.Roundtrip.{WireLaws, extract_task-prepare_payload}
use lmao.Node.History.{HistoryEntry, Lines, append, get}
use lmao.Node.History.Lookup.{get-append}
use lmao.Node.Respond.{
  not_encoded, not_sent, Responder, Readings, response_to, received_entry, log_row,
  publish_response, published,
}

eq_self : (x : String) → (x == x) ≡ true
eq_self x = (eq_iff x x).1 refl

response_whole :
    (task : Task) (body : String) (failed : Bool)
    → (response_to task body failed).payload_cid ≡ none
response_whole task body true = refl
response_whole task body false = refl

response_topic :
    (task : Task) (body : String) (failed : Bool) → (response_to task body failed).to ≡ task.from
response_topic task body true = refl
response_topic task body false = refl

-- How the history after a row for an entry is related to the one before.
abbrev pub IsLogged : Readings → HistoryEntry → Option Lines → Option Lines → Type 0
IsLogged at entry before after =
    ((before ≡ none) × (after ≡ none))
    ⊎ ((log : Lines) × (log' : Lines) × (before ≡ some log)
        × (after ≡ some log')
        × (get entry.task_id log' ≡ (if at.log_writes then some entry else get entry.task_id log)))

log_row-IsLogged :
    (at : Readings) (entry : HistoryEntry) (before : Option Lines)
    → IsLogged at entry before (log_row at.log_writes entry before)
unfolding append
log_row-IsLogged at entry none = inl (refl, refl)
log_row-IsLogged at entry (some log) = inr (
  log,
  (append at.log_writes entry log).1,
  refl,
  refl,
  elim (Bool-cases at.log_writes) [
    | inl writes ↦
        rw writes
          ((get-append entry.task_id true entry log).0 refl ∙ rw (eq_self entry.task_id) refl)
    | inr fails ↦ rw fails refl
  ],
)

module _ {T R S : Type 0} (tr : Transport T R) (api : PayloadApi S) (poll : PollApi) where
  -- A response that was sent, of success or of failure, plain or encrypted, whole or through storage: the
  -- transport took one payload, on the topic of the task's sender, from which a poll of the sender
  -- extracts the response itself; it is counted; and a node that has a log has one afterwards, in which a
  -- lookup of the task's id finds the row of the response if the log took it, and what it found before if
  -- not; one that has none has none.
  pub publish_response-reaches :
      (at : Readings) (task : Task) (body : String) (card : Option AgentCard) (failed : Bool)
      (s : Responder T S)
      → WireLaws api poll card (response_to task body failed)
      → let (r, s') = publish_response tr api at task body card failed s in
        r ≡ ok tt
        → (payload : Bytes) × ((tr.publish (task_topic task.from) payload s.transport).0 ≡ ok tt)
          × (s'.transport ≡ (tr.publish (task_topic task.from) payload s.transport).1)
          × (extract_task poll payload ≡ ok (some (response_to task body failed)))
          × (s'.responses_sent ≡ s.responses_sent + 1)
          × IsLogged at (received_entry at s.peers task body failed) s.history s'.history
  unfolding publish_response append
  publish_response-reaches at task body card failed s laws h =
      let response = response_to task body failed in
      let topic = response_topic task body failed in
      elim (Result-cases (prepare_payload api response card s.storage).0) [
        | inr (e, lost) ↦
            let fails : (publish_response tr api at task body card failed s).0
                ≡ err (not_encoded e) =
              rw (lost, publish_response) refl in
            absurd (err_not_ok (not_encoded e) tt (sym fails ∙ h))
        | inl (payload, formed) ↦
            elim (Result-cases (tr.publish (task_topic response.to) payload s.transport).0) [
              | inr (e, refused) ↦
                  let fails : (publish_response tr api at task body card failed s).0
                      ≡ err (not_sent e) =
                    rw (formed, refused, publish_response) refl in
                  absurd (err_not_ok (not_sent e) tt (sym fails ∙ h))
              | inl (u, sent) ↦
                  let storage = (prepare_payload api response card s.storage).1 in
                  let arrived = (tr.publish (task_topic response.to) payload s.transport).1 in
                  let runs : publish_response tr api at task body card failed s
                      ≡ published tr api at task body failed (ok u)
                          (record s { storage = storage; transport = arrived }) =
                    rw (formed, sent, publish_response) refl in
                  (
                    payload,
                    rw (sym topic, sent) refl,
                    rw (runs, topic) refl,
                    extract_task-prepare_payload api poll card response laws s.storage payload
                        (response_whole task body failed) formed,
                    rw (runs) refl,
                    rw (runs) (
                        log_row-IsLogged at (received_entry at s.peers task body failed) s.history),
                  )
            ]
      ]
