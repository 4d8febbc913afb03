-- ===== src/Node/Outgoing/Sent.antt =====
-- What sending a task in node/src/tasks/send.rs does to the counters and to sessions.
use lmao.Prelude.{
  ℕ, ◌+◌, ◌≤◌, ◌≡◌, refl, sym, ap, ◌∙◌, inl, inr, String, Bool, Option, none, some, arith, eq_iff,
}
use lmao.Prelude.Dict
use lmao.Prelude.Dict.{lookup-insert}
use lmao.Prelude.Result.{Result, ok, err, Result-cases}
use lmao.Transport.{Transport}
use lmao.Sds.State.{Env}
use lmao.Retry.{RetryConfig}
use lmao.Task
use lmao.Task.{Task, task_topic}
use lmao.Node.Poll.{AgentCard}
use lmao.Node.Payment.{Chain, PaymentConfig, maybe_auto_pay}
use lmao.Node.Payload.{PayloadApi, prepare_payload}
use lmao.Node.Session.{Session, Sessions, note_sent}
use lmao.Node.Outgoing.{
  SendError, not_paid, not_encoded, not_sent, retries_exhausted, session_not_found, panics, Outbox,
  dispatch, count_send, send_payload, send_prepared, send_task_to, note_in_session, send_in_session,
}

-- A message that is counted as published is counted as sent or as failed, and sessions stay.
abbrev pub Counted : {F T C S : Type 0} → Outbox F T C S → Outbox F T C S → Type 0
Counted o o' =
    (o'.messages_published + (o.tasks_sent + o.tasks_failed)
      ≡ o.messages_published + (o'.tasks_sent + o'.tasks_failed))
    × (o.messages_published ≤ o'.messages_published)
    × (o.tasks_sent ≤ o'.tasks_sent)
    × (o.tasks_failed ≤ o'.tasks_failed)
    × (o'.sessions ≡ o.sessions)

success_inj : (a b : Task) → ◌≡◌ {A = Result SendError Task} (ok a) (ok b) → a ≡ b
success_inj a b e = cc e

failure_no_success : (e : SendError) (a : Task) → ◌≡◌ {A = Result SendError Task} (err e) (ok a) → ⊥
failure_no_success e a h = cc h

module _ {F T R C S : Type 0} (env : Env F) (tr : Transport T R) (chain : Chain C String)
    (lower : String → String) (payment : Option PaymentConfig) (api : PayloadApi S)
    (retry_config : Option RetryConfig) (draw : ℕ → ℕ) where
  count_send-Counted : (r : Result SendError Bool) (o : Outbox F T C S) → Counted o (count_send r o)
  unfolding count_send
  count_send-Counted (ok acked) o = (omega arith, omega arith, omega arith, omega arith, refl)
  count_send-Counted (err panics) o = (refl, omega arith, omega arith, omega arith, refl)
  count_send-Counted (err (not_paid e)) o =
      (omega arith, omega arith, omega arith, omega arith, refl)
  count_send-Counted (err (not_encoded e)) o =
      (omega arith, omega arith, omega arith, omega arith, refl)
  count_send-Counted (err (not_sent e)) o =
      (omega arith, omega arith, omega arith, omega arith, refl)
  count_send-Counted (err (retries_exhausted n e)) o =
      (omega arith, omega arith, omega arith, omega arith, refl)
  count_send-Counted (err (session_not_found id)) o =
      (omega arith, omega arith, omega arith, omega arith, refl)

  send_prepared-Counted :
      (task : Task) (card : Option AgentCard) (o : Outbox F T C S)
      → Counted o (send_prepared env tr chain lower payment api retry_config draw task card o).1
  unfolding send_prepared send_payload
  send_prepared-Counted task card o =
      elim (Result-cases (prepare_payload api task card o.storage).0) [
        | inr (e, failed) ↦
            rw (failed, send_prepared) (refl, omega arith, omega arith, omega arith, refl)
        | inl (payload, formed) ↦
            let o' : Outbox F T C S = record o {
              storage = (prepare_payload api task card o.storage).1;
            } in
            rw (formed, send_prepared)
              (count_send-Counted
                (dispatch env tr chain lower payment api retry_config draw (task_topic task.to)
                  payload o.retry).0
                (record o' {
                  retry =
                      (dispatch env tr chain lower payment api retry_config draw
                        (task_topic task.to) payload o.retry).1;
                }))
      ]

  -- Whatever becomes of a send, each message that it counts as published is counted as a task that is
  -- sent or as one that failed, no counter goes back, and the sessions stay.
  send_task_to-Counted :
      (task : Task) (card : Option AgentCard) (o : Outbox F T C S)
      → Counted o (send_task_to env tr chain lower payment api retry_config draw task card o).1
  unfolding send_task_to
  send_task_to-Counted task card o =
      elim (Result-cases (maybe_auto_pay chain lower payment task o.payments).0) [
        | inr (e, failed) ↦
            rw (failed, send_task_to) (refl, omega arith, omega arith, omega arith, refl)
        | inl (paid, payed) ↦
            rw (payed, send_task_to)
              (send_prepared-Counted paid card
                (record o { payments = (maybe_auto_pay chain lower payment task o.payments).1 }))
      ]

  lookup-note_in_session :
      (session_id id : String) (session : Session) (s : Sessions)
      → Dict.lookup session_id s.sessions ≡ some session
      → Dict.lookup session_id (note_in_session session_id id s).sessions
        ≡ some (note_sent id session)
  lookup-note_in_session session_id id session s known =
      rw
        (
          known,
          note_in_session,
          lookup-insert session_id session_id (note_sent id session) s.sessions,
          (eq_iff session_id session_id).1 refl,
        )
        refl

  -- When a send in a known session succeeds, the session has the new task's id at the end of its ids, however many it had before, and its times are as before;
  -- when the send fails, the sessions are as before.
  pub send_in_session-sessions :
      (uuid pubkey session_id text : String) (session : Session) (o : Outbox F T C S)
      → Dict.lookup session_id o.sessions.sessions ≡ some session
      → let task = Task.new_in_session uuid pubkey session.peer text session_id in
        let (r, o') =
          send_in_session env tr chain lower payment api retry_config draw uuid pubkey session_id
            text o in
        ((sent : Task)
          → r ≡ ok sent
          → (sent ≡ task)
            × (Dict.lookup session_id o'.sessions.sessions ≡ some (note_sent uuid session)))
        × ((e : SendError) → r ≡ err e → o'.sessions ≡ o.sessions)
  unfolding send_in_session
  send_in_session-sessions uuid pubkey session_id text session o known =
      let task = Task.new_in_session uuid pubkey session.peer text session_id in
      let counted = send_task_to-Counted task none o in
      let same : (send_task_to env tr chain lower payment api retry_config draw task none
            o).1.sessions
          ≡ o.sessions =
        counted.4 in
      elim (Result-cases
        (send_task_to env tr chain lower payment api retry_config draw task none o).0) [
          | inr (e, failed) ↦
              rw (known, failed, send_in_session)
                (λ sent h. absurd (failure_no_success e sent h), λ e' h. same)
          | inl (acked, done) ↦
              rw (known, done, send_in_session)
                (
                  λ sent h. (
                    sym (success_inj task sent h),
                    lookup-note_in_session session_id uuid session
                        (send_task_to env tr chain lower payment api retry_config draw task none
                          o).1.sessions
                        (ap (λ (x : Sessions). Dict.lookup session_id x.sessions) same ∙ known),
                  ),
                  λ e h. absurd (failure_no_success e task (sym h)),
                )
        ]
