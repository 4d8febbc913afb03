-- ===== src/Agent/Inbox.antt =====
-- Which tasks of a poll `agent run` of cli/src/agent.rs executes, and what becomes of the others.
use lmao.Prelude.{
  ℕ, zero, suc, ◌+◌, ◌≡◌, refl, sym, ap, subst, ◌∙◌, String, Bool, true, false, Option, none, some,
  List, [], ◌∷◌, All, leb, lt→leb, take, drop, arith,
}
use lmao.Prelude.Result.{Result}
use lmao.Transport.{concat}
use lmao.Task
use lmao.Task.{Task}
use lmao.Node.Load.{Load, load_inc, load_dec}
use lmao.Node.Selection.{DelegationRequest}
use lmao.Node.Delegation.{answer}
use lmao.Node.Respond.{response_to}
use lmao.Node.History.{extract_codex_cid, cid_mark}
use lmao.Node.History.Cid.{IsAlphanumeric, IsClear, extract_codex_cid_first}
use lmao.Prelude.Slices.{concat-nil, concat-cons}
use lmao.Agent.{ExecOutput, Agent, format_response, reject_payload, execute, reject, batch, serve}

-- The text of a task that has one.
abbrev pub text_of : Task → String
text_of task = elim (Task.text task) [ none ↦ "" | some s ↦ s ]

abbrev pub HasText : Task → Type 0
HasText task = Task.text task ≡ some (text_of task)

abbrev pub each {ℓ} : {A : Type ℓ} {S : Type 0} → (A → S → S) → List A → S → S
each f [] s = s
each f (x ∷ xs) s = each f xs (f x s)

-- The responses that are sent, the latest first.
abbrev pub sent : Task → String → Bool → List Task → List Task
sent task body failed outbox = response_to task body failed ∷ outbox

module _ {S : Type 0} (exec : String → Option String → String → Result String ExecOutput)
    (upload : Option (String → S → Result String String × S))
    (respond : Task → String → Bool → S → S) where
  abbrev pub executed : List Task → Agent S → Agent S
  executed = each (λ task. execute exec upload respond task (text_of task))

  abbrev pub rejected : List Task → Agent S → Agent S
  rejected = each (reject exec upload respond)

  batch_full :
      (most accepted : ℕ) (tasks : List Task) (a : Agent S)
      → leb most accepted ≡ true
      → batch exec upload respond most accepted tasks a ≡ rejected tasks a
  unfolding batch
  batch_full most accepted [] a full = refl
  batch_full most accepted (task ∷ tasks) a full =
      rw full (batch_full most accepted tasks (reject exec upload respond task a) full)

  batch_split :
      (most accepted left : ℕ) (tasks : List Task) (a : Agent S)
      → accepted + left ≡ most
      → All HasText tasks
      → batch exec upload respond most accepted tasks a
        ≡ rejected (drop left tasks) (executed (take left tasks) a)
  unfolding batch
  batch_split most accepted zero tasks a e h = batch_full most accepted tasks a (ground (arith, e))
  batch_split most accepted (suc left) [] a e h = refl
  batch_split most accepted (suc left) (task ∷ tasks) a e (text, rest) =
      let room : leb most accepted ≡ false = lt→leb most accepted (omega (arith, e)) in
      rw (room, text)
        (batch_split most (accepted + 1) left tasks
          (execute exec upload respond task (text_of task) a) (omega (arith, e)) rest)

  predecessor-inc : (l : Load) → load_dec (load_inc l) ≡ l
  predecessor-inc l = let e : l.in_flight + 1 ≡ suc l.in_flight = omega arith in rw e refl

  executed-load : (tasks : List Task) (a : Agent S) → (executed tasks a).load ≡ a.load
  unfolding execute
  executed-load [] a = refl
  executed-load (task ∷ tasks) a =
      executed-load tasks (execute exec upload respond task (text_of task) a)
      ∙ predecessor-inc a.load

  rejected-load : (tasks : List Task) (a : Agent S) → (rejected tasks a).load ≡ a.load
  rejected-load [] a = refl
  rejected-load (task ∷ tasks) a = rejected-load tasks (reject exec upload respond task a)

  -- Of the tasks of one poll, each with a text, the agent executes the first ones, as many as it takes
  -- at a time, and then rejects all others; afterwards the counter of running tasks is what it was. A
  -- rejection sends one response, and an agent that delegated the task takes that response for the result
  -- of a success.
  pub serve-take-drop :
      (tasks : List Task) (a : Agent S)
      → All HasText tasks
      → let most = a.load.max_concurrent in
        (serve exec upload respond tasks a
          ≡ rejected (drop most tasks) (executed (take most tasks) a))
        × ((serve exec upload respond tasks a).load ≡ a.load)
        × ((task : Task) (outbox : Agent (List Task)) (request : DelegationRequest)
              (peer_id : String)
            → (response : Task) × ((reject exec none sent task outbox).node
                ≡ response ∷ outbox.node)
              × ((answer request peer_id task.id response).success ≡ true)
              × ((answer request peer_id task.id response).result_text ≡ some reject_payload))
  serve-take-drop tasks a h =
      let most = a.load.max_concurrent in
      let split = batch_split most 0 most tasks a (omega arith) h in
      (
        split,
        ap (λ (x : Agent S). x.load) split
            ∙ rejected-load (drop most tasks) (executed (take most tasks) a)
            ∙ executed-load (take most tasks) a,
        λ task outbox request peer_id. (Task.respond reject_payload task, refl, refl, refl),
      )

concat-end : (s : String) → concat s "" ≡ s
concat-end String.[] = concat-nil ""
concat-end (String.◌∷◌ c cs) = concat-cons c cs "" ∙ ap (String.◌∷◌ c) (concat-end cs)

-- The reference to the log that an agent appends to its answer is the one that the history of both
-- sides extracts, if the answer has no reference of its own and the log's address is letters and
-- digits.
pub extract_codex_cid-format_response :
    (reply cid : String)
    → IsClear (concat reply "\n\n---\nexecution log: ") (concat cid_mark cid)
    → IsAlphanumeric cid
    → extract_codex_cid (format_response reply (some cid)) ≡ cid
extract_codex_cid-format_response reply cid clear letters =
    let before = concat reply "\n\n---\nexecution log: " in
    let whole = ap (concat cid_mark) (concat-end cid) in
    ap (λ (t : String). extract_codex_cid (concat before t)) (sym whole)
    ∙ extract_codex_cid_first before cid ""
        (subst (λ (t : String). IsClear before t) (sym whole) clear) letters tt
