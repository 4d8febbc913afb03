-- ===== src/Agent.antt =====
-- crates/logos-messaging-a2a-cli/src/agent.rs: how `agent run` serves the tasks of one poll. The command
-- that is run is `exec`, of the task's text, session and sender; storage is `upload`; what a response
-- does to the node is `respond`, whose result is only printed. Printing is not modelled.
pub mod Inbox
use lmao.Prelude.{
  ℕ, ◌+◌, String, Bool, true, false, Option, none, some, List, [], ◌∷◌, leb, ◌==◌, if◌then◌else◌,
}
use lmao.Prelude.Result.{Result, ok, err}
use lmao.Transport.{concat}
use lmao.Task
use lmao.Task.{Task}
use lmao.Node.Load.{Load, load_inc, load_dec}

pub record ExecOutput : Type 0 where
  pub response : String
  pub log : String

pub record Agent (S : Type 0) : Type 0 where
  pub load : Load
  pub node : S

abbrev pub format_response : String → Option String → String
format_response answer none = answer
format_response answer (some cid) =
    concat (concat answer "\n\n---\nexecution log: ") (concat "codex://" cid)

abbrev pub reject_payload : String
reject_payload = "[rejected: at capacity, retry later]"

-- An empty session is not passed on.
abbrev pub exec_session : Option String → Option String
exec_session none = none
exec_session (some sid) = if sid == "" then none else some sid

module _ {S : Type 0} (exec : String → Option String → String → Result String ExecOutput)
    (upload : Option (String → S → Result String String × S))
    (respond : Task → String → Bool → S → S) where
  abbrev cid_of : Result String String → Option String
  cid_of (ok cid) = some cid
  cid_of (err e) = none

  unfoldable pub upload_log : String → S → Option String × S
  upload_log log s = elim upload [
    | none ↦ (none, s)
    | some up ↦ let (r, s') = up log s in if log == "" then (none, s) else (cid_of r, s')
  ]

  -- The response, whether it is a failure, and the state after an upload.
  unfoldable pub run_task : Task → String → S → String × Bool × S
  run_task task text s = elim (exec text (exec_session task.session_id) task.from) [
    | err e ↦ (concat "[error] " e, true, s)
    | ok out ↦ let (cid, s') = upload_log out.log s in (format_response out.response cid, false, s')
  ]

  unfoldable pub execute : Task → String → Agent S → Agent S
  execute task text a =
      let (response, failed, node) = run_task task text a.node in
      record { load = load_dec (load_inc a.load); node = respond task response failed node }

  abbrev pub reject : Task → Agent S → Agent S
  reject task a = record a { node = respond task reject_payload false a.node }

  unfoldable pub batch : ℕ → ℕ → List Task → Agent S → Agent S
  batch most accepted [] a = a
  batch most accepted (task ∷ tasks) a =
      let rejected = batch most accepted tasks (reject task a) in
      let skipped = batch most accepted tasks a in
      if leb most accepted then rejected else elim (Task.text task) [
        | none ↦ skipped
        | some text ↦ batch most (accepted + 1) tasks (execute task text a)
      ]

  -- The tasks of one poll.
  abbrev pub serve : List Task → Agent S → Agent S
  serve tasks a = batch a.load.max_concurrent 0 tasks a
