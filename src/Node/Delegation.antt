-- ===== src/Node/Delegation.antt =====
-- How a subtask is sent and its answer awaited, in
-- crates/logos-messaging-a2a-node/src/delegation.rs. The node's other parts are the interface `NodeApi`.
pub mod Answers
use lmao.Prelude.{
  ℕ, zero, suc, ◌+◌, ◌%◌, ◌^◌, min, String, Bool, true, false, not, ◌&&◌, Option, none, some, List,
  [], ◌∷◌, map, ◌++◌, find, filter, length, eqb, ltb, ◌==◌, if◌then◌else◌, sort_by_key,
}
use lmao.Prelude.Result.{Result, ok, err}
use lmao.Trust.{TrustMode, TrustList, off, enforce, log, is_off, is_trusted, is_trusted_for}
use lmao.Task
use lmao.Task.{Task, TaskState, failed, task_topic}
use lmao.Node.Peers.{
  LoadBucket, free, busy, full, LoadStatus, PeerInfo, PeerMap, all_live, find_by_capability,
}
use lmao.Node.Selection.{
  DelegationStrategy, capability_match, DelegationRequest, DelegationResult, NodeError,
  direct_blocked, no_broadcast_peer, NodeState, effective_timeout, pick_peer, broadcast_peers,
}

-- What a delegation uses of the node: a fresh id, publishing a task under a topic, one round of
-- `poll_tasks`, the history log, and how many rounds fit into a number of seconds.
pub record NodeApi (S : Type 0) : Type 0 where
  pub new_uuid : S → String × S
  pub publish : String → Task → S → Result NodeError Unit × S
  pub poll_tasks : S → Result NodeError (List Task) × S
  pub record_history : DelegationResult → String → String → Option String → S → S
  pub rounds : ℕ → ℕ

abbrev is_failed : TaskState → Bool
is_failed failed = true
is_failed _ = false

abbrev pub capability_of : DelegationStrategy → String
capability_of (capability_match capability) = capability
capability_of _ = ""

abbrev pub subtask : String → String → String → DelegationRequest → Task
subtask uuid pubkey peer_id request = elim request.session_id [
  | none ↦ Task.new uuid pubkey peer_id request.subtask_text
  | some sid ↦
      if sid == ""
      then Task.new uuid pubkey peer_id request.subtask_text
      else Task.new_in_session uuid pubkey peer_id request.subtask_text sid
]

abbrev pub answer : DelegationRequest → String → String → Task → DelegationResult
answer request peer_id subtask_id received =
    let body = Task.result_text received in
    let success = not (is_failed received.state) in
    record {
      parent_task_id = request.parent_task_id;
      subtask_id = subtask_id;
      agent_id = peer_id;
      result_text = if success then body else none;
      success = success;
      error = if success then none else body;
    }

abbrev pub timed_out : DelegationRequest → String → String → DelegationResult
timed_out request peer_id subtask_id = record {
  parent_task_id = request.parent_task_id;
  subtask_id = subtask_id;
  agent_id = peer_id;
  result_text = none;
  success = false;
  error = some "delegation timed out";
}

module _ {S : Type 0} (api : NodeApi S) (pubkey : String) where
  -- The polling loop, over the rounds that are left.
  unfoldable pub await : ℕ → String → S → Result NodeError (Option Task) × S
  await zero subtask_id s = (ok none, s)
  await (suc left) subtask_id s =
      let (r, s') = api.poll_tasks s in
      elim r [
        | err e ↦ (err e, s')
        | ok tasks ↦ elim (find (λ t. t.id == subtask_id) tasks) [
          | some t ↦ (ok (some t), s')
          | none ↦ await left subtask_id s'
        ]
      ]

  abbrev finish : DelegationRequest → DelegationResult → S → Result NodeError DelegationResult × S
  finish request result s = (
    ok result,
    api.record_history result request.subtask_text (capability_of request.strategy)
        request.session_id s,
  )

  unfoldable pub delegate_to_peer :
      DelegationRequest → String → ℕ → S → Result NodeError DelegationResult × S
  delegate_to_peer request peer_id timeout_secs s =
      let (uuid, s1) = api.new_uuid s in
      let task = subtask uuid pubkey peer_id request in
      let (sent, s2) = api.publish (task_topic peer_id) task s1 in
      let (got, s3) = await (api.rounds timeout_secs) task.id s2 in
      elim sent [
        | err e ↦ (err e, s2)
        | ok _ ↦ elim got [
          | err e ↦ (err e, s3)
          | ok none ↦ finish request (timed_out request peer_id task.id) s3
          | ok (some received) ↦ finish request (answer request peer_id task.id received) s3
        ]
      ]

  unfoldable pub delegate_task :
      ℕ → DelegationRequest → NodeState × S → Result NodeError DelegationResult × (NodeState × S)
  delegate_task now request (n, s) =
      let (picked, n') = pick_peer now request.strategy n in
      elim picked [
        | err e ↦ (err e, (n', s))
        | ok peer_id ↦
            let (r, s') = delegate_to_peer request peer_id (effective_timeout request) s in
            (r, (record n' { delegations_sent = n'.delegations_sent + 1 }, s'))
      ]

  unfoldable pub delegate_direct :
      DelegationRequest
      → String
      → NodeState × S
      → Result NodeError DelegationResult × (NodeState × S)
  delegate_direct request peer_pubkey (n, s) =
      let (r, s') = delegate_to_peer request peer_pubkey (effective_timeout request) s in
      if is_trusted peer_pubkey n.trust
      then (r, (record n { delegations_sent = n.delegations_sent + 1 }, s'))
      else (err (direct_blocked peer_pubkey n.trust.mode), (n, s))

  -- An error of one peer becomes a result that failed.
  abbrev as_result :
      (NodeError → String)
      → DelegationRequest
      → String
      → Result NodeError DelegationResult
      → DelegationResult
  as_result show request peer_id (ok r) = r
  as_result show request peer_id (err e) = record {
    parent_task_id = request.parent_task_id;
    subtask_id = "";
    agent_id = peer_id;
    result_text = none;
    success = false;
    error = some (show e);
  }

  unfoldable pub delegate_each :
      (NodeError → String) → DelegationRequest → List String → S → List DelegationResult × S
  delegate_each show request [] s = ([], s)
  delegate_each show request (id ∷ ids) s =
      let (r, s') = delegate_to_peer request id (effective_timeout request) s in
      let (rest, s'') = delegate_each show request ids s' in
      (as_result show request id r ∷ rest, s'')

  -- `show` is an error's text.
  unfoldable pub delegate_broadcast :
      ℕ
      → (NodeError → String)
      → DelegationRequest
      → NodeState × S
      → Result NodeError (List DelegationResult) × (NodeState × S)
  delegate_broadcast now show request (n, s) = elim (broadcast_peers now request.strategy n) [
    | [] ↦ (err no_broadcast_peer, (n, s))
    | id ∷ ids ↦
        let (rs, s') = delegate_each show request (id ∷ ids) s in
        (ok rs, (record n { delegations_sent = n.delegations_sent + length (id ∷ ids) }, s'))
  ]
