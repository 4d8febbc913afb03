-- ===== src/Node/Delegation/Answers.antt =====
-- `delegate_to_peer` of node/src/delegation.rs against the responses of core/src/task.rs: what a
-- requester gets of a peer's answer.
use lmao.Prelude.{
  ℕ, zero, suc, ◌<◌, ◌≡◌, refl, String, Bool, true, false, none, some, List, find, arith,
  if◌then◌else◌, ◌==◌,
}
use lmao.Prelude.Result.{Result, ok}
use lmao.Task
use lmao.Task.{Task, task_topic}
use lmao.Node.Selection.{NodeError, DelegationRequest}
use lmao.Node.Delegation.{NodeApi, subtask, timed_out, await, delegate_to_peer}

-- The response of a peer whose run succeeded or failed.
abbrev pub reply : Bool → String → Task → Task
reply true body t = Task.respond body t
reply false body t = Task.respond_failed body t

module _ {S : Type 0} (api : NodeApi S) where
  -- `k` polls in a row bring no task with the id, and lead from `s` to `s'`.
  abbrev pub Quiet : String → ℕ → S → S → Type 0
  Quiet id zero s s' = s ≡ s'
  Quiet id (suc k) s s' =
      (tasks : List Task) × ((api.poll_tasks s).0 ≡ ok tasks)
      × (find (λ t. t.id == id) tasks ≡ none)
      × Quiet id k (api.poll_tasks s).1 s'

  await_finds :
      (pubkey id : String) (k left : ℕ) (s s' : S) (tasks : List Task) (received : Task)
      → k < left
      → Quiet id k s s'
      → (api.poll_tasks s').0 ≡ ok tasks
      → find (λ t. t.id == id) tasks ≡ some received
      → (await api pubkey left id s).0 ≡ ok (some received)
  unfolding await
  await_finds pubkey id k zero s s' tasks received room quiet polled found = absurd (omega arith)
  await_finds pubkey id zero (suc left) s s' tasks received room quiet polled found =
      let polled' : (api.poll_tasks s).0 ≡ ok tasks = rw quiet polled in
      rw (polled', found, await) refl
  await_finds pubkey id (suc k) (suc left) s s' tasks received room (none_here, e, f, quiet) polled
        found =
      rw (e, f, await)
        (await_finds pubkey id k left (api.poll_tasks s).1 s' tasks received (omega arith) quiet
          polled found)

  await_times_out :
      (pubkey id : String) (left : ℕ) (s s' : S)
      → Quiet id left s s'
      → (await api pubkey left id s).0 ≡ ok none
  unfolding await
  await_times_out pubkey id zero s s' quiet = refl
  await_times_out pubkey id (suc left) s s' (tasks, e, f, quiet) =
      rw (e, f, await) (await_times_out pubkey id left (api.poll_tasks s).1 s' quiet)

  -- The task that goes out, and the state after publishing it.
  abbrev pub outgoing : String → DelegationRequest → String → S → Task
  outgoing pubkey request peer_id s = subtask (api.new_uuid s).0 pubkey peer_id request

  abbrev pub published : String → DelegationRequest → String → S → Result NodeError Unit × S
  published pubkey request peer_id s =
      api.publish (task_topic peer_id) (outgoing pubkey request peer_id s) (api.new_uuid s).1

  -- A peer that answers the published task within the rounds of polling that fit the timeout, all
  -- of which succeed, is heard: the body of a success comes back as the result, that of a failure
  -- as the error, under the ids of the request.
  pub delegate_to_peer_answered :
      (pubkey peer_id : String) (request : DelegationRequest) (timeout_secs k : ℕ) (s s' : S)
      (tasks : List Task) (succeeded : Bool) (body : String)
      → (published pubkey request peer_id s).0 ≡ ok tt
      → k < api.rounds timeout_secs
      → Quiet (outgoing pubkey request peer_id s).id k (published pubkey request peer_id s).1 s'
      → (api.poll_tasks s').0 ≡ ok tasks
      → find (λ t. t.id == (outgoing pubkey request peer_id s).id) tasks
        ≡ some (reply succeeded body (outgoing pubkey request peer_id s))
      → (delegate_to_peer api pubkey request peer_id timeout_secs s).0
        ≡ ok (record {
          parent_task_id = request.parent_task_id;
          subtask_id = (outgoing pubkey request peer_id s).id;
          agent_id = peer_id;
          result_text = if succeeded then some body else none;
          success = succeeded;
          error = if succeeded then none else some body;
        })
  unfolding delegate_to_peer
  delegate_to_peer_answered pubkey peer_id request timeout_secs k s s' tasks true body sent room
        quiet polled found =
      rw
        (
          sent,
          await_finds pubkey (outgoing pubkey request peer_id s).id k (api.rounds timeout_secs) _ s'
              tasks _ room quiet polled found,
          delegate_to_peer,
        )
        refl
  delegate_to_peer_answered pubkey peer_id request timeout_secs k s s' tasks false body sent room
        quiet polled found =
      rw
        (
          sent,
          await_finds pubkey (outgoing pubkey request peer_id s).id k (api.rounds timeout_secs) _ s'
              tasks _ room quiet polled found,
          delegate_to_peer,
        )
        refl

  -- If the task was published and no round brings an answer, the delegation ends as a result that
  -- failed by timeout, not as an error.
  delegate_to_peer_times_out :
      (pubkey peer_id : String) (request : DelegationRequest) (timeout_secs : ℕ) (s s' : S)
      → (published pubkey request peer_id s).0 ≡ ok tt
      → Quiet
          (outgoing pubkey request peer_id s).id
          (api.rounds timeout_secs)
          (published pubkey request peer_id s).1
          s'
      → (delegate_to_peer api pubkey request peer_id timeout_secs s).0
        ≡ ok (timed_out request peer_id (outgoing pubkey request peer_id s).id)
  unfolding delegate_to_peer
  delegate_to_peer_times_out pubkey peer_id request timeout_secs s s' sent quiet =
      rw
        (
          sent,
          await_times_out pubkey (outgoing pubkey request peer_id s).id (api.rounds timeout_secs) _
              s' quiet,
          delegate_to_peer,
        )
        refl
