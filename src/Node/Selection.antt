-- ===== src/Node/Selection.antt =====
-- Which peer gets a subtask, in crates/logos-messaging-a2a-node/src/delegation.rs, with the types of
-- crates/logos-messaging-a2a-core/src/delegation.rs. An error stands for the text that the code formats,
-- with the same parameters.
pub mod Load
pub mod RoundRobin
use lmao.Prelude.{
  ℕ, zero, suc, ◌+◌, ◌%◌, ◌^◌, min, String, Bool, true, false, not, ◌&&◌, Option, none, some, List,
  [], ◌∷◌, map, ◌++◌, find, filter, length, eqb, ltb, ◌==◌, if◌then◌else◌, sort_by_key,
}
use lmao.Prelude.Result.{Result, ok, err}
use lmao.Trust.{TrustMode, TrustList, off, enforce, log, is_off, is_trusted, is_trusted_for}
use lmao.Task
use lmao.Task.{Task, TaskState, failed, task_topic}
use lmao.Node.Peers.{
  LoadBucket, free, busy, full, LoadStatus, PeerInfo, PeerMap, all_live, find_by_capability,
}

pub data DelegationStrategy : Type 0 where
  first_available broadcast_collect round_robin : DelegationStrategy
  capability_match : String → DelegationStrategy

pub record DelegationRequest : Type 0 where
  pub parent_task_id : String
  pub subtask_text : String
  pub strategy : DelegationStrategy
  pub timeout_secs : ℕ
  pub session_id : Option String

pub record DelegationResult : Type 0 where
  pub parent_task_id : String
  pub subtask_id : String
  pub agent_id : String
  pub result_text : Option String
  pub success : Bool
  pub error : Option String

pub data NodeError : Type 0 where
  all_untrusted : ℕ → Option String → NodeError
  no_live_peers : Option String → NodeError
  no_broadcast_peer : NodeError
  no_round_robin_peer : NodeError
  direct_blocked : String → TrustMode → NodeError
  other : String → NodeError

pub record NodeState : Type 0 where
  pub trust : TrustList
  pub peers : PeerMap
  pub round_robin_counter : ℕ
  pub delegations_sent : ℕ

abbrev pub default_delegation_timeout_secs : ℕ
default_delegation_timeout_secs = 30

abbrev pub effective_timeout : DelegationRequest → ℕ
effective_timeout request =
    if eqb request.timeout_secs 0 then default_delegation_timeout_secs else request.timeout_secs

abbrev bucket_rank : LoadBucket → ℕ
bucket_rank free = 0
bucket_rank busy = 1
bucket_rank full = 3

abbrev pub load_rank : String × PeerInfo → ℕ
load_rank (id, info) = elim info.load [ none ↦ 2 | some l ↦ bucket_rank l.bucket ]

abbrev pub no_trusted_peers_err : TrustMode → ℕ → Option String → NodeError
no_trusted_peers_err mode total_candidates capability =
    if ltb 0 total_candidates && not (is_off mode)
    then all_untrusted total_candidates capability
    else no_live_peers capability

abbrev pub found_or : NodeError → Option String → Result NodeError String
found_or e none = err e
found_or e (some id) = ok id

-- The first candidate that is allowed, in rising order of load.
unfoldable pub least_loaded : (String → Bool) → List (String × PeerInfo) → Option String
least_loaded allowed candidates = find allowed (map (λ x. x.0) (sort_by_key load_rank candidates))

-- `min().unwrap_or(2)` over the ranks
unfoldable pub best_rank : List (String × PeerInfo) → ℕ
best_rank [] = 2
best_rank (x ∷ []) = load_rank x
best_rank (x ∷ (y ∷ ys)) = let rest = best_rank (y ∷ ys) in min (load_rank x) rest

unfoldable pub rotation : NodeState → List (String × PeerInfo) → List String
rotation s live =
    filter (λ id. is_trusted id s.trust)
      (map (λ x. x.0) (filter (λ x. eqb (load_rank x) (best_rank live)) live))

unfoldable pub nth : ℕ → List String → Option String
nth n [] = none
nth zero (x ∷ xs) = some x
nth (suc n) (x ∷ xs) = nth n xs

-- The peer for a request; round robin moves its counter, one of 64 bits.
unfoldable pub pick_peer : ℕ → DelegationStrategy → NodeState → Result NodeError String × NodeState
pick_peer now first_available s =
    let live = all_live now s.peers in
    (
      found_or (no_trusted_peers_err s.trust.mode (length live) none)
          (least_loaded (λ id. is_trusted id s.trust) live),
      s,
    )
pick_peer now (capability_match capability) s =
    let candidates = find_by_capability now capability s.peers in
    (
      found_or (no_trusted_peers_err s.trust.mode (length candidates) (some capability))
          (least_loaded (λ id. is_trusted_for id capability s.trust) candidates),
      s,
    )
pick_peer now broadcast_collect s = (
  found_or no_broadcast_peer (least_loaded (λ id. is_trusted id s.trust) (all_live now s.peers)),
  s,
)
pick_peer now round_robin s = elim (rotation s (all_live now s.peers)) [
  | [] ↦ (err no_round_robin_peer, s)
  | x ∷ xs ↦ (
    found_or no_round_robin_peer (nth (s.round_robin_counter % length (x ∷ xs)) (x ∷ xs)),
    record s { round_robin_counter = (s.round_robin_counter + 1) % 2 ^ 64 },
  )
]

-- The peers of a broadcast.
unfoldable pub broadcast_peers : ℕ → DelegationStrategy → NodeState → List String
broadcast_peers now (capability_match capability) s =
    filter (λ id. is_trusted_for id capability s.trust)
      (map (λ x. x.0) (find_by_capability now capability s.peers))
broadcast_peers now first_available s =
    filter (λ id. is_trusted id s.trust) (map (λ x. x.0) (all_live now s.peers))
broadcast_peers now broadcast_collect s =
    filter (λ id. is_trusted id s.trust) (map (λ x. x.0) (all_live now s.peers))
broadcast_peers now round_robin s =
    filter (λ id. is_trusted id s.trust) (map (λ x. x.0) (all_live now s.peers))
