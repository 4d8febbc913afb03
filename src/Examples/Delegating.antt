-- ===== src/Examples/Delegating.antt =====
-- The theorems on live peers, delegation, streams and sessions at concrete inputs.
use lmao.Prelude.{
  ℕ, ◌+◌, ◌<◌, ◌≡◌, ◌≢◌, refl, String, Bool, true, false, none, some, List, [], ◌∷◌, find, length,
  arith,
}
use lmao.Prelude.Dict
use lmao.Prelude.Result.{ok}
use lmao.Trust.{TrustEntry, enforce, get, is_trusted}
use lmao.Task.{Task, TaskStreamChunk}
use lmao.Node.Peers
use lmao.Node.Peers.{
  PeerInfo, PeerMap, PresenceAnnouncement, LoadStatus, LoadBucket, free, busy, full, from_load,
  all_live, find_by_capability, evict_expired, update_with_load,
}
use lmao.Node.Peers.Eviction.{IsMap, evict_expired-queries}
use lmao.Node.Selection.{
  DelegationRequest, NodeState, first_available, round_robin, rotation, best_rank, nth, pick_peer,
}
use lmao.Node.Delegation.{NodeApi, delegate_to_peer}
use lmao.Node.Selection.Load.{candidates, allowed, IsLeastLoaded, pick_peer-IsLeastLoaded}
use lmao.Node.Selection.RoundRobin.{advance, round_robin_fair}
use lmao.Node.Delegation.Answers.{outgoing, reply, delegate_to_peer_answered}
use lmao.Node.Streaming.{chunks_from, chunks_of, merge_chunks, reassemble}
use lmao.Node.Streaming.Order.{at}
use lmao.Node.Streaming.Roundtrip.{stream_roundtrip}
use lmao.Node.Session.{Session}

abbrev status : LoadBucket → LoadStatus
status bucket = record { bucket = bucket; queue_depth = 0; max_concurrent = 1; avg_latency_ms = 0 }

abbrev info : ℕ → LoadBucket → PeerInfo
info ttl bucket = record {
  name = "peer";
  capabilities = "code" ∷ [];
  waku_topic = "topic";
  ttl_secs = ttl;
  last_seen = 100;
  load = some (status bucket);
}

-- At 120 the second has expired.
abbrev seen_peers : PeerMap
seen_peers = ("02aa", info 30 busy) ∷ ("02bb", info 10 free) ∷ ("02cc", info 30 free) ∷ []

abbrev announced : PresenceAnnouncement
announced = record {
  agent_id = "02dd";
  name = "dora";
  capabilities = [];
  waku_topic = "topic";
  ttl_secs = 30;
  sealed_status = [];
  signature = none;
}

evict_expired-queries_example :
    let (removed, left) = evict_expired 120 seen_peers in
    (Dict.lookup "02bb" left ≡ Peers.get 120 "02bb" seen_peers)
    × (Peers.get 120 "02bb" left ≡ Peers.get 120 "02bb" seen_peers)
    × (all_live 120 left ≡ all_live 120 seen_peers)
    × (find_by_capability 120 "code" left ≡ find_by_capability 120 "code" seen_peers)
    × IsMap left
    × (removed + length left ≡ length seen_peers)
unfolding Dict.lookup
evict_expired-queries_example =
    evict_expired-queries 120 "02bb" "code" seen_peers (refl, (refl, (refl, tt)))

abbrev trusted : String → String × TrustEntry
trusted key = (
  key,
  record {
    pubkey = key;
    nickname = key;
    capabilities = [];
    notes = none;
    encryption_pubkey = none;
    added_at = 0;
  },
)

-- Only the busy peer is trusted.
abbrev wary : NodeState
wary = record {
  trust = record { mode = enforce; entries = trusted "02aa" ∷ [] };
  peers = seen_peers;
  round_robin_counter = 0;
  delegations_sent = 0;
}

abbrev open_minded : NodeState
open_minded = record wary {
  trust = record { mode = enforce; entries = trusted "02bb" ∷ trusted "02cc" ∷ [] };
}

first_is_not_round_robin : first_available ≢ round_robin
first_is_not_round_robin h = cc h

pick_peer-IsLeastLoaded_example :
    let (r, s') = pick_peer 105 first_available wary in
    IsLeastLoaded (allowed first_available wary) (candidates 105 first_available wary) r
    × (s' ≡ wary)
pick_peer-IsLeastLoaded_example =
    pick_peer-IsLeastLoaded 105 first_available wary first_is_not_round_robin

not_trusted : false ≡ true → 0 < 0
not_trusted h = ground (arith, h)

round_robin_fair_example :
    (k : ℕ) × (k < 2)
    × (id : String) × (nth 1 ("02bb" ∷ "02cc" ∷ []) ≡ some id)
    × ((pick_peer 105 round_robin (advance 105 k open_minded)).0 ≡ ok id)
unfolding rotation all_live best_rank is_trusted get
round_robin_fair_example = round_robin_fair 105 1 open_minded (omega arith) (omega arith)

-- A node whose polls bring, first nothing, then the answer that the state holds.
abbrev scripted : NodeApi (List (List Task))
scripted = record {
  new_uuid = λ s. ("task-1", s);
  publish = λ topic t s. (ok tt, s);
  poll_tasks = λ s. elim s [ [] ↦ (ok [], []) | ts ∷ rest ↦ (ok ts, rest) ];
  record_history = λ r text capability session s. s;
  rounds = λ secs. secs + secs;
}

abbrev request : DelegationRequest
request = record {
  parent_task_id = "parent";
  subtask_text = "summarise";
  strategy = first_available;
  timeout_secs = 2;
  session_id = none;
}

abbrev answered : List (List Task)
answered = [] ∷ (reply true "done" (outgoing scripted "02me" request "02aa" []) ∷ []) ∷ []

delegate_to_peer_answered_example :
    (delegate_to_peer scripted "02me" request "02aa" 2 answered).0
    ≡ ok (record {
      parent_task_id = "parent";
      subtask_id = "task-1";
      agent_id = "02aa";
      result_text = some "done";
      success = true;
      error = none;
    })
delegate_to_peer_answered_example =
    delegate_to_peer_answered scripted "02me" "02aa" request 2 1 answered
      ((reply true "done" (outgoing scripted "02me" request "02aa" []) ∷ []) ∷ [])
      (reply true "done" (outgoing scripted "02me" request "02aa" []) ∷ []) true "done" refl
      (omega arith) ([], refl, refl, refl) refl refl

abbrev chunk : ℕ → String → Bool → TaskStreamChunk
chunk i text final = record { task_id = "task-1"; chunk_index = i; text = text; is_final = final }

out_of_order :
    (i : ℕ)
    → find (at i) (chunk 1 "b" true ∷ chunk 0 "a" false ∷ chunk 1 "b" true ∷ [])
      ≡ find (at i) (chunks_of "task-1" ("a" ∷ "b" ∷ []))
unfolding chunks_from
out_of_order i = ground arith

stream_roundtrip_example :
    (merge_chunks (chunk 1 "b" true ∷ []) (chunk 0 "a" false ∷ chunk 1 "b" true ∷ [])
      ≡ chunks_of "task-1" ("a" ∷ "b" ∷ []))
    × (reassemble (merge_chunks (chunk 1 "b" true ∷ []) (chunk 0 "a" false ∷ chunk 1 "b" true ∷ []))
        ≡ some "ab")
stream_roundtrip_example =
    stream_roundtrip "task-1" ("a" ∷ "b" ∷ []) (chunk 1 "b" true ∷ [])
      (chunk 0 "a" false ∷ chunk 1 "b" true ∷ []) (omega arith) (omega arith) (tt, tt) out_of_order

-- A gap before the final chunk goes unnoticed.
gap_unnoticed : reassemble (chunk 0 "a" false ∷ chunk 2 "c" true ∷ []) ≡ some "ac"
unfolding reassemble
gap_unnoticed = refl

abbrev talk : Session
talk = record { id = "s"; peer = "02aa"; task_ids = "t1" ∷ []; created_at = 100; last_seen = 100 }
