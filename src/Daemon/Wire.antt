-- ===== src/Daemon/Wire.antt =====
-- crates/logos-messaging-a2a-cli/src/daemon/server.rs: what requests name and what responses show of the
-- library's types. `lower` is `to_ascii_lowercase`.
use lmao.Prelude.{ℕ, min, String, Bool, true, false, Option, none, some, ◌==◌, if◌then◌else◌}
use lmao.Prelude.Result.{Result, ok, err}
use lmao.Transport.{concat}
use lmao.Task
use lmao.Task.{Task, TaskState, submitted, working, input_required, completed, failed, cancelled}
use lmao.Trust.{TrustMode, TrustEntry, off, enforce, log}
use lmao.Node.Peers.{PeerInfo}
use lmao.Node.Poll.{AgentCard}
use lmao.Node.Selection.{
  DelegationStrategy, DelegationResult, first_available, broadcast_collect, round_robin,
  capability_match,
}
use lmao.Daemon.Protocol.{
  AgentCardWire, PeerWire, TaskWire, TrustEntryWire, DelegationWire, load_wire,
}

abbrev pub mode_to_str : TrustMode → String
mode_to_str off = "off"
mode_to_str enforce = "enforce"
mode_to_str log = "log"

abbrev pub same_mode : TrustMode → TrustMode → Bool
same_mode a b = mode_to_str a == mode_to_str b

abbrev pub parse_trust_mode : (String → String) → String → Result String TrustMode
parse_trust_mode lower s =
    let other = lower s in
    if other == "off"
    then ok off
    else if other == "enforce"
    then ok enforce
    else if other == "log"
    then ok log
    else err (concat "unknown trust mode: " (concat other " (expected off|enforce|log)"))

abbrev by_capability : Option String → DelegationStrategy
by_capability none = first_available
by_capability (some c) = capability_match c

abbrev named : Option String → Option String → DelegationStrategy
named none capability = by_capability capability
named (some s) capability =
    if s == "round-robin"
    then round_robin
    else if s == "broadcast"
    then broadcast_collect
    else if s == "first-available"
    then first_available
    else by_capability capability

abbrev pub build_strategy : Option String → Option String → Option String → DelegationStrategy
build_strategy (some to) capability strategy_name = first_available
build_strategy none capability strategy_name = named strategy_name capability

abbrev pub is_some : {A : Type 0} → Option A → Bool
is_some none = false
is_some (some a) = true

abbrev pub card_wire : AgentCard → AgentCardWire
card_wire c = record {
  name = c.name;
  description = c.description;
  version = c.version;
  capabilities = c.capabilities;
  public_key = c.public_key;
  has_intro_bundle = is_some c.intro_bundle;
}

abbrev pub peer_wire : ℕ → String × PeerInfo → PeerWire
peer_wire now_secs (id, info) = record {
  agent_id = id;
  name = info.name;
  capabilities = info.capabilities;
  waku_topic = info.waku_topic;
  last_seen_secs = min info.last_seen now_secs;
  ttl_secs = info.ttl_secs;
  load = elim info.load [ none ↦ none | some l ↦ some (load_wire l) ];
}

-- `{:?}` of a state.
abbrev state_name : TaskState → String
state_name submitted = "Submitted"
state_name working = "Working"
state_name input_required = "InputRequired"
state_name completed = "Completed"
state_name failed = "Failed"
state_name cancelled = "Cancelled"

abbrev pub task_wire : Task → TaskWire
task_wire t = record {
  id = t.id;
  state = state_name t.state;
  from = t.from;
  to = t.to;
  text = Task.text t;
  result_text = Task.result_text t;
}

abbrev pub trust_wire : TrustEntry → TrustEntryWire
trust_wire e = record {
  pubkey = e.pubkey;
  nickname = e.nickname;
  capabilities = e.capabilities;
  notes = e.notes;
}

abbrev pub delegation_wire : DelegationResult → DelegationWire
delegation_wire r = record {
  parent_task_id = r.parent_task_id;
  subtask_id = r.subtask_id;
  agent_id = r.agent_id;
  success = r.success;
  result_text = r.result_text;
  error = r.error;
}
