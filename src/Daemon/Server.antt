-- ===== src/Daemon/Server.antt =====
-- crates/logos-messaging-a2a-cli/src/daemon/server.rs: what a request does. What the rest of the node does is the interface `NodeApi`, with an error as its text;
-- trust list, its file and history are those of `Trust`, `Trust.File` and `Node.History`. Readings of the
-- clock and the UUID of a task are arguments, `lower` is `to_ascii_lowercase`. Binding of the socket,
-- its permissions and log lines are not modelled.
pub mod Trusting
use lmao.Prelude.{
  ℕ, min, String, Bool, true, false, not, ◌&&◌, Option, none, some, List, [], ◌∷◌, map, filter,
  ◌==◌, eqb, if◌then◌else◌,
}
use lmao.Prelude.Result.{Result, ok, err}
use lmao.Transport.{concat}
use lmao.Sds.Message.{Bytes}
use lmao.Task
use lmao.Task.{Task}
use lmao.Trust
use lmao.Trust.{TrustMode, TrustEntry, TrustList, off, enforce, log, is_off, is_empty}
use lmao.Trust.File.{Files, Toml, FileError, save_to}
use lmao.Node.Peers.{LoadStatus, PeerInfo, PeerMap, find_by_capability, all_live}
use lmao.Node.Poll.{AgentCard}
use lmao.Node.Selection.{DelegationRequest, DelegationResult}
use lmao.Node.History
use lmao.Node.History.{Lines}
use lmao.Daemon.Protocol.{Request, Response, load_wire}
use lmao.Daemon.Wire.{
  mode_to_str, same_mode, parse_trust_mode, build_strategy, is_some, card_wire, peer_wire,
  task_wire, trust_wire, delegation_wire,
}

-- `toml` and `files` are what the trust file is printed and written with.
pub record NodeApi (N F : Type 0) : Type 0 where
  pub toml : Toml
  pub files : Files F
  pub pubkey : String
  pub capabilities : List String
  pub encryption_pubkey : Option String
  pub current_load_status : N → LoadStatus
  pub peers : N → PeerMap
  pub discover : N → Result String (List AgentCard) × N
  pub poll_presence : N → Result String ℕ × N
  pub send_task : Task → N → Result String Bool × N
  pub poll_tasks : TrustList → N → Result String (List Task) × N
  pub delegate_direct :
      TrustList → DelegationRequest → String → N → Result String DelegationResult × N
  pub delegate_broadcast :
      TrustList → DelegationRequest → N → Result String (List DelegationResult) × N
  pub delegate_task : TrustList → DelegationRequest → N → Result String DelegationResult × N

pub record DaemonServer : Type 0 where
  pub socket_path : String
  pub name : String
  pub trust_file : Option String
  pub history_path : String
  pub download : Option (String → Result String Bytes)

-- `disk` is the file system.
pub record Daemon (N F : Type 0) : Type 0 where
  pub node : N
  pub trust : TrustList
  pub history : Option Lines
  pub disk : F
  pub stopping : Bool

pub record Readings : Type 0 where
  pub uuid : String
  pub now_secs : ℕ
  pub uptime_secs : ℕ

-- The first peer of a list that is off turns enforcement on.
abbrev pub trusting : TrustEntry → TrustList → TrustList
trusting e l =
    Trust.add e (if is_off l.mode && is_empty l.entries then Trust.set_mode enforce l else l)

-- By public key, else by nickname.
abbrev pub trust_remove : String → TrustList → Option TrustEntry × TrustList
trust_remove target l =
    let (dropped, l') = Trust.remove target l in
    elim dropped [ some e ↦ (some e, l') | none ↦ Trust.remove_by_nickname target l' ]

module _ {N F : Type 0} (api : NodeApi N F) (lower : String → String)
    (base64_encode : Bytes → String) (server : DaemonServer) (at : Readings) where
  abbrev of_node :
      {A : Type 0}
      → (A → Response)
      → Result String A × N
      → Daemon N F
      → Result String Response × Daemon N F
  of_node f (err e, node) d = (err e, record d { node = node })
  of_node f (ok a, node) d = (ok (f a), record d { node = node })

  abbrev pub trust_save_to : String → Daemon N F → Result FileError Unit × Daemon N F
  trust_save_to path d =
      let (r, disk) = save_to api.toml api.files path d.trust d.disk in
      (r, record d { disk = disk })

  abbrev pub is_saved : Result FileError Unit → Bool
  is_saved (ok _) = true
  is_saved (err e) = false

  -- Whether the trust list was written to the file.
  unfoldable pub persist_trust : Daemon N F → Bool × Daemon N F
  persist_trust d = elim server.trust_file [
    | none ↦ (false, d)
    | some path ↦ let (r, d') = trust_save_to path d in (is_saved r, d')
  ]

  abbrev live_peers : Option String → N → List (String × PeerInfo)
  live_peers none node = all_live at.now_secs (api.peers node)
  live_peers (some capability) node = find_by_capability at.now_secs capability (api.peers node)

  abbrev presence_peers : Option String → Daemon N F → Result String Response × Daemon N F
  presence_peers capability d =
      let (r, node) = api.poll_presence d.node in
      of_node
        (λ count.
          Response.presence_peers (map (peer_wire at.now_secs) (live_peers capability node)))
        (r, node) d

  abbrev delegate :
      Option String → DelegationRequest → Bool → Daemon N F → Result String Response × Daemon N F
  delegate (some to) request true d = (
    ok (
        Response.error
          "--broadcast cannot be combined with --to (direct delegation targets a single peer)"),
    d,
  )
  delegate (some to) request false d =
      of_node (λ r. Response.task_delegate (delegation_wire r ∷ []))
        (api.delegate_direct d.trust request to d.node) d
  delegate none request true d =
      of_node (λ rs. Response.task_delegate (map delegation_wire rs))
        (api.delegate_broadcast d.trust request d.node) d
  delegate none request false d =
      of_node (λ r. Response.task_delegate (delegation_wire r ∷ []))
        (api.delegate_task d.trust request d.node) d

  abbrev storage_fetch : String → Result String Response
  storage_fetch cid = elim server.download [
    | none ↦ err "daemon has no storage backend configured"
    | some download ↦ elim (download cid) [
      | err e ↦ err (concat "downloading " (concat cid " from storage"))
      | ok bytes ↦ ok (Response.storage_fetch cid (base64_encode bytes))
    ]
  ]

  abbrev pub removed :
      String → Option TrustEntry × TrustList → Daemon N F → Result String Response × Daemon N F
  removed target (none, l) d = (err (concat "no entry matched " target), record d { trust = l })
  removed target (some e, l) d =
      let (persisted, d') = persist_trust (record d { trust = l }) in
      (ok (Response.trust_remove e.pubkey e.nickname persisted), d')

  abbrev wanted_mode : Option String → TrustMode → Result String TrustMode
  wanted_mode none previous = ok previous
  wanted_mode (some s) previous = parse_trust_mode lower s

  abbrev pub switched :
      TrustMode → Result String TrustMode → Daemon N F → Result String Response × Daemon N F
  switched previous (err e) d = (err e, d)
  switched previous (ok next) d =
      let (persisted, d') = persist_trust (record d { trust = Trust.set_mode next d.trust }) in
      if same_mode next previous
      then (ok (Response.trust_mode (mode_to_str previous) (mode_to_str next) false), d)
      else (ok (Response.trust_mode (mode_to_str previous) (mode_to_str next) persisted), d')

  abbrev or_default : ℕ → Option ℕ → ℕ
  or_default default none = default
  or_default default (some n) = n

  abbrev rows : ℕ → ℕ → Option String → Option String → Option ℕ → Option Lines → Response
  rows limit offset direction capability since_ms none = Response.task_history_list [] none
  rows limit offset direction capability since_ms (some history) =
      Response.task_history_list
        (History.list limit offset
          (record { direction = direction; capability = capability; since_ms = since_ms }) history)
        (some server.history_path)

  abbrev row : String → Option Lines → Response
  row task_id none = Response.task_history_get none
  row task_id (some history) = Response.task_history_get (History.get task_id history)

  unfoldable pub dispatch : Request → Daemon N F → Result String Response × Daemon N F
  dispatch Request.info d = (
    ok (
        Response.info server.name api.pubkey api.capabilities at.uptime_secs server.socket_path
          (is_some server.download) api.encryption_pubkey
          (some (load_wire (api.current_load_status d.node)))),
    d,
  )
  dispatch Request.discover d =
      of_node (λ cards. Response.discover (map card_wire cards)) (api.discover d.node) d
  dispatch (Request.presence_peers capability) d = presence_peers capability d
  dispatch (Request.task_send to text) d =
      let task = Task.new at.uuid api.pubkey to text in
      of_node (λ acked. Response.task_send task.id api.pubkey acked) (api.send_task task d.node) d
  dispatch (Request.task_status id) d =
      of_node
        (λ (tasks : List Task).
          Response.task_status (map task_wire (filter (λ t. t.id == id) tasks)))
        (api.poll_tasks d.trust d.node) d
  dispatch
        (Request.task_delegate to capability text parent_id timeout_secs broadcast strategy
          session_id)
        d =
      delegate to
        (record {
          parent_task_id = parent_id;
          subtask_text = text;
          strategy = build_strategy to capability strategy;
          timeout_secs = timeout_secs;
          session_id = session_id;
        })
        broadcast d
  dispatch (Request.storage_fetch cid) d = (storage_fetch cid, d)
  dispatch Request.trust_list d = (
    ok (
        Response.trust_list (mode_to_str d.trust.mode) (map (λ x. trust_wire x.1) d.trust.entries)
          server.trust_file),
    d,
  )
  dispatch (Request.trust_add pubkey nickname capabilities notes encryption_pubkey) d =
      let (persisted, d') = persist_trust (record d {
        trust =
            trusting
              (record {
                pubkey = pubkey;
                nickname = nickname;
                capabilities = capabilities;
                notes = notes;
                encryption_pubkey = encryption_pubkey;
                added_at = at.now_secs;
              })
              d.trust;
      }) in
      (ok (Response.trust_add pubkey nickname persisted), d')
  dispatch (Request.trust_remove target) d = removed target (trust_remove target d.trust) d
  dispatch (Request.trust_mode mode) d = switched d.trust.mode (wanted_mode mode d.trust.mode) d
  dispatch (Request.task_history_list limit offset direction capability since_ms) d = (
    ok (
        rows (min (or_default 100 limit) 10000) (or_default 0 offset) direction capability since_ms
          d.history),
    d,
  )
  dispatch (Request.task_history_get task_id) d = (ok (row task_id d.history), d)
  dispatch Request.shutdown d = (ok Response.shutdown_ack, record d { stopping = true })
