-- ===== src/Daemon/Protocol.antt =====
-- crates/logos-messaging-a2a-cli/src/daemon/protocol.rs: requests, responses and what of the library's
-- types they carry. Paths are texts.
use lmao.Prelude.{ℕ, String, Bool, Option, List}
use lmao.Node.Peers.{LoadBucket, LoadStatus, free, busy, full}
use lmao.Node.History.{HistoryEntry}

pub data Request : Type 0 where
  info : Request
  discover : Request
  presence_peers : Option String → Request
  task_send : String → String → Request
  task_status : String → Request
  task_delegate :
      (to capability : Option String) (text parent_id : String) (timeout_secs : ℕ)
      (broadcast : Bool) (strategy session_id : Option String)
      → Request
  storage_fetch : String → Request
  trust_list : Request
  trust_add :
      (pubkey nickname : String) (capabilities : List String)
      (notes encryption_pubkey : Option String)
      → Request
  trust_remove : String → Request
  trust_mode : Option String → Request
  task_history_list :
      (limit offset : Option ℕ) (direction capability : Option String) (since_ms : Option ℕ)
      → Request
  task_history_get : String → Request
  shutdown : Request

pub record AgentCardWire : Type 0 where
  pub name : String
  pub description : String
  pub version : String
  pub capabilities : List String
  pub public_key : String
  pub has_intro_bundle : Bool

pub record LoadStatusWire : Type 0 where
  pub bucket : String
  pub queue_depth : ℕ
  pub max_concurrent : ℕ
  pub avg_latency_ms : ℕ

abbrev bucket_name : LoadBucket → String
bucket_name free = "free"
bucket_name busy = "busy"
bucket_name full = "full"

abbrev pub load_wire : LoadStatus → LoadStatusWire
load_wire s = record {
  bucket = bucket_name s.bucket;
  queue_depth = s.queue_depth;
  max_concurrent = s.max_concurrent;
  avg_latency_ms = s.avg_latency_ms;
}

pub record PeerWire : Type 0 where
  pub agent_id : String
  pub name : String
  pub capabilities : List String
  pub waku_topic : String
  pub last_seen_secs : ℕ
  pub ttl_secs : ℕ
  pub load : Option LoadStatusWire

pub record TaskWire : Type 0 where
  pub id : String
  pub state : String
  pub from : String
  pub to : String
  pub text : Option String
  pub result_text : Option String

pub record TrustEntryWire : Type 0 where
  pub pubkey : String
  pub nickname : String
  pub capabilities : List String
  pub notes : Option String

pub record DelegationWire : Type 0 where
  pub parent_task_id : String
  pub subtask_id : String
  pub agent_id : String
  pub success : Bool
  pub result_text : Option String
  pub error : Option String

-- A row of the history is carried with all its fields.
pub data Response : Type 0 where
  info :
      (name pubkey : String) (capabilities : List String) (uptime_secs : ℕ) (socket_path : String)
      (storage_enabled : Bool) (encryption_pubkey : Option String) (load : Option LoadStatusWire)
      → Response
  discover : List AgentCardWire → Response
  presence_peers : List PeerWire → Response
  task_send : (task_id from : String) (acked : Bool) → Response
  task_status : List TaskWire → Response
  task_delegate : List DelegationWire → Response
  storage_fetch : (cid payload_b64 : String) → Response
  trust_list :
      (mode : String) (entries : List TrustEntryWire) (trust_file : Option String) → Response
  trust_add : (pubkey nickname : String) (persisted : Bool) → Response
  trust_remove : (pubkey nickname : String) (persisted : Bool) → Response
  trust_mode : (previous current : String) (persisted : Bool) → Response
  task_history_list : (entries : List HistoryEntry) (history_path : Option String) → Response
  task_history_get : Option HistoryEntry → Response
  shutdown_ack : Response
  error : String → Response
