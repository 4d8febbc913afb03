-- ===== src/Node/History.antt =====
-- crates/logos-messaging-a2a-node/src/history.rs: the log of tasks; `extract_codex_cid` and the rows of
-- delegations of crates/logos-messaging-a2a-node/src/delegation.rs. The file is the list of its lines, a
-- line that is no entry being `none`; a read that fails is the state `none`. A write that fails leaves
-- the file as it was.
pub mod Pages
pub mod Lookup
pub mod Cid
use Prim.Native.Char.{Char, code}
use Prim.Native.String
use lmao.Prelude.{
  ℕ, ◌+◌, String, Bool, true, false, ◌&&◌, ◌||◌, Option, none, some, List, [], ◌∷◌, ◌++◌, take,
  drop, filter, ltb, leb, eqb, not, ◌==◌, if◌then◌else◌,
}
use lmao.Prelude.Result.{Result, ok, err}
use lmao.Prelude.Slices.{strip_prefix}
use lmao.Node.Peers
use lmao.Node.Peers.{PeerInfo, PeerMap}
use lmao.Node.Selection.{DelegationResult}

pub record HistoryEntry : Type 0 where
  pub task_id : String
  pub parent_id : String
  pub created_at_ms : ℕ
  pub direction : String
  pub peer_pubkey : String
  pub peer_name : String
  pub capability : String
  pub text : String
  pub body : String
  pub cid : String
  pub success : Bool
  pub error : Option String
  pub elapsed_ms : ℕ
  pub session_id : String

pub record HistoryFilter : Type 0 where
  pub direction : Option String
  pub capability : Option String
  pub since_ms : Option ℕ

abbrev pub Lines : Type 0
Lines = List (Option HistoryEntry)

-- `writes` says whether the file takes the line.
unfoldable pub append : Bool → HistoryEntry → Lines → Result String Unit × Lines
append writes entry log = if writes then (ok tt, log ++ some entry ∷ []) else (err "io", log)

abbrev same_text : String → Option String → Bool
same_text field none = true
same_text field (some wanted) = field == wanted

abbrev not_before : ℕ → Option ℕ → Bool
not_before created none = true
not_before created (some since) = leb since created

abbrev pub passes : HistoryFilter → HistoryEntry → Bool
passes f e =
    same_text e.direction f.direction
    && same_text e.capability f.capability
    && not_before e.created_at_ms f.since_ms

unfoldable pub read_entries : HistoryFilter → Lines → List HistoryEntry
read_entries f [] = []
read_entries f (none ∷ lines) = read_entries f lines
read_entries f (some e ∷ lines) =
    let rest = read_entries f lines in if passes f e then e ∷ rest else rest

-- `sort_by_key` with the key `Reverse(created_at_ms)`, which is stable
unfoldable pub insert_newest : HistoryEntry → List HistoryEntry → List HistoryEntry
insert_newest e [] = e ∷ []
insert_newest e (x ∷ xs) =
    let rest = insert_newest e xs in
    if leb x.created_at_ms e.created_at_ms then e ∷ (x ∷ xs) else x ∷ rest

unfoldable pub newest_first : List HistoryEntry → List HistoryEntry
newest_first [] = []
newest_first (e ∷ es) = insert_newest e (newest_first es)

-- A log that is not there yet has no lines.
unfoldable pub list : ℕ → ℕ → HistoryFilter → Lines → List HistoryEntry
list limit offset f log = take limit (drop offset (newest_first (read_entries f log)))

-- The last match wins.
unfoldable pub get_from : String → Option HistoryEntry → Lines → Option HistoryEntry
get_from task_id found [] = found
get_from task_id found (none ∷ lines) = get_from task_id found lines
get_from task_id found (some e ∷ lines) =
    get_from task_id (if e.task_id == task_id then some e else found) lines

unfoldable pub get : String → Lines → Option HistoryEntry
get task_id log = get_from task_id none log

-- What follows the first occurrence of a text.
unfoldable pub after_first : String → String → Option String
after_first mark String.[] = strip_prefix mark String.[]
after_first mark (String.◌∷◌ c cs) =
    let rest = after_first mark cs in
    elim (strip_prefix mark (String.◌∷◌ c cs)) [ none ↦ rest | some tail ↦ some tail ]

abbrev pub within : ℕ → ℕ → ℕ → Bool
within low high c = leb low c && leb c high

abbrev pub is_ascii_alphanumeric : Char → Bool
is_ascii_alphanumeric c = within 48 57 (code c) || within 65 90 (code c) || within 97 122 (code c)

unfoldable pub take_alphanumeric : String → String
take_alphanumeric String.[] = String.[]
take_alphanumeric (String.◌∷◌ c cs) =
    let rest = take_alphanumeric cs in
    if is_ascii_alphanumeric c then String.◌∷◌ c rest else String.[]

abbrev pub cid_mark : String
cid_mark = "codex://"

unfoldable pub extract_codex_cid : String → String
extract_codex_cid body = elim (after_first cid_mark body) [
  | none ↦ ""
  | some tail ↦ take_alphanumeric tail
]

abbrev pub or_empty : Option String → String
or_empty none = ""
or_empty (some s) = s

-- The name of a live peer.
abbrev pub peer_name_of : ℕ → String → PeerMap → String
peer_name_of now agent_id peers = elim (Peers.get now agent_id peers) [
  | none ↦ ""
  | some info ↦ info.name
]

-- The row of a finished delegation; `now` is in seconds, `now_ms` in milliseconds.
abbrev pub delegation_entry :
    ℕ → ℕ → ℕ → PeerMap → DelegationResult → String → String → Option String → HistoryEntry
delegation_entry now now_ms elapsed_ms peers result subtask_text capability session_id =
    let body = or_empty result.result_text in
    record {
      task_id = result.subtask_id;
      parent_id = result.parent_task_id;
      created_at_ms = now_ms;
      direction = "delegated";
      peer_pubkey = result.agent_id;
      peer_name = peer_name_of now result.agent_id peers;
      capability = capability;
      text = subtask_text;
      body = body;
      cid = extract_codex_cid body;
      success = result.success;
      error = result.error;
      elapsed_ms = elapsed_ms;
      session_id = or_empty session_id;
    }

-- A failure to write is ignored, and so is the lack of a log.
unfoldable pub record_delegation_history : Bool → HistoryEntry → Option Lines → Option Lines
record_delegation_history writes entry none = none
record_delegation_history writes entry (some log) = some (append writes entry log).1
