-- ===== src/Node/Session.antt =====
-- crates/logos-messaging-a2a-node/src/session.rs and the session methods of its lib.rs. The clock, in
-- seconds, and a fresh UUID are arguments.
pub mod Tasks
use lmao.Prelude.{
  ℕ, ◌+◌, ◌-◌, String, Bool, Option, none, some, List, [], ◌∷◌, ◌++◌, any, drop, filter, map,
  length, ltb, leb, ◌==◌, if◌then◌else◌,
}
use lmao.Prelude.Dict
use lmao.Prelude.Dict.{Dict}

pub record Session : Type 0 where
  pub id : String
  pub peer : String
  pub task_ids : List String
  pub created_at : ℕ
  pub last_seen : ℕ

abbrev pub max_task_ids : ℕ
max_task_ids = 64

abbrev pub new : String → ℕ → String → Session
new uuid now peer = record {
  id = uuid;
  peer = peer;
  task_ids = [];
  created_at = now;
  last_seen = now;
}

-- The ids after one is appended: the oldest beyond the ceiling go.
abbrev pub append_capped : String → List String → List String
append_capped task_id ids =
    let longer = ids ++ task_id ∷ [] in
    if ltb max_task_ids (length longer) then drop (length longer - max_task_ids) longer else longer

unfoldable pub push_task : ℕ → String → Session → Session
push_task now task_id s =
    let ids =
      if any (λ i. i == task_id) s.task_ids then s.task_ids else append_capped task_id s.task_ids in
    record s { task_ids = ids; last_seen = now }

pub record Sessions : Type 0 where
  pub sessions : Dict Session
  pub sessions_created : ℕ

abbrev pub create_session : String → ℕ → String → Sessions → Session × Sessions
create_session uuid now peer_pubkey s =
    let session = new uuid now peer_pubkey in
    (
      session,
      record {
        sessions = Dict.insert session.id session s.sessions;
        sessions_created = s.sessions_created + 1;
      },
    )

abbrev pub get_session : String → Sessions → Option Session
get_session session_id s = Dict.lookup session_id s.sessions

abbrev pub list_sessions : Sessions → List Session
list_sessions s = map (λ x. x.1) s.sessions

unfoldable pub evict_idle_sessions : ℕ → ℕ → Sessions → ℕ × Sessions
evict_idle_sessions now max_age_secs s =
    let left = filter (λ x. leb (now - x.1.last_seen) max_age_secs) s.sessions in
    (length s.sessions - length left, record s { sessions = left })

-- What `poll_tasks` does with a task that is in a session; an unknown session begins, under a fresh
-- id of its own that is not the key.
unfoldable pub track_task : String → ℕ → String → String → String → Sessions → Sessions
track_task uuid now session_id from task_id s = elim (Dict.lookup session_id s.sessions) [
  | some session ↦ record s {
    sessions = Dict.insert session_id (push_task now task_id session) s.sessions;
  }
  | none ↦ record {
    sessions = Dict.insert session_id (push_task now task_id (new uuid now from)) s.sessions;
    sessions_created = s.sessions_created + 1;
  }
]

-- What `send_in_session` does to its session when the task has been sent.
abbrev pub note_sent : String → Session → Session
note_sent task_id s = record s { task_ids = s.task_ids ++ task_id ∷ [] }
