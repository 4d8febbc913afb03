-- ===== src/Examples/Serving.antt =====
-- A daemon and its client at concrete inputs.
use lmao.Prelude.{
  ◌≡◌, ◌≤◌, ◌<◌, ◌++◌, refl, String, Bool, true, false, Option, none, some, [], ◌∷◌, ◌==◌,
  if◌then◌else◌, arith,
}
use lmao.Prelude.Result.{Result, ok, err}
use lmao.Sds.Message.{Bytes}
use lmao.Trust
use lmao.Trust.Invariant.{start}
use lmao.Trust.File.{save_to, to_toml_string}
use lmao.Examples.Disk.{toy_toml, one_file, toy-FileLaws}
use lmao.Trust.{TrustEntry, off, is_trusted, get}
use lmao.Node.Peers.{LoadStatus, free}
use lmao.Daemon.Frame.{too_large, max_frame_bytes, read_frame, write_frame}
use lmao.Daemon.Frame.Roundtrip.{read_frame-write_frame}
use lmao.Daemon.Protocol.{Request, Response}
use lmao.Daemon.Server.{NodeApi, DaemonServer, Daemon, Readings, persist_trust, dispatch}
use lmao.Daemon.Server.Trusting.{IsPersisted, dispatch-trust_add}
use lmao.Daemon.Connection.{daemon_error, handle_connection, send}
use lmao.Daemon.Connection.Exchange.{send-dispatch}

read_frame-write_frame_example :
    let (r, stream) = write_frame {A = Bytes} (λ v. some v) (5 ∷ 6 ∷ []) [] in
    (r ≡ ok tt)
    × (2 ≤ max_frame_bytes
        → read_frame {A = Bytes} (λ b. some b) (stream ++ 9 ∷ []) ≡ (ok (5 ∷ 6 ∷ []), 9 ∷ []))
    × (max_frame_bytes < 2
        → read_frame {A = Bytes} (λ b. some b) (stream ++ 9 ∷ [])
          ≡ (err (too_large 2), 5 ∷ 6 ∷ 9 ∷ []))
read_frame-write_frame_example =
    read_frame-write_frame {A = Bytes} (λ v. some v) (λ b. some b) (5 ∷ 6 ∷ []) (5 ∷ 6 ∷ [])
      (9 ∷ []) refl refl (omega arith)

abbrev idle : LoadStatus
idle = record { bucket = free; queue_depth = 0; max_concurrent = 1; avg_latency_ms = 0 }

-- A node that fails whatever the network is needed for.
abbrev pub hermit : NodeApi Unit (Option String)
hermit = record {
  toml = toy_toml;
  files = one_file;
  pubkey = "k0";
  capabilities = [];
  encryption_pubkey = none;
  current_load_status = λ n. idle;
  peers = λ n. [];
  discover = λ n. (err "no network", n);
  poll_presence = λ n. (err "no network", n);
  send_task = λ t n. (err "no network", n);
  poll_tasks = λ l n. (err "no network", n);
  delegate_direct = λ l r to n. (err "no network", n);
  delegate_broadcast = λ l r n. (err "no network", n);
  delegate_task = λ l r n. (err "no network", n);
}

abbrev pub server : DaemonServer
server = record {
  socket_path = "sock";
  name = "hermit";
  trust_file = some "trust.toml";
  history_path = "log";
  download = none;
}

abbrev pub midnight : Readings
midnight = record { uuid = "t1"; now_secs = 0; uptime_secs = 3 }

abbrev pub daemon : Daemon Unit (Option String)
daemon = record {
  node = tt;
  trust = record { mode = off; entries = [] };
  history = none;
  disk = none;
  stopping = false;
}

abbrev trust_k1 : Request
trust_k1 = Request.trust_add "k1" "" [] none none

abbrev k1 : TrustEntry
k1 = record {
  pubkey = "k1";
  nickname = "";
  capabilities = [];
  notes = none;
  encryption_pubkey = none;
  added_at = 0;
}

abbrev after : Result String Response × Daemon Unit (Option String)
after = dispatch hermit (λ s. s) (λ b. "") server midnight trust_k1 daemon

dispatch-trust_add_example :
    (written : Bool) × (after.0 ≡ ok (Response.trust_add "k1" "" written))
    × (is_trusted "k1" after.1.trust ≡ true)
    × (get "k2" after.1.trust.entries ≡ (if "k1" == "k2" then some k1 else get "k2" []))
    × (off ≡ off → daemon.trust.entries ≡ [] → is_trusted "k2" after.1.trust ≡ ("k1" == "k2"))
    × IsPersisted hermit (λ s. s) (λ b. "") server midnight written daemon after.1
dispatch-trust_add_example =
    dispatch-trust_add hermit (λ s. s) (λ b. "") server midnight "k1" "" [] none none daemon "k2"
      toy-FileLaws (start off)

-- The list is written, and the answer says so.
told : after.0 ≡ ok (Response.trust_add "k1" "" true)
unfolding dispatch persist_trust save_to to_toml_string Trust.add Trust.put
told = refl

abbrev fetch : Request
fetch = Request.storage_fetch "zQ1"

abbrev no_backend : String
no_backend = "daemon has no storage backend configured"

send-dispatch_example :
    send
      (λ r. some (1 ∷ []))
      (λ b. some (Response.error no_backend))
      (handle_connection hermit
        (λ s. s)
        (λ b. "")
        server
        midnight
        (λ b. some fetch)
        (λ r. some (2 ∷ [])))
      fetch
      daemon
    ≡ (err (daemon_error no_backend), daemon)
unfolding dispatch
send-dispatch_example =
    send-dispatch hermit (λ s. s) (λ b. "") server midnight (λ r. some (1 ∷ [])) (λ b. some fetch)
      (λ r. some (2 ∷ [])) (λ b. some (Response.error no_backend)) fetch daemon (1 ∷ []) (2 ∷ [])
      refl refl (omega arith) refl refl (omega arith)
