-- ===== src/Examples/Trusting.antt =====
-- The trust file and the trust commands at concrete inputs.
use lmao.Prelude.{◌≡◌, refl, none, [], ◌∷◌}
use lmao.Prelude.Result.{ok}
use lmao.Trust
use lmao.Trust.{TrustMode, TrustEntry, TrustList, off, enforce, log}
use lmao.Trust.File.{load_from, save_to, to_toml_string}
use lmao.Trust.File.Saved.{load_from-save_to}
use lmao.Daemon.Protocol.{Request}
use lmao.Daemon.Server.{persist_trust, dispatch}
use lmao.Cli.{TrustAction, Report, edit, on_file}
use lmao.Cli.Routes.{on_file-dispatch}
use lmao.Examples.Disk.{peer, toy_toml, one_file, toy-FileLaws}
use lmao.Examples.Serving.{hermit, server, midnight, daemon}

abbrev only_k1 : TrustList
only_k1 = record { mode = enforce; entries = ("k1", peer "k1") ∷ [] }

load_from-save_to_example :
    load_from toy_toml one_file "trust.toml" (save_to toy_toml one_file "trust.toml" only_k1 none).1
    ≡ ok only_k1
unfolding save_to to_toml_string
load_from-save_to_example =
    load_from-save_to toy_toml one_file "trust.toml" (toy-FileLaws "trust.toml") only_k1 none
      ((tt, tt), (refl, tt)) refl

on_file-dispatch_example :
    let d =
      (dispatch hermit
        (λ s. s)
        (λ b. "")
        server
        midnight
        (Request.trust_add "k1" "" [] none none)
        daemon).1 in
    (load_from toy_toml one_file "trust.toml"
        (on_file toy_toml one_file "trust.toml"
          (λ s. s)
          0
          (ok "")
          (TrustAction.add "k1" "" [] none none)
          none).1
      ≡ ok d.trust)
    × (load_from toy_toml one_file "trust.toml" d.disk ≡ ok d.trust)
unfolding dispatch persist_trust on_file edit load_from save_to to_toml_string Trust.add Trust.put
on_file-dispatch_example =
    on_file-dispatch hermit "trust.toml" (toy-FileLaws "trust.toml") (λ s. s) (ok "") (λ b. "")
      server midnight daemon refl refl (TrustAction.add "k1" "" [] none none)
      (Request.trust_add "k1" "" [] none none) none (Report.added "k1" "" none) refl refl refl refl
