-- ===== src/Examples/Disk.antt =====
-- A file system and a format of trust files for the runs of the daemon and the trust commands.
use lmao.Prelude.{ℕ, zero, suc, ◌≡◌, refl, String, Option, none, some, List, [], ◌∷◌}
use lmao.Prelude.Result.{Result, ok, err}
use lmao.Trust.{TrustMode, TrustEntry, off, enforce, log}
use lmao.Trust.File.{Files, Toml, TrustFile, ReadError, not_found}
use lmao.Trust.File.Saved.{FileLaws}

abbrev pub peer : String → TrustEntry
peer k = record {
  pubkey = k;
  nickname = "";
  capabilities = [];
  notes = none;
  encryption_pubkey = none;
  added_at = 0;
}

-- A format that has only the files with one peer of which no more is known than its key.
abbrev key_only : String → List String → Option String → Option String → ℕ → String → Option String
key_only String.[] [] none none zero k = some k
key_only _ _ _ _ _ k = none

abbrev printed : TrustMode → List TrustEntry → Option String
printed enforce (e ∷ []) =
    key_only e.nickname e.capabilities e.notes e.encryption_pubkey e.added_at e.pubkey
printed _ _ = none

abbrev pub toy_toml : Toml
toy_toml = record {
  from_str = λ text. some (record { mode = enforce; peers = peer text ∷ [] });
  to_string_pretty = λ file. printed file.mode file.peers;
}

-- A file system of one file.
abbrev pub one_file : Files (Option String)
one_file = record {
  read_to_string = λ path f. elim f as (λ x. Result ReadError String) [
    | none ↦ err not_found
    | some text ↦ ok text
  ];
  parent = λ path. none;
  create_dir_all = λ path f. (ok tt, f);
  write = λ path text f. (ok tt, some text);
  set_permissions = λ path f. f;
}

key_only-inv :
    (nickname : String) (capabilities : List String) (notes encryption : Option String) (at : ℕ)
    (k text : String)
    → key_only nickname capabilities notes encryption at k ≡ some text
    → ◌≡◌ {A = TrustEntry} (peer text) (record {
      pubkey = k;
      nickname = nickname;
      capabilities = capabilities;
      notes = notes;
      encryption_pubkey = encryption;
      added_at = at;
    })
key_only-inv String.[] [] none none zero k text h = cc h
key_only-inv String.[] [] none none (suc n) k text h = cc h
key_only-inv String.[] [] none (some x) n k text h = cc h
key_only-inv String.[] [] (some x) o n k text h = cc h
key_only-inv String.[] (c ∷ cs) o p n k text h = cc h
key_only-inv (String.◌∷◌ c cs) l o p n k text h = cc h

printed-inv :
    (mode : TrustMode) (peers : List TrustEntry) (text : String)
    → printed mode peers ≡ some text
    → ◌≡◌ {A = Option TrustFile}
        (some (record { mode = enforce; peers = peer text ∷ [] }))
        (some (record { mode = mode; peers = peers }))
printed-inv off peers text h = cc h
printed-inv log peers text h = cc h
printed-inv enforce [] text h = cc h
printed-inv enforce (e ∷ d ∷ es) text h = cc h
printed-inv enforce (e ∷ []) text h =
    let same =
      key_only-inv e.nickname e.capabilities e.notes e.encryption_pubkey e.added_at e.pubkey text
        h in
    cc same

pub toy-FileLaws : (path : String) → FileLaws toy_toml one_file path
toy-FileLaws path = record {
  read-write = λ text f h. refl;
  read-set_permissions = λ f. refl;
  from_str-to_string_pretty = λ file text h. printed-inv file.mode file.peers text h;
}
