-- ===== src/Trust/File.antt =====
-- crates/logos-messaging-a2a-core/src/trust.rs: the file that holds a trust list. Reading and writing of
-- files and toml are parameters; an error that the file system gives is its text.
pub mod Saved
use lmao.Prelude.{String, Bool, true, false, Option, none, some, List, map, ◌==◌, if◌then◌else◌}
use lmao.Prelude.Result.{Result, ok, err}
use lmao.Trust.{TrustMode, TrustEntry, TrustList, empty, from_peers}

pub data ReadError : Type 0 where
  not_found : ReadError
  failed : String → ReadError

-- What the code calls of std::fs and of paths, on the file system's state.
pub record Files (F : Type 0) : Type 0 where
  pub read_to_string : String → F → Result ReadError String
  pub parent : String → Option String
  pub create_dir_all : String → F → Result String Unit × F
  pub write : String → String → F → Result String Unit × F
  pub set_permissions : String → F → F

pub record TrustFile : Type 0 where
  pub mode : TrustMode
  pub peers : List TrustEntry

pub record Toml : Type 0 where
  pub from_str : String → Option TrustFile
  pub to_string_pretty : TrustFile → Option String

-- `TrustError`, but for the refusal of a key that is taken
pub data FileError : Type 0 where
  io : (path source : String) → FileError
  parse : String → FileError
  serialize : FileError

-- `values` of the map
abbrev pub peers_of : TrustList → List TrustEntry
peers_of l = map (λ (k, e). e) l.entries

abbrev pub file_of : TrustList → TrustFile
file_of l = record { mode = l.mode; peers = peers_of l }

module _ (toml : Toml) where
  unfoldable pub from_toml_str : String → Option TrustList
  from_toml_str text = elim (toml.from_str text) [
    | none ↦ none
    | some file ↦ some (from_peers file.mode file.peers)
  ]

  unfoldable pub to_toml_string : TrustList → Option String
  to_toml_string l = toml.to_string_pretty (file_of l)

  module _ {F : Type 0} (files : Files F) (path : String) where
    abbrev parsed : Option TrustList → Result FileError TrustList
    parsed none = err (parse path)
    parsed (some l) = ok l

    abbrev loaded : Result ReadError String → Result FileError TrustList
    loaded (ok text) = parsed (from_toml_str text)
    loaded (err not_found) = ok empty
    loaded (err (failed source)) = err (io path source)

    -- A missing file is an empty list that is off.
    unfoldable pub load_from : F → Result FileError TrustList
    load_from f = loaded (files.read_to_string path f)

    abbrev make_dir : String → F → Result FileError Unit × F
    make_dir dir f =
        let (r, f') = files.create_dir_all dir f in
        elim r [ ok _ ↦ (ok tt, f') | err source ↦ (err (io dir source), f') ]

    abbrev make_parent : Option String → F → Result FileError Unit × F
    make_parent none f = (ok tt, f)
    make_parent (some dir) f = if dir == "" then (ok tt, f) else make_dir dir f

    abbrev restricted : Result String Unit × F → Result FileError Unit × F
    restricted (err source, f) = (err (io path source), f)
    restricted (ok _, f) = (ok tt, files.set_permissions path f)

    abbrev written : Option String → F → Result FileError Unit × F
    written none f = (err serialize, f)
    written (some text) f = restricted (files.write path text f)

    unfoldable pub save_to : TrustList → F → Result FileError Unit × F
    save_to l f =
        let (r, f') = make_parent (files.parent path) f in
        elim r [ err e ↦ (err e, f') | ok _ ↦ written (to_toml_string l) f' ]
