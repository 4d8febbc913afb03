-- ===== src/Cli.antt =====
-- crates/logos-messaging-a2a-cli/src/trust.rs: the trust commands, over a running daemon or on the trust file.
-- `send` is a request to the daemon, `lower` is `to_ascii_lowercase`; what a command prints is a
-- `Report`. `pubkey` makes a whole node of a keyfile and is not modelled.
pub mod Routes
use lmao.Prelude.{ℕ, String, Bool, true, false, ◌&&◌, Option, none, some, List, ◌==◌, if◌then◌else◌}
use lmao.Prelude.Result.{Result, ok, err}
use lmao.Trust
use lmao.Trust.{TrustMode, TrustEntry, TrustList, off, enforce, log, is_off, is_empty}
use lmao.Trust.File.{
  Files, Toml, FileError, ReadError, load_from, save_to, from_toml_str, to_toml_string,
}
use lmao.Daemon.Protocol.{Request, Response, TrustEntryWire}
use lmao.Daemon.Connection.{ClientError}

pub data TrustAction : Type 0 where
  list : TrustAction
  add :
      (pubkey nickname : String) (capabilities : List String)
      (notes encryption_pubkey : Option String)
      → TrustAction
  remove : String → TrustAction
  mode : Option String → TrustAction
  import : String → TrustAction
  export : TrustAction

-- `persisted` is there if a daemon answered.
pub data Report : Type 0 where
  daemon_list :
      (mode : String) (entries : List TrustEntryWire) (trust_file : Option String) → Report
  file_list : TrustList → Report
  added : (pubkey nickname : String) (persisted : Option Bool) → Report
  removed : (pubkey nickname : String) (persisted : Option Bool) → Report
  mode_is : TrustMode → Report
  mode_set : (previous current : TrustMode) → Report
  daemon_mode : (previous current : String) (persisted : Bool) → Report
  imported : ℕ → Report
  exported : String → Report

pub data CliError : Type 0 where
  client : ClientError → CliError
  unexpected : Response → CliError
  loading saving : FileError → CliError
  no_entry : String → CliError
  unknown_mode : String → CliError
  reading : ReadError → CliError
  parsing : String → CliError
  serialising : CliError

-- The requests of the four actions that go to a daemon.
abbrev pub request_of : TrustAction → Option Request
request_of list = some Request.trust_list
request_of (add pubkey nickname capabilities notes encryption_pubkey) =
    some (Request.trust_add pubkey nickname capabilities notes encryption_pubkey)
request_of (remove target) = some (Request.trust_remove target)
request_of (mode new_mode) = some (Request.trust_mode new_mode)
request_of (import src) = none
request_of export = none

-- What each of them makes of the daemon's response.
abbrev reported : TrustAction → Response → Result CliError Report
reported list (Response.trust_list enforcement entries trust_file) =
    ok (daemon_list enforcement entries trust_file)
reported (add _ _ _ _ _) (Response.trust_add pubkey nickname persisted) =
    ok (added pubkey nickname (some persisted))
reported (remove _) (Response.trust_remove pubkey nickname persisted) =
    ok (removed pubkey nickname (some persisted))
reported (mode _) (Response.trust_mode previous current persisted) =
    ok (daemon_mode previous current persisted)
reported action resp = err (unexpected resp)

unfoldable pub via_daemon :
    {D : Type 0}
    → (Request → D → Result ClientError Response × D)
    → TrustAction
    → Request
    → D
    → Result CliError Report × D
via_daemon send action request d =
    let (r, d') = send request d in
    elim r [ err e ↦ (err (client e), d') | ok resp ↦ (reported action resp, d') ]

-- The first peer of a list that is off turns enforcement on.
abbrev pub with_peer : TrustEntry → TrustList → TrustList
with_peer e l =
    Trust.add e (if is_off l.mode && is_empty l.entries then Trust.set_mode enforce l else l)

-- By public key, else by nickname.
abbrev pub without_peer : String → TrustList → Option TrustEntry × TrustList
without_peer target l =
    let (dropped, l') = Trust.remove target l in
    elim dropped [ some e ↦ (some e, l') | none ↦ Trust.remove_by_nickname target l' ]

abbrev pub mode_of : (String → String) → String → Result CliError TrustMode
mode_of lower new =
    let other = lower new in
    if other == "off"
    then ok off
    else if other == "enforce"
    then ok enforce
    else if other == "log"
    then ok log
    else err (unknown_mode other)

module _ {F : Type 0} (toml : Toml) (files : Files F) (path : String) (lower : String → String)
    (now : ℕ) (stdin : Result ReadError String) where
  -- `save_to` and then the report
  abbrev pub saved : TrustList → Report → F → Result CliError Report × F
  saved l report f =
      let (r, f') = save_to toml files path l f in
      elim r [ err e ↦ (err (saving e), f') | ok _ ↦ (ok report, f') ]

  abbrev pub remove_found : String → Option TrustEntry × TrustList → F → Result CliError Report × F
  remove_found target (none, l) f = (err (no_entry target), f)
  remove_found target (some e, l) f = saved l (removed e.pubkey e.nickname none) f

  abbrev pub set_mode : TrustList → Result CliError TrustMode → F → Result CliError Report × F
  set_mode l (err e) f = (err e, f)
  set_mode l (ok next) f = saved (Trust.set_mode next l) (mode_set l.mode next) f

  abbrev source : String → F → Result ReadError String
  source src f = if src == "-" then stdin else files.read_to_string src f

  abbrev merged : Option TrustList → String → TrustList → F → Result CliError Report × F
  merged none src l f = (err (parsing src), f)
  merged (some incoming) src l f =
      let (count, l') = Trust.merge incoming l in saved l' (imported count) f

  abbrev import_text : Result ReadError String → String → TrustList → F → Result CliError Report × F
  import_text (err e) src l f = (err (reading e), f)
  import_text (ok text) src l f = merged (from_toml_str toml text) src l f

  abbrev export_text : Option String → Result CliError Report
  export_text none = err serialising
  export_text (some text) = ok (exported text)

  -- What an action does with the list that the file holds.
  unfoldable pub edit : TrustAction → TrustList → F → Result CliError Report × F
  edit list l f = (ok (file_list l), f)
  edit (add pubkey nickname capabilities notes encryption_pubkey) l f =
      saved
        (with_peer
          (record {
            pubkey = pubkey;
            nickname = nickname;
            capabilities = capabilities;
            notes = notes;
            encryption_pubkey = encryption_pubkey;
            added_at = now;
          })
          l)
        (added pubkey nickname none) f
  edit (remove target) l f = remove_found target (without_peer target l) f
  edit (mode none) l f = (ok (mode_is l.mode), f)
  edit (mode (some new)) l f = set_mode l (mode_of lower new) f
  edit (import src) l f = import_text (source src f) src l f
  edit export l f = (export_text (to_toml_string toml l), f)

  unfoldable pub on_file : TrustAction → F → Result CliError Report × F
  on_file action f = elim (load_from toml files path f) [
    | err e ↦ (err (loading e), f)
    | ok l ↦ edit action l f
  ]

  -- A daemon that answers takes the actions that have a request; the others edit the file.
  unfoldable pub handle :
      {D : Type 0}
      → (Request → D → Result ClientError Response × D)
      → Bool
      → TrustAction
      → F × D
      → Result CliError Report × F × D
  handle send false action (f, d) = let (r, f') = on_file action f in (r, f', d)
  handle send true action (f, d) = elim (request_of action) [
    | none ↦ let (r, f') = on_file action f in (r, f', d)
    | some request ↦ let (r, d') = via_daemon send action request d in (r, f, d')
  ]
