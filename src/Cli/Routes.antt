-- ===== src/Cli/Routes.antt =====
-- The trust commands of cli/src/trust.rs leave the same list with a daemon and without one.
use lmao.Prelude.{
  ℕ, ◌≡◌, refl, ap, sym, ◌∙◌, subst, String, true, ◌&&◌, Option, none, some, Bool-cases,
  Option-cases, inl, inr, arith,
}
use lmao.Prelude.Result.{Result, ok, err, Result-cases, err_not_ok}
use lmao.Sds.Message.{Bytes}
use lmao.Trust
use lmao.Trust.{
  TrustMode, TrustEntry, TrustList, off, enforce, log, is_off, is_empty, get, from_peers,
}
use lmao.Trust.Invariant.{Reachable, moded, added, removed, renounced, Reachable-IsMap}
use lmao.Trust.File.{Files, Toml, ReadError, load_from, save_to}
use lmao.Trust.File.Saved.{FileLaws, load_from-save_to, load_from-Reachable}
use lmao.Daemon.Protocol.{Request}
use lmao.Daemon.Wire.{same_mode, parse_trust_mode}
use lmao.Daemon.Server
use lmao.Daemon.Server.{NodeApi, DaemonServer, Daemon, Readings, persist_trust, dispatch}
use lmao.Cli.{
  TrustAction, list, add, remove, mode, import, export, Report, CliError, request_of, with_peer,
  without_peer, mode_of, saved, edit, on_file, saving, no_entry, mode_set, remove_found, set_mode,
}

some_inj : {A : Type 0} (a b : A) → some a ≡ some b → a ≡ b
some_inj a b h = cc h

same_mode-inv : (a b : TrustMode) → same_mode a b ≡ true → a ≡ b
same_mode-inv off off h = refl
same_mode-inv off enforce h = cc h
same_mode-inv off log h = cc h
same_mode-inv enforce off h = cc h
same_mode-inv enforce enforce h = refl
same_mode-inv enforce log h = cc h
same_mode-inv log off h = cc h
same_mode-inv log enforce h = cc h
same_mode-inv log log h = refl

mode_of-parse :
    (lower : String → String) (new : String) (m : TrustMode)
    → mode_of lower new ≡ ok m
    → parse_trust_mode lower new ≡ ok m
mode_of-parse lower new m h = ground arith

with_peer-Reachable : (e : TrustEntry) (l : TrustList) → Reachable l → Reachable (with_peer e l)
with_peer-Reachable e l r = elim (Bool-cases (is_off l.mode && is_empty l.entries)) [
  | inl first ↦ rw first (added e (Trust.set_mode enforce l) (moded enforce l r))
  | inr later ↦ rw later (added e l r)
]

without_peer-Reachable :
    (target : String) (l : TrustList) → Reachable l → Reachable (without_peer target l).1
without_peer-Reachable target l r = elim (Option-cases (Trust.remove target l).0) [
  | inl nobody ↦
      rw (without_peer, nobody) (renounced target (Trust.remove target l).1 (removed target l r))
  | inr (e, found) ↦ rw (without_peer, found) (removed target l r)
]

module _ {F : Type 0} (toml : Toml) (files : Files F) (path : String) where
  module _ (laws : FileLaws toml files path) (lower : String → String)
      (stdin : Result ReadError String) where
    load_from-saved :
        (now : ℕ) (l : TrustList) (report said : Report) (f : F)
        → Reachable l
        → (saved toml files path lower now stdin l report f).0 ≡ ok said
        → load_from toml files path (saved toml files path lower now stdin l report f).1 ≡ ok l
    load_from-saved now l report said f r h = elim (Result-cases (save_to toml files path l f).0) [
      | inl (u, done) ↦
          rw (saved, done) (load_from-save_to toml files path laws l f (Reachable-IsMap l r) done)
      | inr (e, fault) ↦
          let fails : (saved toml files path lower now stdin l report f).0 ≡ err (saving e) =
            rw (saved, fault) refl in
          absurd (err_not_ok (saving e) said (sym fails ∙ h))
    ]

module _ {N F : Type 0} (api : NodeApi N F) (path : String)
    (laws : FileLaws api.toml api.files path) (lower : String → String)
    (stdin : Result ReadError String) (base64_encode : Bytes → String) (server : DaemonServer)
    (at : Readings) (d : Daemon N F) (here : server.trust_file ≡ some path)
    (kept : load_from api.toml api.files path d.disk ≡ ok d.trust) where
  abbrev after : Request → Daemon N F
  after request = (dispatch api lower base64_encode server at request d).1

  abbrev run : TrustAction → F → Result CliError Report × F
  run action f = edit api.toml api.files path lower at.now_secs stdin action d.trust f

  -- The file has the daemon's list, and so has the daemon's file.
  abbrev Agree : F → Daemon N F → Type 0
  Agree f d' =
      (load_from api.toml api.files path f ≡ ok d'.trust)
      × (load_from api.toml api.files path d'.disk ≡ ok d'.trust)

  -- The list that a daemon has is one that this daemon could write.
  abbrev Writes : Daemon N F → Type 0
  Writes d' = (save_to api.toml api.files path d'.trust d.disk).0 ≡ ok tt

  persist_trust-Agree :
      (f : F) (l : TrustList)
      → Reachable l
      → load_from api.toml api.files path f ≡ ok l
      → Writes (persist_trust api lower base64_encode server at (record d { trust = l })).1
      → Agree f (persist_trust api lower base64_encode server at (record d { trust = l })).1
  unfolding persist_trust
  persist_trust-Agree f l r h w =
      let same : (persist_trust api lower base64_encode server at (record d { trust = l })).1.trust
          ≡ l =
        rw (here, persist_trust) refl in
      let w' =
        subst (λ (x : TrustList). (save_to api.toml api.files path x d.disk).0 ≡ ok tt) same w in
      rw (here, persist_trust)
        (h, load_from-save_to api.toml api.files path laws l d.disk (Reachable-IsMap l r) w')

  removed-Agree :
      (target : String) (p : Option TrustEntry × TrustList) (f : F) (said : Report)
      → Reachable p.1
      → (remove_found api.toml api.files path lower at.now_secs stdin target p f).0 ≡ ok said
      → Writes (Server.removed api lower base64_encode server at target p d).1
      → Agree
          (remove_found api.toml api.files path lower at.now_secs stdin target p f).1
          (Server.removed api lower base64_encode server at target p d).1
  removed-Agree target (none, l) f said r h w = absurd (err_not_ok (no_entry target) said h)
  removed-Agree target (some e, l) f said r h w =
      let done =
        (remove_found api.toml api.files path lower at.now_secs stdin target (some e, l) f).1 in
      persist_trust-Agree done l r
        (load_from-saved api.toml api.files path laws lower stdin at.now_secs l
          (Report.removed e.pubkey e.nickname none) said f r h)
        w

  switched-Agree :
      (next : TrustMode) (f : F)
      → Reachable d.trust
      → load_from api.toml api.files path f ≡ ok (Trust.set_mode next d.trust)
      → Writes (Server.switched api lower base64_encode server at d.trust.mode (ok next) d).1
      → Agree f (Server.switched api lower base64_encode server at d.trust.mode (ok next) d).1
  switched-Agree next f r l w = elim (Bool-cases (same_mode next d.trust.mode)) [
    | inl same ↦
        let unchanged : Trust.set_mode next d.trust ≡ d.trust =
          ap (λ (m : TrustMode). Trust.set_mode m d.trust) (same_mode-inv next d.trust.mode same) in
        rw same (l ∙ ap ok unchanged, kept)
    | inr other ↦
        let same : (Server.switched api lower base64_encode server at d.trust.mode (ok next) d).1
            ≡ (persist_trust api lower base64_encode server at
                (record d { trust = Trust.set_mode next d.trust })).1 =
          rw other refl in
        subst (Agree f) (sym same) (
          persist_trust-Agree f (Trust.set_mode next d.trust) (moded next d.trust r) l
            (subst Writes same w))
  ]

  set_mode-Agree :
      (new : String) (m : Result CliError TrustMode) (f : F) (said : Report)
      → mode_of lower new ≡ m
      → Reachable d.trust
      → (set_mode api.toml api.files path lower at.now_secs stdin d.trust m f).0 ≡ ok said
      → Writes (after (Request.trust_mode (some new)))
      → Agree
          (set_mode api.toml api.files path lower at.now_secs stdin d.trust m f).1
          (after (Request.trust_mode (some new)))
  unfolding dispatch
  set_mode-Agree new (err e) f said named r h w = absurd (err_not_ok e said h)
  set_mode-Agree new (ok next) f said named r h w =
      let done = (set_mode api.toml api.files path lower at.now_secs stdin d.trust (ok next) f).1 in
      let switched : after (Request.trust_mode (some new))
          ≡ (Server.switched api lower base64_encode server at d.trust.mode (ok next) d).1 =
        ap
          (λ (m : Result String TrustMode).
            (Server.switched api lower base64_encode server at d.trust.mode m d).1)
          (mode_of-parse lower new next named) in
      subst (λ (d' : Daemon N F). Agree done d') (sym switched)
        (switched-Agree next done r
          (load_from-saved api.toml api.files path laws lower stdin at.now_secs
            (Trust.set_mode next d.trust) (mode_set d.trust.mode next) said f (moded next d.trust r)
            h)
          (subst Writes switched w))

  edit-dispatch :
      (action : TrustAction) (request : Request) (f : F) (said : Report)
      → request_of action ≡ some request
      → Reachable d.trust
      → load_from api.toml api.files path f ≡ ok d.trust
      → (run action f).0 ≡ ok said
      → Writes (after request)
      → Agree (run action f).1 (after request)
  unfolding edit dispatch
  edit-dispatch list request f said asked r l h w =
      subst (λ (q : Request). Writes (after q) → Agree f (after q))
        (some_inj Request.trust_list request asked) (λ _. (l, kept)) w
  edit-dispatch (add pubkey nickname capabilities notes encryption_pubkey) request f said asked r l
        h w =
      let entry : TrustEntry = record {
        pubkey = pubkey;
        nickname = nickname;
        capabilities = capabilities;
        notes = notes;
        encryption_pubkey = encryption_pubkey;
        added_at = at.now_secs;
      } in
      let whole = run (add pubkey nickname capabilities notes encryption_pubkey) f in
      subst (λ (q : Request). Writes (after q) → Agree whole.1 (after q))
        (some_inj (Request.trust_add pubkey nickname capabilities notes encryption_pubkey) request
          asked)
        (persist_trust-Agree whole.1 (with_peer entry d.trust) (with_peer-Reachable entry d.trust r)
          (load_from-saved api.toml api.files path laws lower stdin at.now_secs
            (with_peer entry d.trust) (Report.added pubkey nickname none) said f
            (with_peer-Reachable entry d.trust r) h))
        w
  edit-dispatch (remove target) request f said asked r l h w =
      subst (λ (q : Request). Writes (after q) → Agree (run (remove target) f).1 (after q))
        (some_inj (Request.trust_remove target) request asked)
        (removed-Agree target (without_peer target d.trust) f said
          (without_peer-Reachable target d.trust r) h)
        w
  edit-dispatch (mode none) request f said asked r l h w =
      subst (λ (q : Request). Writes (after q) → Agree f (after q))
        (some_inj (Request.trust_mode none) request asked) (switched-Agree d.trust.mode f r l) w
  edit-dispatch (mode (some new)) request f said asked r l h w =
      subst (λ (q : Request). Writes (after q) → Agree (run (mode (some new)) f).1 (after q))
        (some_inj (Request.trust_mode (some new)) request asked)
        (set_mode-Agree new (mode_of lower new) f said refl r h) w
  edit-dispatch (import src) request f said asked r l h w = cc asked
  edit-dispatch export request f said asked r l h w = cc asked

  -- An action that goes to a daemon when there is one, done without a report of failure on a file
  -- with the daemon's list, leaves in the file the list that the daemon has after the request for that
  -- action, at the same time; and the daemon's own file, which has its list before, has it afterwards.
  -- This is of a daemon that can write that list to its file.
  pub on_file-dispatch :
      (action : TrustAction) (request : Request) (f : F) (said : Report)
      → request_of action ≡ some request
      → load_from api.toml api.files path f ≡ ok d.trust
      → (on_file api.toml api.files path lower at.now_secs stdin action f).0 ≡ ok said
      → Writes (after request)
      → Agree (on_file api.toml api.files path lower at.now_secs stdin action f).1 (after request)
  unfolding on_file
  on_file-dispatch action request f said asked l h w =
      let same : on_file api.toml api.files path lower at.now_secs stdin action f ≡ run action f =
        rw (on_file, l) refl in
      rw same (
        edit-dispatch action request f said asked
          (load_from-Reachable api.toml api.files path f d.trust l) l
          (ap (λ (x : Result CliError Report × F). x.0) (sym same) ∙ h) w)
