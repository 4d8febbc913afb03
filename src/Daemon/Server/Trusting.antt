-- ===== src/Daemon/Server/Trusting.antt =====
-- The trust list under the requests of cli/src/daemon/server.rs.
use lmao.Prelude.{
  ◌≡◌, refl, ap, ◌∙◌, ◌⊎◌, String, Bool, true, false, Option, none, some, List, [], ◌==◌, eq_iff,
  if◌then◌else◌, ◌&&◌, Bool-cases, Option-cases, inl, inr,
}
use lmao.Prelude.Result.{ok, err, Result-cases}
use lmao.Sds.Message.{Bytes}
use lmao.Trust.Invariant.{Reachable, moded, added, Reachable-IsMap}
use lmao.Trust.File.{FileError, load_from, save_to}
use lmao.Trust.File.Saved.{FileLaws, load_from-save_to}
use lmao.Trust.{
  set_mode, TrustEntry, TrustList, off, enforce, is_off, is_empty, is_trusted, contains_key, get,
  add,
}
use lmao.Trust.Lookup.{get-put}
use lmao.Daemon.Protocol.{Request, Response}
use lmao.Daemon.Server.{NodeApi, DaemonServer, Daemon, Readings, persist_trust, trusting, dispatch}

get-trusting :
    (j : String) (e : TrustEntry) (l : TrustList)
    → get j (trusting e l).entries ≡ (if e.pubkey == j then some e else get j l.entries)
unfolding add
get-trusting j e l = elim (Bool-cases (is_off l.mode && is_empty l.entries)) [
  | inl first ↦ rw first (get-put e.pubkey j e l.entries)
  | inr later ↦ rw later (get-put e.pubkey j e l.entries)
]

contains_key-cases :
    (j : String) (e : TrustEntry) (o : Option TrustEntry) (es : List (String × TrustEntry))
    → get j es ≡ (if e.pubkey == j then some e else o)
    → (e.pubkey == j ≡ true → contains_key j es ≡ true)
      × (o ≡ none → contains_key j es ≡ (e.pubkey == j))
contains_key-cases j e o es h = (
  λ same. rw (contains_key, h, same) refl,
  λ nothing. elim (Bool-cases (e.pubkey == j)) [
    | inl same ↦ rw (contains_key, h, same) refl
    | inr other ↦ rw (contains_key, h, other) (rw nothing refl)
  ],
)

trusting_self : (e : TrustEntry) (l : TrustList) → is_trusted e.pubkey (trusting e l) ≡ true
unfolding is_trusted
trusting_self e l =
    let known =
      (contains_key-cases e.pubkey e (get e.pubkey l.entries) (trusting e l).entries
          (get-trusting e.pubkey e l)).0
        ((eq_iff e.pubkey e.pubkey).1 refl) in
    elim (Bool-cases (is_off (trusting e l).mode)) [
      | inl all ↦ rw (is_trusted, all) refl
      | inr some_only ↦ rw (is_trusted, some_only) known
    ]

trusting_first :
    (j : String) (e : TrustEntry) (l : TrustList)
    → l.mode ≡ off
    → l.entries ≡ []
    → is_trusted j (trusting e l) ≡ (e.pubkey == j)
unfolding is_trusted add get
trusting_first j e l is_off empty =
    let known =
      (contains_key-cases j e (get j l.entries) (trusting e l).entries (get-trusting j e l)).1
        (ap (get j) empty) in
    let enforced : (trusting e l).mode ≡ enforce = rw (is_off, empty) refl in
    rw (is_trusted, enforced) known

pub trusting-Reachable : (e : TrustEntry) (l : TrustList) → Reachable l → Reachable (trusting e l)
trusting-Reachable e l r = elim (Bool-cases (is_off l.mode && is_empty l.entries)) [
  | inl first ↦ rw first (added e (set_mode enforce l) (moded enforce l r))
  | inr later ↦ rw later (added e l r)
]

module _ {N F : Type 0} (api : NodeApi N F) (lower : String → String)
    (base64_encode : Bytes → String) (server : DaemonServer) (at : Readings) where
  -- What becomes of the disk, and whether that is told.
  abbrev pub IsPersisted : Bool → Daemon N F → Daemon N F → Type 0
  IsPersisted told d d' =
      ((server.trust_file ≡ none) × (told ≡ false) × (d'.disk ≡ d.disk))
      ⊎ ((path : String) × (server.trust_file ≡ some path)
          × (((told ≡ true) × (load_from api.toml api.files path d'.disk ≡ ok d'.trust))
              ⊎ ((told ≡ false)
                  × (e : FileError) × ((save_to api.toml api.files path d'.trust d.disk).0
                      ≡ err e))))

  pub persist_trust-IsPersisted :
      (d : Daemon N F)
      → ((path : String) → FileLaws api.toml api.files path)
      → Reachable d.trust
      → let (told, d') = persist_trust api lower base64_encode server at d in
        (d'.trust ≡ d.trust) × IsPersisted told d d'
  unfolding persist_trust
  persist_trust-IsPersisted d laws r = elim (Option-cases server.trust_file) [
    | inl nowhere ↦ rw (nowhere, persist_trust) (refl, inl (refl, refl, refl))
    | inr (path, here) ↦ elim (Result-cases (save_to api.toml api.files path d.trust d.disk).0) [
      | inl (u, done) ↦
          rw (here, persist_trust, done)
            (
              refl,
              inr (
                path,
                refl,
                inl (
                  refl,
                  load_from-save_to api.toml api.files path (laws path) d.trust d.disk
                      (Reachable-IsMap d.trust r) done,
                ),
              ),
            )
      | inr (e, failed) ↦
          rw (here, persist_trust, failed) (refl, inr (path, refl, inr (refl, e, failed)))
    ]
  ]

  -- A request to trust a peer is answered with whether the list was written. Then the peer is trusted;
  -- the list has its new entry and every other entry as before; and the first peer of an empty list that
  -- was off is afterwards the only agent trusted. If the answer says that the list was written, there
  -- is a trust file and loading it gives the daemon's list; if it says that it was not, there is no trust
  -- file and the disk is as before, or writing the daemon's list to it fails. This is of a daemon
  -- whose list the operations on lists have built.
  pub dispatch-trust_add :
      (pubkey nickname : String) (capabilities : List String) (notes encryption : Option String)
      (d : Daemon N F) (j : String)
      → ((path : String) → FileLaws api.toml api.files path)
      → Reachable d.trust
      → let entry : TrustEntry = record {
        pubkey = pubkey;
        nickname = nickname;
        capabilities = capabilities;
        notes = notes;
        encryption_pubkey = encryption;
        added_at = at.now_secs;
      } in
        let (r, d') =
          dispatch api lower base64_encode server at
            (Request.trust_add pubkey nickname capabilities notes encryption)
            d in
        (written : Bool) × (r ≡ ok (Response.trust_add pubkey nickname written))
        × (is_trusted pubkey d'.trust ≡ true)
        × (get j d'.trust.entries ≡ (if pubkey == j then some entry else get j d.trust.entries))
        × (d.trust.mode ≡ off → d.trust.entries ≡ [] → is_trusted j d'.trust ≡ (pubkey == j))
        × IsPersisted written d d'
  unfolding dispatch
  dispatch-trust_add pubkey nickname capabilities notes encryption d j laws r =
      let entry : TrustEntry = record {
        pubkey = pubkey;
        nickname = nickname;
        capabilities = capabilities;
        notes = notes;
        encryption_pubkey = encryption;
        added_at = at.now_secs;
      } in
      let d1 : Daemon N F = record d { trust = trusting entry d.trust } in
      let (told, d') = persist_trust api lower base64_encode server at d1 in
      let (same, kept) = persist_trust-IsPersisted d1 laws (trusting-Reachable entry d.trust r) in
      (
        told,
        refl,
        ap (is_trusted pubkey) same ∙ trusting_self entry d.trust,
        ap (λ (l : TrustList). get j l.entries) same ∙ get-trusting j entry d.trust,
        λ was_off was_empty.
            ap (is_trusted j) same ∙ trusting_first j entry d.trust was_off was_empty,
        kept,
      )
