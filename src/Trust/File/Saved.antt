-- ===== src/Trust/File/Saved.antt =====
-- A trust list that core/src/trust.rs saves is the list that it loads.
use lmao.Prelude.{
  ◌≡◌, refl, ap, sym, ◌∙◌, subst, String, true, false, some, List, [], ◌∷◌, ◌++◌, map, ◌==◌, eq_iff,
  Bool-cases, Option-cases, inl, inr, text_lt, text_irrefl, text_trans,
}
use lmao.Prelude.Result.{Result, ok, err, Result-cases, ok_inj, err_not_ok}
use mathlib.Core.List.{append-nil, append_assoc}
use lmao.Trust.{off, TrustEntry, Entries, TrustList, put, put_all, from_peers}
use lmao.Trust.Order.{Above}
use lmao.Trust
use lmao.Trust.Invariant.{IsMap, Reachable, start, parsed}
use lmao.Trust.File.{
  Files, Toml, TrustFile, FileError, io, serialize, parse, not_found, failed, file_of,
  from_toml_str, to_toml_string, make_parent, written, load_from, save_to,
}

abbrev values : Entries → List TrustEntry
values es = map (λ (k, e). e) es

-- Every key of the first entries is below every key of the others.
abbrev Before : Entries → Entries → Type 0
Before [] es = Unit
Before ((j, d) ∷ pre) es = Above j es × Before pre es

put_last :
    (k : String) (e : TrustEntry) (pre es : Entries)
    → Before pre ((k, e) ∷ es)
    → put k e pre ≡ pre ++ (k, e) ∷ []
unfolding put
put_last k e [] es b = refl
put_last k e ((j, d) ∷ pre) es (above, b) =
    let other : (j == k) ≡ false = elim (Bool-cases (j == k)) [
      | inl same ↦
          let bad = subst (λ i. text_lt j i ≡ true) (sym ((eq_iff j k).0 same)) above.0 in
          cc (bad, text_irrefl j)
      | inr h ↦ h
    ] in
    let later : text_lt k j ≡ false = elim (Bool-cases (text_lt k j)) [
      | inl less ↦ cc (text_trans j k j above.0 less, text_irrefl j)
      | inr h ↦ h
    ] in
    rw (other, later, put_last k e pre es b) refl

Before-snoc :
    (k : String) (e : TrustEntry) (pre es : Entries)
    → Before pre ((k, e) ∷ es)
    → Above k es
    → Before (pre ++ (k, e) ∷ []) es
Before-snoc k e [] es b above = (above, tt)
Before-snoc k e ((j, d) ∷ pre) es (a, b) above = (a.1, Before-snoc k e pre es b above)

put_all-values : (es pre : Entries) → IsMap es → Before pre es → put_all (values es) pre ≡ pre ++ es
unfolding put_all
put_all-values [] pre m b = sym (append-nil pre)
put_all-values ((k, e) ∷ es) pre ((above, s), (own, keyed)) b =
    let step : put e.pubkey e pre ≡ pre ++ (k, e) ∷ [] =
      ap (λ j. put j e pre) own ∙ put_last k e pre es b in
    ap (put_all (values es)) step
    ∙ put_all-values es (pre ++ (k, e) ∷ []) (s, keyed) (Before-snoc k e pre es b above)
    ∙ append_assoc pre ((k, e) ∷ []) es

from_peers-file_of : (l : TrustList) → IsMap l.entries → from_peers l.mode (file_of l).peers ≡ l
unfolding from_peers
from_peers-file_of l m =
    ap (λ (es : Entries). record l { entries = es }) (put_all-values l.entries [] m tt)

-- A file holds what was written to it, whatever its permissions, and toml reads back what it prints.
pub record FileLaws {F : Type 0} (toml : Toml) (files : Files F) (path : String) : Type 0 where
  pub read-write :
      (text : String) (f : F)
      → (files.write path text f).0 ≡ ok tt
      → files.read_to_string path (files.write path text f).1 ≡ ok text
  pub read-set_permissions :
      (f : F)
      → files.read_to_string path (files.set_permissions path f) ≡ files.read_to_string path f
  pub from_str-to_string_pretty :
      (file : TrustFile) (text : String)
      → toml.to_string_pretty file ≡ some text
      → toml.from_str text ≡ some file

module _ {F : Type 0} (toml : Toml) (files : Files F) (path : String)
    (laws : FileLaws toml files path) where
  load_from-written :
      (l : TrustList) (f : F)
      → IsMap l.entries
      → (written toml files path (to_toml_string toml l) f).0 ≡ ok tt
      → load_from toml files path (written toml files path (to_toml_string toml l) f).1 ≡ ok l
  unfolding load_from to_toml_string from_toml_str
  load_from-written l f m h = elim (Option-cases (toml.to_string_pretty (file_of l))) [
    | inl lost ↦
        let fails : (written toml files path (to_toml_string toml l) f).0 ≡ err serialize =
          rw (to_toml_string, lost) refl in
        absurd (err_not_ok serialize tt (sym fails ∙ h))
    | inr (text, printed) ↦ elim (Result-cases (files.write path text f).0) [
      | inr (source, fault) ↦
          let fails : (written toml files path (to_toml_string toml l) f).0 ≡ err (io path source) =
            rw (to_toml_string, printed, fault) refl in
          absurd (err_not_ok (io path source) tt (sym fails ∙ h))
      | inl (u, done) ↦
          let f' = (files.write path text f).1 in
          let saved : (written toml files path (to_toml_string toml l) f).1
              ≡ files.set_permissions path f' =
            rw (to_toml_string, printed, done) refl in
          let read : files.read_to_string path (files.set_permissions path f') ≡ ok text =
            laws.read-set_permissions f' ∙ laws.read-write text f done in
          let found : from_toml_str toml text ≡ some l =
            rw (from_toml_str, laws.from_str-to_string_pretty (file_of l) text printed)
              (ap some (from_peers-file_of l m)) in
          rw (saved, load_from, read, found) refl
    ]
  ]

  -- What is saved without an error, of a list that is a map, is loaded again as the same list.
  pub load_from-save_to :
      (l : TrustList) (f : F)
      → IsMap l.entries
      → (save_to toml files path l f).0 ≡ ok tt
      → load_from toml files path (save_to toml files path l f).1 ≡ ok l
  unfolding save_to
  load_from-save_to l f m h =
      let made = make_parent toml files path (files.parent path) f in
      elim (Result-cases made.0) [
        | inr (e, fault) ↦
            let fails : (save_to toml files path l f).0 ≡ err e = rw (save_to, fault) refl in
            absurd (err_not_ok e tt (sym fails ∙ h))
        | inl (u, done) ↦
            let same : save_to toml files path l f
                ≡ written toml files path (to_toml_string toml l) made.1 =
              rw (save_to, done) refl in
            rw same (
              load_from-written l made.1 m
                (ap (λ (x : Result FileError Unit × F). x.0) (sym same) ∙ h))
      ]

module _ {F : Type 0} (toml : Toml) (files : Files F) (path : String) where
  -- What is loaded is a list that the operations on lists build.
  pub load_from-Reachable :
      (f : F) (l : TrustList) → load_from toml files path f ≡ ok l → Reachable l
  unfolding load_from from_toml_str
  load_from-Reachable f l h = elim (Result-cases (files.read_to_string path f)) [
    | inl (text, found) ↦ elim (Option-cases (toml.from_str text)) [
      | inl bad ↦
          let fails : load_from toml files path f ≡ err (parse path) =
            rw (load_from, found, from_toml_str, bad) refl in
          absurd (err_not_ok (parse path) l (sym fails ∙ h))
      | inr (file, good) ↦
          let same : load_from toml files path f ≡ ok (from_peers file.mode file.peers) =
            rw (load_from, found, from_toml_str, good) refl in
          subst Reachable (ok_inj (from_peers file.mode file.peers) l (sym same ∙ h))
            (parsed file.mode file.peers)
    ]
    | inr (not_found, missing) ↦
        let same : load_from toml files path f ≡ ok Trust.empty = rw (load_from, missing) refl in
        subst Reachable (ok_inj Trust.empty l (sym same ∙ h)) (start off)
    | inr (failed why, broken) ↦
        let fails : load_from toml files path f ≡ err (io path why) = rw (load_from, broken) refl in
        absurd (err_not_ok (io path why) l (sym fails ∙ h))
  ]
