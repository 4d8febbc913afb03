-- ===== src/Node/History/Lookup.antt =====
-- `append` and `get` of node/src/history.rs.
use lmao.Prelude.{
  ◌≡◌, refl, sym, String, Bool, true, false, Option, none, some, [], ◌∷◌, ◌++◌, ◌==◌, if◌then◌else◌,
}
use lmao.Prelude.Result.{Result, ok, err}
use lmao.Node.History.{HistoryEntry, Lines, append, get_from, get}

ok_not_err : ◌≡◌ {A = Result String Unit} (ok tt) (err "io") → ⊥
ok_not_err h = cc h

get_from-append :
    (id : String) (found : Option HistoryEntry) (e : HistoryEntry) (log : Lines)
    → get_from id found (log ++ some e ∷ [])
      ≡ (if e.task_id == id then some e else get_from id found log)
unfolding get_from
get_from-append id found e [] = refl
get_from-append id found e (none ∷ lines) = get_from-append id found e lines
get_from-append id found e (some x ∷ lines) =
    get_from-append id (if x.task_id == id then some x else found) e lines

-- A lookup after an append that the file took finds the new entry under its task's id, and under
-- every other id what it found before; after one that failed it finds what it found before.
pub get-append :
    (id : String) (writes : Bool) (e : HistoryEntry) (log : Lines)
    → let (r, log') = append writes e log in
      (r ≡ ok tt → get id log' ≡ (if e.task_id == id then some e else get id log))
      × (r ≡ err "io" → log' ≡ log)
unfolding append get
get-append id true e log = (λ h. get_from-append id none e log, λ h. absurd (ok_not_err h))
get-append id false e log = (λ h. absurd (ok_not_err (sym h)), λ h. refl)
