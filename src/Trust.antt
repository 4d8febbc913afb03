-- ===== src/Trust.antt =====
-- crates/logos-messaging-a2a-core/src/trust.rs: the friend keyring that filters peers and tasks.
-- The `BTreeMap` is a list of entries in rising order of their keys.
-- An entry's time is a number.
pub mod Order
pub mod Lookup
pub mod Invariant
pub mod File
use lmao.Prelude.{
  ℕ, ◌+◌, String, Bool, true, false, not, ◌||◌, Option, none, some, List, [], ◌∷◌, map, ◌==◌, any,
  find, length, text_lt, eqb, if◌then◌else◌,
}
use lmao.Prelude.Result.{Result, ok, err}

pub data TrustMode : Type 0 where
  off enforce log : TrustMode

pub record TrustEntry : Type 0 where
  pub pubkey : String
  pub nickname : String
  pub capabilities : List String
  pub notes : Option String
  pub encryption_pubkey : Option String
  pub added_at : ℕ

-- A `BTreeMap<String, TrustEntry>`, in the order of its keys.
abbrev pub Entries : Type 0
Entries = List (String × TrustEntry)

pub record TrustList : Type 0 where
  pub mode : TrustMode
  pub entries : Entries

-- `TrustError::DuplicatePubkey`, the one error of the operations on the list.
pub data TrustError : Type 0 where
  duplicate_pubkey : String → TrustError

-- `BTreeMap::get`
unfoldable pub get : String → Entries → Option TrustEntry
get k [] = none
get k ((j, e) ∷ es) = if j == k then some e else get k es

-- `BTreeMap::contains_key`
abbrev pub contains_key : String → Entries → Bool
contains_key k es = elim (get k es) [ none ↦ false | some e ↦ true ]

-- `BTreeMap::remove`
unfoldable pub delete : String → Entries → Entries
delete k [] = []
delete k ((j, e) ∷ es) = if j == k then es else (j, e) ∷ delete k es

abbrev pub is_off : TrustMode → Bool
is_off off = true
is_off enforce = false
is_off log = false

abbrev pub is_empty {ℓ} : {A : Type ℓ} → List A → Bool
is_empty [] = true
is_empty (x ∷ xs) = false

abbrev pub empty : TrustList
empty = record { mode = off; entries = [] }

abbrev pub with_mode : TrustMode → TrustList
with_mode mode = record { mode = mode; entries = [] }

abbrev pub set_mode : TrustMode → TrustList → TrustList
set_mode mode l = record l { mode = mode }

unfoldable pub is_trusted : String → TrustList → Bool
is_trusted pubkey l = if is_off l.mode then true else contains_key pubkey l.entries

unfoldable pub is_trusted_for : String → String → TrustList → Bool
is_trusted_for pubkey capability l = if is_off l.mode then true else elim (get pubkey l.entries) [
  | none ↦ false
  | some e ↦ is_empty e.capabilities || any (λ c. c == capability) e.capabilities
]

abbrev pub entry_count : TrustList → ℕ
entry_count l = length l.entries

-- `remove` gives back the entry that it removed.
unfoldable pub remove : String → TrustList → Option TrustEntry × TrustList
remove pubkey l = (get pubkey l.entries, record l { entries = delete pubkey l.entries })

unfoldable pub remove_by_nickname : String → TrustList → Option TrustEntry × TrustList
remove_by_nickname nickname l = elim (find (λ (k, e). e.nickname == nickname) l.entries) [
  | none ↦ (none, l)
  | some (k, e) ↦ remove k l
]

-- `BTreeMap::insert`: the value of an equal key is replaced.
unfoldable pub put : String → TrustEntry → Entries → Entries
put k e [] = (k, e) ∷ []
put k e ((j, d) ∷ es) =
    let rest = put k e es in
    if j == k then (k, e) ∷ es else if text_lt k j then (k, e) ∷ ((j, d) ∷ es) else (j, d) ∷ rest

unfoldable pub add : TrustEntry → TrustList → TrustList
add e l = record l { entries = put e.pubkey e l.entries }

unfoldable pub add_unique : TrustEntry → TrustList → Result TrustError Unit × TrustList
add_unique e l =
    if contains_key e.pubkey l.entries
    then (err (duplicate_pubkey e.pubkey), l)
    else (ok tt, record l { entries = put e.pubkey e l.entries })

-- The loop of `from_toml_str` over the peers of a parsed file.
unfoldable pub put_all : List TrustEntry → Entries → Entries
put_all [] es = es
put_all (e ∷ rest) es = put_all rest (put e.pubkey e es)

unfoldable pub from_peers : TrustMode → List TrustEntry → TrustList
from_peers mode peers = record { mode = mode; entries = put_all peers [] }

-- The loop of `merge` over the other list's values: how many were added, and the entries.
unfoldable pub merge_loop : List TrustEntry → ℕ → Entries → ℕ × Entries
merge_loop [] added es = (added, es)
merge_loop (e ∷ rest) added es =
    let known = contains_key e.pubkey es in
    merge_loop rest (if known then added else added + 1) (if known then es else put e.pubkey e es)

unfoldable pub merge : TrustList → TrustList → ℕ × TrustList
merge other l =
    let (added, es) = merge_loop (map (λ (k, e). e) other.entries) 0 l.entries in
    (added, record l { entries = es })
