-- ===== src/Node/History/Cid.antt =====
-- Which reference `extract_codex_cid` of node/src/delegation.rs finds in a response.
use lmao.Prelude.{◌≡◌, refl, sym, ap, ◌∙◌, String, true, false, none, some}
use lmao.Prelude.Slices.{strip_prefix, concat-nil, concat-cons, strip_prefix-concat}
use lmao.Transport.{concat}
use lmao.Node.History.{
  after_first, is_ascii_alphanumeric, take_alphanumeric, cid_mark, extract_codex_cid,
}

abbrev pub IsAlphanumeric : String → Type 0
IsAlphanumeric String.[] = Unit
IsAlphanumeric (String.◌∷◌ c cs) = (is_ascii_alphanumeric c ≡ true) × IsAlphanumeric cs

-- No letter or digit comes first.
abbrev pub EndsHere : String → Type 0
EndsHere String.[] = Unit
EndsHere (String.◌∷◌ c cs) = is_ascii_alphanumeric c ≡ false

-- The mark begins nowhere in the first text, also not with an end in the second.
abbrev pub IsClear : String → String → Type 0
IsClear String.[] tail = Unit
IsClear (String.◌∷◌ c cs) tail =
    (strip_prefix cid_mark (concat (String.◌∷◌ c cs) tail) ≡ none) × IsClear cs tail

take_alphanumeric-concat :
    (cid rest : String)
    → IsAlphanumeric cid
    → EndsHere rest
    → take_alphanumeric (concat cid rest) ≡ cid
unfolding take_alphanumeric
take_alphanumeric-concat String.[] String.[] h e = refl
take_alphanumeric-concat String.[] (String.◌∷◌ c cs) h e =
    rw (concat-nil (String.◌∷◌ c cs), take_alphanumeric, e) refl
take_alphanumeric-concat (String.◌∷◌ c cs) rest h e =
    rw (concat-cons c cs rest, take_alphanumeric, h.0)
      (ap (String.◌∷◌ c) (take_alphanumeric-concat cs rest h.1 e))

after_first-concat :
    (before tail rest : String)
    → IsClear before tail
    → strip_prefix cid_mark tail ≡ some rest
    → after_first cid_mark (concat before tail) ≡ some rest
unfolding after_first
after_first-concat String.[] String.[] rest h e = e
after_first-concat String.[] (String.◌∷◌ c cs) rest h e =
    rw (concat-nil (String.◌∷◌ c cs), after_first, e) refl
after_first-concat (String.◌∷◌ c cs) tail rest h e =
    let clear : strip_prefix cid_mark (String.◌∷◌ c (concat cs tail)) ≡ none =
      ap (strip_prefix cid_mark) (sym (concat-cons c cs tail)) ∙ h.0 in
    rw (concat-cons c cs tail, after_first, clear) (after_first-concat cs tail rest h.1 e)

-- Of the references in a response the first one's letters and digits are extracted, whatever follows
-- them, also when another reference trails.
pub extract_codex_cid_first :
    (before cid rest : String)
    → let tail = concat cid_mark (concat cid rest) in
      IsClear before tail
      → IsAlphanumeric cid
      → EndsHere rest
      → extract_codex_cid (concat before tail) ≡ cid
unfolding extract_codex_cid
extract_codex_cid_first before cid rest clear letters ends =
    let tail = concat cid_mark (concat cid rest) in
    let found =
      after_first-concat before tail (concat cid rest) clear
        (strip_prefix-concat cid_mark (concat cid rest)) in
    rw (extract_codex_cid, found) (take_alphanumeric-concat cid rest letters ends)
