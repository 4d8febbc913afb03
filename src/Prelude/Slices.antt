-- ===== src/Prelude/Slices.antt =====
-- Prefixes and ends of texts, and hexadecimal numbers in them, as Rust's standard library reads them.
use Prim.Native.Nat.{ℕ, suc, zero, ◌+◌, ◌*◌, ◌-◌}
use Prim.Native.Char.{Char, code}
use Prim.Native.String
use Prim.Native.String.append
use Prim.Native.String.{String}
use mathlib.Core.Path.{◌≡◌, ap}
use native.Mathlib.Omega.{arith}
use mathlib.Core.Bool.{Bool, true, ◌&&◌}
use mathlib.Core.Option.{Option, none, some}
use lmao.Prelude.Tests.{leb, ltb, eqb, if◌then◌else◌}
use lmao.Prelude.Words.{u64_mod}

unfoldable pub strip_prefix : String → String → Option String
strip_prefix String.[] s = some s
strip_prefix (String.◌∷◌ p ps) String.[] = none
strip_prefix (String.◌∷◌ p ps) (String.◌∷◌ c cs) =
    let rest = strip_prefix ps cs in if eqb (code p) (code c) then rest else none

pub concat-nil : (t : String) → String.◌++◌ String.[] t ≡ t
concat-nil t = append.nil t

pub concat-cons :
    (c : Char) (s t : String) → String.◌++◌ (String.◌∷◌ c s) t ≡ String.◌∷◌ c (String.◌++◌ s t)
concat-cons c s t = append.cons c s t

pub strip_prefix-concat : (p s : String) → strip_prefix p (String.◌++◌ p s) ≡ some s
unfolding strip_prefix
strip_prefix-concat String.[] s = ap some (concat-nil s)
strip_prefix-concat (String.◌∷◌ c cs) s =
    let self : eqb (code c) (code c) ≡ true = ground arith in
    rw (concat-cons c cs s, strip_prefix, self) (strip_prefix-concat cs s)

-- The length of a text of ASCII characters.
abbrev pub text_length : String → ℕ
text_length String.[] = 0
text_length (String.◌∷◌ c cs) = suc (text_length cs)

abbrev pub text_drop : ℕ → String → String
text_drop zero s = s
text_drop (suc n) String.[] = String.[]
text_drop (suc n) (String.◌∷◌ c cs) = text_drop n cs

abbrev pub text_take : ℕ → String → String
text_take zero s = String.[]
text_take (suc n) String.[] = String.[]
text_take (suc n) (String.◌∷◌ c cs) = String.◌∷◌ c (text_take n cs)

abbrev pub last_chars : ℕ → String → String
last_chars n s = text_drop (text_length s - n) s

-- `trim_start_matches("0x")`
unfoldable pub trim_0x : String → String
trim_0x String.[] = String.[]
trim_0x (String.◌∷◌ a String.[]) = String.◌∷◌ a String.[]
trim_0x (String.◌∷◌ a (String.◌∷◌ b s)) =
    let rest = trim_0x s in
    if eqb (code a) 48 && eqb (code b) 120 then rest else String.◌∷◌ a (String.◌∷◌ b s)

abbrev pub between : ℕ → ℕ → ℕ → Bool
between low high c = leb low c && leb c high

abbrev pub hex_digit : Char → Option ℕ
hex_digit c =
    if between 48 57 (code c)
    then some (code c - 48)
    else if between 97 102 (code c)
    then some (code c - 87)
    else if between 65 70 (code c)
    then some (code c - 55)
    else none

-- The digits after those that make `acc`, with the test for overflow.
unfoldable pub hex_digits : ℕ → String → Option ℕ
hex_digits acc String.[] = some acc
hex_digits acc (String.◌∷◌ c cs) = elim (hex_digit c) [
  | none ↦ none
  | some d ↦
      let rest = hex_digits (acc * 16 + d) cs in if ltb (acc * 16 + d) u64_mod then rest else none
]

-- `u64::from_str_radix` to the base 16
unfoldable pub from_hex_u64 : String → Option ℕ
from_hex_u64 String.[] = none
from_hex_u64 (String.◌∷◌ c String.[]) =
    let rest = hex_digits 0 (String.◌∷◌ c String.[]) in if eqb (code c) 43 then none else rest
from_hex_u64 (String.◌∷◌ c (String.◌∷◌ d cs)) =
    let signed = hex_digits 0 (String.◌∷◌ d cs) in
    let plain = hex_digits 0 (String.◌∷◌ c (String.◌∷◌ d cs)) in
    if eqb (code c) 43 then signed else plain
