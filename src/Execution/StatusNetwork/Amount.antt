-- ===== src/Execution/StatusNetwork/Amount.antt =====
-- The amount of a transfer that execution/src/status_network.rs reads from 256 bits.
use Prim.Native.Char.{Char, code}
use native.Mathlib.Nat.{
  pow-suc, pow-succ', mul_assoc, add-mul, mul-le-mul_left, mul-le-mul_right, pow-le-pow_right,
}
use lmao.Prelude.{
  ℕ, zero, suc, ◌+◌, ◌-◌, ◌*◌, ◌%◌, ◌^◌, ◌≤◌, ◌<◌, ◌≡◌, refl, ap, ◌∙◌, String, true, false, some,
  ltb, eqb, lt→ltb, Bool-cases, inl, inr, arith,
}
use lmao.Prelude.Slices.{text_length, text_drop, last_chars, hex_digit, hex_digits, from_hex_u64}
use lmao.Prelude.Words.{u64_mod}
use lmao.Execution.StatusNetwork.{or_zero, amount_of}

-- Every character is a hexadecimal digit.
abbrev pub IsHex : String → Type 0
IsHex String.[] = Unit
IsHex (String.◌∷◌ c cs) = ((d : ℕ) × (hex_digit c ≡ some d)) × IsHex cs

-- The number that digits after those of `acc` make, without a bound.
abbrev pub value : ℕ → String → ℕ
value acc String.[] = acc
value acc (String.◌∷◌ c cs) = value (acc * 16 + or_zero (hex_digit c)) cs

hex_digit-lt : (c : Char) (d : ℕ) → hex_digit c ≡ some d → d < 16
hex_digit-lt c d h = ground (arith, h)

no_sign : (c : Char) (d : ℕ) → hex_digit c ≡ some d → eqb (code c) 43 ≡ false
no_sign c d h = ground (arith, h)

pow-pos : (k : ℕ) → 1 ≤ 16 ^ k
pow-pos zero = omega arith
pow-pos (suc k) = omega (arith, pow-pos k, pow-suc 16 k)

-- One more digit after `acc`.
next_digit : (acc d k : ℕ) → d < 16 → (acc * 16 + d + 1) * 16 ^ k ≤ (acc + 1) * 16 ^ suc k
next_digit acc d k h =
    let more : (acc * 16 + d + 1) * 16 ^ k ≤ (acc + 1) * 16 * 16 ^ k =
      mul-le-mul_right (16 ^ k) (omega (arith, h)) in
    grind (arith, more, pow-succ' 16 k, mul_assoc (acc + 1) 16 (16 ^ k))

value-lt : (acc : ℕ) (s : String) → IsHex s → value acc s < (acc + 1) * 16 ^ text_length s
value-lt acc String.[] h = omega arith
value-lt acc (String.◌∷◌ c cs) ((d, e), hs) =
    let rest = value-lt (acc * 16 + d) cs hs in
    rw e (omega (arith, rest, next_digit acc d (text_length cs) (hex_digit-lt c d e)))

shift :
    (acc d k v a b : ℕ)
    → a ≡ (acc * 16 + d) * 16 ^ k + v
    → b ≡ (0 * 16 + d) * 16 ^ k + v
    → a ≡ acc * 16 ^ suc k + b
shift acc d k v a b ha hb =
    let split : (acc * 16 + d) * 16 ^ k ≡ acc * 16 * 16 ^ k + d * 16 ^ k =
      add-mul (acc * 16) d (16 ^ k) in
    grind (arith, ha, hb, split, pow-succ' 16 k, mul_assoc acc 16 (16 ^ k))

value-add : (acc : ℕ) (s : String) → value acc s ≡ acc * 16 ^ text_length s + value 0 s
value-add acc String.[] = omega arith
value-add acc (String.◌∷◌ c cs) =
    let d = or_zero (hex_digit c) in
    shift acc d (text_length cs) (value 0 cs) (value (acc * 16 + d) cs) (value (0 * 16 + d) cs)
      (value-add (acc * 16 + d) cs) (value-add (0 * 16 + d) cs)

value-text_drop :
    (n acc : ℕ) (s : String) → (before : ℕ) × (value acc s ≡ value before (text_drop n s))
value-text_drop zero acc s = (acc, refl)
value-text_drop (suc n) acc String.[] = (acc, refl)
value-text_drop (suc n) acc (String.◌∷◌ c cs) =
    value-text_drop n (acc * 16 + or_zero (hex_digit c)) cs

text_length-text_drop : (n : ℕ) (s : String) → text_length (text_drop n s) ≡ text_length s - n
text_length-text_drop zero s = omega arith
text_length-text_drop (suc n) String.[] = omega arith
text_length-text_drop (suc n) (String.◌∷◌ c cs) = omega (arith, text_length-text_drop n cs)

text_drop-IsHex : (n : ℕ) (s : String) → IsHex s → IsHex (text_drop n s)
text_drop-IsHex zero s h = h
text_drop-IsHex (suc n) String.[] h = tt
text_drop-IsHex (suc n) (String.◌∷◌ c cs) h = text_drop-IsHex n cs h.1

hex_digits-value :
    (acc : ℕ) (s : String)
    → IsHex s
    → (acc + 1) * 16 ^ text_length s ≤ u64_mod
    → hex_digits acc s ≡ some (value acc s)
unfolding hex_digits
hex_digits-value acc String.[] h room = refl
hex_digits-value acc (String.◌∷◌ c cs) ((d, e), hs) room =
    let k = text_length cs in
    let n = acc * 16 + d in
    let room' : (n + 1) * 16 ^ k ≤ u64_mod =
      omega (arith, room, next_digit acc d k (hex_digit-lt c d e)) in
    let grows : (n + 1) * 1 ≤ (n + 1) * 16 ^ k = mul-le-mul_left (n + 1) (pow-pos k) in
    let small : ltb n u64_mod ≡ true = lt→ltb n u64_mod (omega (arith, room', grows)) in
    rw (e, hex_digits, small) (hex_digits-value n cs hs room')

fits : (s : String) → text_length s ≤ 16 → (0 + 1) * 16 ^ text_length s ≤ u64_mod
fits s short =
    let few : 16 ^ text_length s ≤ 16 ^ 16 = pow-le-pow_right (omega arith) short in
    omega (arith, few)

from_hex_u64-value :
    (s : String) → IsHex s → text_length s ≤ 16 → or_zero (from_hex_u64 s) ≡ value 0 s
unfolding from_hex_u64
from_hex_u64-value String.[] h short = refl
from_hex_u64-value (String.◌∷◌ c String.[]) ((d, e), hs) short =
    let s = String.◌∷◌ c String.[] in
    rw (from_hex_u64, no_sign c d e, hex_digits-value 0 s ((d, e), hs) (fits s short)) refl
from_hex_u64-value (String.◌∷◌ c (String.◌∷◌ x xs)) ((d, e), hs) short =
    let s = String.◌∷◌ c (String.◌∷◌ x xs) in
    rw (from_hex_u64, no_sign c d e, hex_digits-value 0 s ((d, e), hs) (fits s short)) refl

short-lt : (s : String) → IsHex s → text_length s ≤ 16 → value 0 s < u64_mod
short-lt s h short = omega (arith, value-lt 0 s h, fits s short)

-- The amount that is read from digits is the number that they make, less what is above 64 bits.
pub amount_of-value : (s : String) → IsHex s → amount_of s ≡ value 0 s % u64_mod
unfolding amount_of
amount_of-value s h = elim (Bool-cases (ltb 16 (text_length s))) [
  | inr short ↦
      let few : text_length s ≤ 16 = ground (arith, short) in
      rw (amount_of, short, from_hex_u64-value s h few) (omega (arith, short-lt s h few))
  | inl long ↦
      let n = text_length s - 16 in
      let t = last_chars 16 s in
      let many : 16 < text_length s = ground (arith, long) in
      let len : text_length t ≡ 16 = omega (arith, text_length-text_drop n s) in
      let ht = text_drop-IsHex n s h in
      let (before, cut) = value-text_drop n 0 s in
      let sum : value before t ≡ before * 16 ^ 16 + value 0 t =
        value-add before t ∙ ap (λ k. before * 16 ^ k + value 0 t) len in
      rw (amount_of, long, from_hex_u64-value t ht (omega (arith, len)))
        (omega (arith, cut, sum, short-lt t ht (omega (arith, len))))
]
