-- ===== src/Examples/Keys.antt =====
-- A small cipher with its encodings and a small signature scheme, with which the theorems are run.
use Prim.Native.Char.{Char, code}
use lmao.Prelude.{
  ℕ, zero, suc, ◌+◌, ◌≡◌, refl, sym, ap, ◌∙◌, String, true, Option, none, some, [], ◌∷◌, length,
  eqb, if◌then◌else◌, arith,
}
use lmao.Prelude.Keyed.{some_inj}
use lmao.Prelude.Result.{ok}
use lmao.Sds.Message.{Bytes}
use lmao.Crypto.{CryptoApi}
use lmao.Crypto.Roundtrip.{CryptoLaws}
use lmao.Presence.{SignatureApi, Canonical, same_bytes}
use lmao.Presence.Sealing.{same_bytes_self}
use lmao.Presence.Signing.{SignatureLaws}

abbrev bar : Char
bar = "|"

abbrev dot : Char
dot = "."

-- A byte is written as so many bars and a dot.
abbrev pub bars : ℕ → String → String
bars zero s = s
bars (suc n) s = String.◌∷◌ bar (bars n s)

abbrev pub write : Bytes → String
write [] = ""
write (x ∷ xs) = bars x (String.◌∷◌ dot (write xs))

abbrev pub read : ℕ → String → Bytes
read n String.[] = []
read n (String.◌∷◌ c s) = if eqb (code c) 46 then n ∷ read 0 s else read (suc n) s

read-bars : (m n : ℕ) (s : String) → read m (bars n (String.◌∷◌ dot s)) ≡ (m + n) ∷ read 0 s
read-bars m zero s = let e : m + zero ≡ m = omega arith in rw e refl
read-bars m (suc n) s = let e : m + suc n ≡ suc m + n = omega arith in rw e (read-bars (suc m) n s)

read-write : (xs : Bytes) → read 0 (write xs) ≡ xs
read-write [] = refl
read-write (x ∷ xs) =
    let e : zero + x ≡ x = omega arith in read-bars 0 x (write xs) ∙ rw (read-write xs, e) refl

-- Keys are their own public halves; two are shared by adding them.
abbrev pub add : Bytes → Bytes → Bytes
add [] ys = []
add (x ∷ xs) [] = []
add (x ∷ xs) (y ∷ ys) = (x + y) ∷ add xs ys

add_comm : (xs ys : Bytes) → add xs ys ≡ add ys xs
add_comm [] [] = refl
add_comm [] (y ∷ ys) = refl
add_comm (x ∷ xs) [] = refl
add_comm (x ∷ xs) (y ∷ ys) = let e : x + y ≡ y + x = omega arith in rw (e, add_comm xs ys) refl

-- A ciphertext is the key, of this length, and the plaintext.
abbrev opened : Bytes → Bytes → Option Bytes
opened [] text = some text
opened (k ∷ key) [] = none
opened (k ∷ key) (x ∷ text) = if eqb k x then opened key text else none

abbrev pub sealed : Bytes → Bytes → Bytes
sealed [] text = text
sealed (k ∷ key) text = k ∷ sealed key text

opened-sealed : (key text : Bytes) → opened key (sealed key text) ≡ some text
opened-sealed [] text = refl
opened-sealed (k ∷ key) text =
    let self : eqb k k ≡ true = ground arith in rw self (opened-sealed key text)

abbrev pub toy_crypto : CryptoApi
toy_crypto = record {
  public_of = λ secret. secret;
  diffie_hellman = add;
  aead_encrypt = λ key nonce text. some (sealed key text);
  aead_decrypt = λ key nonce text. opened key text;
  hex_encode = write;
  hex_decode = λ text. ok (read 0 text);
  base64_encode = write;
  base64_decode = λ text. some (read 0 text);
}

pub toy_crypto_laws : CryptoLaws toy_crypto
toy_crypto_laws = record {
  diffie_hellman_comm = λ a b la lb. add_comm a b;
  length-public_of = λ a la. la;
  decrypt-encrypt = λ key nonce text c h.
      ap (opened key) (sym (some_inj (sealed key text) c h)) ∙ opened-sealed key text;
  hex_decode-hex_encode = λ bytes. ap ok (read-write bytes);
  base64_decode-base64_encode = λ bytes. ap some (read-write bytes);
}

-- Keys of 32 bytes.
abbrev fill : ℕ → ℕ → Bytes
fill zero x = []
fill (suc n) x = x ∷ fill n x

abbrev pub key_a : Bytes
key_a = fill 32 1

abbrev pub key_b : Bytes
key_b = fill 32 2

abbrev pub nonce : Bytes
nonce = fill 12 0

-- A signature is the key's number and what is signed.
abbrev toy_encode : Canonical → Bytes
toy_encode c = c.ttl_secs ∷ length c.sealed_status ∷ []

abbrev number_of : Bytes → Option ℕ
number_of [] = none
number_of (k ∷ rest) = some k

abbrev pub toy_signatures : SignatureApi ℕ ℕ Bytes
toy_signatures = record {
  encode = toy_encode;
  hex_decode = λ text. some (read 0 text);
  from_sec1_bytes = number_of;
  from_der = λ bytes. some bytes;
  sign_to_der = λ k m. k ∷ m;
  verify = λ k m sig. same_bytes (k ∷ m) sig;
}

abbrev pub public_hex : ℕ → String
public_hex k = write (k ∷ [])

pub toy-SignatureLaws : SignatureLaws toy_signatures public_hex
toy-SignatureLaws = record {
  public_bytes = λ k. k ∷ [];
  verifying_key = λ k. k;
  signature = λ k m. k ∷ m;
  hex_decode-public_hex = λ k. ap some (read-write (k ∷ []));
  from_sec1_bytes-public = λ k. refl;
  from_der-sign = λ k m. refl;
  verify-sign = λ k m. same_bytes_self (k ∷ m);
}
