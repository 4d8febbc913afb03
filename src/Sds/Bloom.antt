-- ===== src/Sds/Bloom.antt =====
-- crates/logos-messaging-a2a-transport/src/sds/bloom.rs: the filter that deduplicates messages.
-- The crate `bloomfilter` is the parameter `BloomApi`; `BloomLaws` states what its documentation
-- promises. A false-positive rate is a fraction, since there are no floats.
pub mod Laws
pub mod Bytes
use lmao.Prelude.{
  ℕ, ◌+◌, ◌*◌, ◌^◌, ◌<◌, ◌≡◌, String, Bool, true, false, Option, none, some, List, ◌++◌, ltb, leb,
  eqb, if◌then◌else◌, length, take, drop,
}
use lmao.Prelude.Words.{le_bytes, le_value}

abbrev pub SipKeys : Type 0
SipKeys = (ℕ × ℕ) × (ℕ × ℕ)

-- The operations of `bloomfilter::Bloom<str>`, over an abstract filter.
pub record BloomApi (F : Type 0) : Type 0 where
  pub new_for_fp_rate : ℕ → ℕ × ℕ → F
  pub check : F → String → Bool
  pub set : F → String → F
  pub bitmap : F → List ℕ
  pub number_of_bits : F → ℕ
  pub number_of_hash_functions : F → ℕ
  pub sip_keys : F → SipKeys
  pub from_existing : List ℕ → ℕ → ℕ → SipKeys → F

-- What the source relies on: no false negatives, an empty new filter, words in range, and that
-- the parts of a filter make a filter that answers alike.
pub record BloomLaws {F : Type 0} (api : BloomApi F) : Type 0 where
  pub check-set_self : (f : F) (x : String) → api.check (api.set f x) x ≡ true
  pub check-set : (f : F) (x y : String) → api.check f x ≡ true → api.check (api.set f y) x ≡ true
  pub check-new : (c : ℕ) (r : ℕ × ℕ) (x : String) → api.check (api.new_for_fp_rate c r) x ≡ false
  pub bits_range : (f : F) → api.number_of_bits f < 2 ^ 64
  pub hash_functions_range : (f : F) → api.number_of_hash_functions f < 2 ^ 32
  pub keys_range :
      (f : F)
      → ((api.sip_keys f).0.0 < 2 ^ 64)
        × ((api.sip_keys f).0.1 < 2 ^ 64)
        × ((api.sip_keys f).1.0 < 2 ^ 64)
        × ((api.sip_keys f).1.1 < 2 ^ 64)
  pub check-from_existing :
      (f : F) (x : String)
      → api.check
          (api.from_existing
            (api.bitmap f)
            (api.number_of_bits f)
            (api.number_of_hash_functions f)
            (api.sip_keys f))
          x
        ≡ api.check f x

abbrev pub default_capacity : ℕ
default_capacity = 10000

abbrev pub default_error_rate : ℕ × ℕ
default_error_rate = (1, 1000)

pub record SdsBloomFilter (F : Type 0) : Type 0 where
  pub inner : F
  pub capacity : ℕ
  pub item_count : ℕ

module _ {F : Type 0} (api : BloomApi F) where
  abbrev pub with_params : ℕ → ℕ × ℕ → SdsBloomFilter F
  with_params capacity error_rate = record {
    inner = api.new_for_fp_rate capacity error_rate;
    capacity = capacity;
    item_count = 0;
  }

  abbrev pub new : SdsBloomFilter F
  new = with_params default_capacity default_error_rate

  abbrev pub check : SdsBloomFilter F → String → Bool
  check b message_id = api.check b.inner message_id

  -- Adds an id; a filter that has reached its capacity is emptied.
  unfoldable pub set : SdsBloomFilter F → String → SdsBloomFilter F
  set b message_id =
      let filter = api.set b.inner message_id in
      let count = b.item_count + 1 in
      if leb b.capacity count
      then record b { inner = api.new_for_fp_rate b.capacity default_error_rate; item_count = 0 }
      else record b { inner = filter; item_count = count }

  unfoldable pub check_and_set : SdsBloomFilter F → String → Bool × SdsBloomFilter F
  check_and_set b message_id =
      let seen = api.check b.inner message_id in
      if seen
      then (seen, b)
      else (seen, record b { inner = api.set b.inner message_id; item_count = b.item_count + 1 })

  unfoldable pub to_bytes : SdsBloomFilter F → List ℕ
  to_bytes b =
      let ((a0, b0), (a1, b1)) = api.sip_keys b.inner in
      le_bytes 8 (api.number_of_bits b.inner)
      ++ (le_bytes 4 (api.number_of_hash_functions b.inner)
          ++ (le_bytes 8 a0
              ++ (le_bytes 8 b0 ++ (le_bytes 8 a1 ++ (le_bytes 8 b1 ++ api.bitmap b.inner)))))

  -- `data[start..start + width]` as a word
  abbrev word_at : List ℕ → ℕ → ℕ → ℕ
  word_at bytes start width = le_value (take width (drop start bytes))

  abbrev key_at : List ℕ → ℕ → ℕ × ℕ
  key_at bytes i =
      let offset = 12 + i * 16 in (word_at bytes offset 8, word_at bytes (offset + 8) 8)

  unfoldable pub from_bytes : List ℕ → Option (SdsBloomFilter F)
  from_bytes bytes =
      if ltb (length bytes) 44
      then none
      else some (record {
        inner =
            api.from_existing (drop 44 bytes) (word_at bytes 0 8) (word_at bytes 8 4)
              (key_at bytes 0, key_at bytes 1);
        capacity = default_capacity;
        item_count = 0;
      })

  abbrev pub probably_contains : SdsBloomFilter F → String → Bool
  probably_contains b message_id = check b message_id

  abbrev pub len : SdsBloomFilter F → ℕ
  len b = b.item_count

  abbrev pub is_empty : SdsBloomFilter F → Bool
  is_empty b = eqb (len b) 0
