-- ===== src/Sds/Bloom/Bytes.antt =====
-- The wire form of the filter of bloom.rs: `to_bytes` and `from_bytes`.
use lmao.Prelude.{◌≡◌, refl, String, some, arith, length, ge→ltb}
use lmao.Prelude.Words.{le_bytes, le_value-le_bytes}
use lmao.Sds.Bloom.{
  BloomApi, BloomLaws, SdsBloomFilter, check, to_bytes, from_bytes, default_capacity,
}

module _ {F : Type 0} (api : BloomApi F) (laws : BloomLaws api) where
  abbrev decoded : SdsBloomFilter F → SdsBloomFilter F
  decoded b = record {
    inner =
        api.from_existing (api.bitmap b.inner) (api.number_of_bits b.inner)
          (api.number_of_hash_functions b.inner) (api.sip_keys b.inner);
    capacity = default_capacity;
    item_count = 0;
  }

  from_bytes-to_bytes_parts :
      (b : SdsBloomFilter F) → from_bytes api (to_bytes api b) ≡ some (decoded b)
  unfolding from_bytes to_bytes le_bytes
  from_bytes-to_bytes_parts b = rw (ge→ltb (length (to_bytes api b)) 44 (omega arith)) (
      cc (
        le_value-le_bytes 8 (api.number_of_bits b.inner) (laws.bits_range b.inner),
        le_value-le_bytes 4 (api.number_of_hash_functions b.inner)
            (laws.hash_functions_range b.inner),
        le_value-le_bytes 8 (api.sip_keys b.inner).0.0 (laws.keys_range b.inner).0,
        le_value-le_bytes 8 (api.sip_keys b.inner).0.1 (laws.keys_range b.inner).1,
        le_value-le_bytes 8 (api.sip_keys b.inner).1.0 (laws.keys_range b.inner).2,
        le_value-le_bytes 8 (api.sip_keys b.inner).1.1 (laws.keys_range b.inner).3,
      ))

  -- A filter that is sent as bytes is read back and answers every question as it did, by the laws
  -- of its crate; its count starts again, under the default capacity.
  pub from_bytes-to_bytes :
      (b : SdsBloomFilter F)
      → (b' : SdsBloomFilter F) × (from_bytes api (to_bytes api b) ≡ some b')
        × ((x : String) → check api b' x ≡ check api b x)
        × (b'.item_count ≡ 0)
        × (b'.capacity ≡ default_capacity)
  from_bytes-to_bytes b =
      (decoded b, from_bytes-to_bytes_parts b, λ x. laws.check-from_existing b.inner x, refl, refl)
