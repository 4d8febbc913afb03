-- ===== src/Sds/Bloom/Laws.antt =====
-- The filter of bloom.rs between two resets: what has been added is found.
use lmao.Prelude.{◌+◌, ◌<◌, ◌≡◌, String, true, false, arith}
use lmao.Sds.Bloom.{BloomApi, BloomLaws, SdsBloomFilter, check, set, default_error_rate}

module _ {F : Type 0} (api : BloomApi F) (laws : BloomLaws api) where
  -- While the filter has room, an added id is found and all that was found still is.
  pub check-set_room :
      (b : SdsBloomFilter F) (x y : String)
      → b.item_count + 1 < b.capacity
      → (check api (set api b y) y ≡ true)
        × (check api b x ≡ true → check api (set api b y) x ≡ true)
  unfolding set
  check-set_room b x y h = (
    ground (arith, laws.check-set_self b.inner y),
    λ seen. ground (arith, laws.check-set b.inner x y),
  )

  -- Adding keeps the count below a capacity that is not zero; the count grows by one or restarts.
  pub set-count :
      (b : SdsBloomFilter F) (y : String)
      → 0 < b.capacity
      → ((set api b y).item_count < (set api b y).capacity) × ((set api b y).capacity ≡ b.capacity)
  unfolding set
  set-count b y h = (ground arith, ground arith)

  -- The add that reaches the capacity forgets every id, the one just added too.
  pub check-set_full :
      (b : SdsBloomFilter F) (x y : String)
      → b.item_count + 1 ≡ b.capacity
      → check api (set api b y) x ≡ false
  unfolding set
  check-set_full b x y h = ground (arith, laws.check-new b.capacity default_error_rate x)

module _ {F : Type 0} (api : BloomApi F) where
  pub set_room-count :
      (b : SdsBloomFilter F) (y : String)
      → b.item_count + 1 < b.capacity
      → ((set api b y).item_count ≡ b.item_count + 1) × ((set api b y).capacity ≡ b.capacity)
  unfolding set
  set_room-count b y h = (ground arith, ground arith)
