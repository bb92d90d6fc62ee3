-- ===== src/Redis/BloomFilter.antt =====
-- internal/infrastructure/bloom/redis_bloom.go. `fnv` is the 64-bit FNV-1a sum of a text, `sha` the
-- first eight bytes of its SHA-256 sum; sums of uint64 wrap. The choice of size and rounds and the
-- estimate of false positives are floating-point arithmetic and left out.
pub mod Membership
use flashsale_service.Redis.Client.{pipeline, request, Net, exec_all, telling, asking}
use flashsale_service.Redis.Server.{Redis}
use flashsale_service.Prelude.{
  ◌≡◌, refl, String, ℕ, List, [], Bool, ◌%◌, true, ◌^◌, ◌∷◌, suc, ◌+◌, ◌&&◌, ◌*◌, zero,
}
use flashsale_service.Effect.{◌>>=◌, ◌>>◌, M, pure}

-- `m` is not 0: Go would panic where it divides by it. `NewCache` takes it from 100,000 elements.
pub record RedisBloomFilter : Type 0 where
  pub key : String
  pub m : ℕ
  pub k : ℕ

unfoldable pub new_redis_bloom_filter : String → ℕ → ℕ → RedisBloomFilter
new_redis_bloom_filter key m k = record { key = key; m = m; k = k }

-- The loop of `getHashes`, from round `i` on.
unfoldable pub hashes_from : ℕ → ℕ → ℕ → ℕ → List ℕ
hashes_from h1 h2 i zero = []
hashes_from h1 h2 i (suc left) =
    ((h1 + (i * h2) % 2 ^ 64) % 2 ^ 64) ∷ hashes_from h1 h2 (i + 1) left

-- `cmd.Val() == 0` for one of the commands.
unfoldable pub all_set : List Bool → Bool
all_set [] = true
all_set (b ∷ bs) = b && all_set bs

module _ {S : Type 0} (r : Redis S) (fnv sha : String → ℕ) (bf : RedisBloomFilter) where
  unfoldable pub get_hashes : String → List ℕ
  unfolding hashes_from
  get_hashes element = hashes_from (fnv element % 2 ^ 64) (sha element % 2 ^ 64) 0 bf.k

  -- The loops of `Add` and `Contains` over the pipeline.
  unfoldable pub set_bits : List ℕ → List (M S (Unit {0}))
  set_bits [] = []
  set_bits (h ∷ hs) = r.set_bit bf.key (h % bf.m) ∷ set_bits hs

  unfoldable pub get_bits : List ℕ → List (M S Bool)
  get_bits [] = []
  get_bits (h ∷ hs) = asking (r.get_bit bf.key (h % bf.m)) ∷ get_bits hs

  unfoldable pub add : String → M (Net S) (Unit {0})
  unfolding get_hashes set_bits pipeline
  add element = exec_all (set_bits (get_hashes element))

  unfoldable pub contains : String → M (Net S) Bool
  unfolding get_hashes get_bits pipeline all_set
  contains element = do bits ← pipeline (get_bits (get_hashes element)); pure (all_set bits)

  unfoldable pub clear : M (Net S) (Unit {0})
  unfolding request
  clear = request (telling (r.del bf.key))
