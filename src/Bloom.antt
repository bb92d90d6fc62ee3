-- ===== src/Bloom.antt =====
-- internal/pkg/bloom/bloom.go. `fnv` is the 64-bit FNV-1a sum of a text followed by one byte. The
-- mutex only keeps operations apart; the two functions that size a filter work on floating-point
-- numbers and are left out.
pub mod Membership
mod Tests
use flashsale_service.Prelude.{
  ◌≡◌, refl, List, ℕ, String, Bool, Option, [], none, some, ◌∷◌, true, suc, false, ◌%◌, ◌+◌, zero,
}
use mathlib.Core.Option

pub record BloomFilter : Type 0 where
  pub bitset : List Bool
  pub size : ℕ
  pub hash_count : ℕ

-- `make([]bool, size)`
unfoldable pub make_bits : ℕ → List Bool
make_bits zero = []
make_bits (suc n) = false ∷ make_bits n

unfoldable pub new_bloom_filter : ℕ → ℕ → BloomFilter
unfolding make_bits
new_bloom_filter size hash_count = record {
  bitset = make_bits size;
  size = size;
  hash_count = hash_count;
}

-- `bitset[position]`, and `bitset[position] = true`: a position out of range panics.
unfoldable pub bit_at : ℕ → List Bool → Option Bool
bit_at p [] = none
bit_at zero (b ∷ bs) = some b
bit_at (suc p) (b ∷ bs) = bit_at p bs

unfoldable pub set_bit : ℕ → List Bool → Option (List Bool)
set_bit p [] = none
set_bit zero (b ∷ bs) = some (true ∷ bs)
set_bit (suc p) (b ∷ bs) = Option.map (λ bs'. b ∷ bs') (set_bit p bs)

unfoldable pub clear : BloomFilter → BloomFilter
unfolding make_bits
clear bf = record bf { bitset = make_bits bf.size }

module _ (fnv : String → ℕ → ℕ) where
  -- `byte(seed)` keeps eight bits of the seed. A filter of size 0 panics.
  unfoldable pub hash : ℕ → String → ℕ → Option ℕ
  hash zero item seed = none
  hash (suc n) item seed = some (fnv item (seed % 256) % suc n)

  abbrev pub then_some : {A B : Type 0} → Option A → (A → Option B) → Option B
  then_some none f = none
  then_some (some a) f = f a

  -- The loop of `Add`, with `left` rounds to go.
  unfoldable pub add_from : ℕ → ℕ → ℕ → String → List Bool → Option (List Bool)
  unfolding hash
  add_from size zero i item bits = some bits
  add_from size (suc left) i item bits = then_some (hash size item i) (λ position.
      then_some (set_bit position bits) (λ bits'. add_from size left (i + 1) item bits'))

  unfoldable pub add : BloomFilter → String → Option BloomFilter
  unfolding add_from
  add bf item =
      Option.map (λ bits. record bf { bitset = bits })
        (add_from bf.size bf.hash_count 0 item bf.bitset)

  abbrev pub and_then : Bool → Option Bool → Option Bool
  and_then true rest = rest
  and_then false rest = some false

  -- The loop of `Contains`.
  unfoldable pub contains_from : ℕ → ℕ → ℕ → String → List Bool → Option Bool
  unfolding hash
  contains_from size zero i item bits = some true
  contains_from size (suc left) i item bits =
      let rest = contains_from size left (i + 1) item bits in
      then_some (hash size item i)
        (λ position. then_some (bit_at position bits) (λ b. and_then b rest))

  unfoldable pub contains : BloomFilter → String → Option Bool
  unfolding contains_from
  contains bf item = contains_from bf.size bf.hash_count 0 item bf.bitset

  -- Items added one after the other.
  unfoldable pub add_all : BloomFilter → List String → Option BloomFilter
  unfolding add
  add_all bf [] = some bf
  add_all bf (item ∷ items) = then_some (add bf item) (λ bf'. add_all bf' items)
