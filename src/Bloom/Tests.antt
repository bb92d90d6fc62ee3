-- ===== src/Bloom/Tests.antt =====
-- A filter at a concrete input.
use flashsale_service.Bloom.Membership.{new_bloom_filter-contains}
use flashsale_service.Bloom.{BloomFilter, add_all, new_bloom_filter, contains}
use flashsale_service.Prelude.{◌≡◌, String, ℕ, ◌*◌, ◌+◌, ◌∷◌, [], some, All, true}

-- A sum that tells the rounds apart, and not the texts.
abbrev by_round : String → ℕ → ℕ
by_round item seed = seed * 7 + 3

new_bloom_filter-contains_example :
    (bf : BloomFilter) × (add_all by_round (new_bloom_filter 5 3) ("a" ∷ "b" ∷ []) ≡ some bf)
    × All (λ item. contains by_round bf item ≡ some true) ("a" ∷ "b" ∷ [])
new_bloom_filter-contains_example = new_bloom_filter-contains by_round 4 3 ("a" ∷ "b" ∷ [])
