-- ===== src/Bloom/Membership.antt =====
-- A filter contains what was added to it, and no position is out of range.
use flashsale_service.Bloom.{
  bit_at, set_bit, make_bits, new_bloom_filter, contains_from, add_from, add_all, BloomFilter, hash,
  add, contains,
}
use flashsale_service.Prelude.{
  ◌≡◌, refl, ℕ, List, String, Bool, length, ◌%◌, some, ◌∷◌, ◌<◌, suc, All, true, arith, ap, ◌+◌,
  zero, ◌∙◌, [],
}

abbrev Holds : ℕ → List Bool → Type 0
Holds p bits = bit_at p bits ≡ some true

abbrev Keeps : List Bool → List Bool → Type 0
Keeps bits bits' = (q : ℕ) → Holds q bits → Holds q bits'

record BitSet (p : ℕ) (bits : List Bool) : Type 0 where
  pub after : List Bool
  pub made : set_bit p bits ≡ some after
  pub same_length : length after ≡ length bits
  pub here : Holds p after
  pub keeps : Keeps bits after

first-Keeps : (b : Bool) (bs : List Bool) → Keeps (b ∷ bs) (true ∷ bs)
unfolding bit_at
first-Keeps b bs zero h = refl
first-Keeps b bs (suc q) h = h

rest-Keeps : (b : Bool) (bs bs' : List Bool) → Keeps bs bs' → Keeps (b ∷ bs) (b ∷ bs')
unfolding bit_at
rest-Keeps b bs bs' k zero h = h
rest-Keeps b bs bs' k (suc q) h = k q h

set_bit-BitSet : (p : ℕ) (bits : List Bool) → p < length bits → BitSet p bits
unfolding set_bit bit_at
set_bit-BitSet p [] h = absurd (omega (arith, h))
set_bit-BitSet zero (b ∷ bs) h = record {
  after = true ∷ bs;
  made = refl;
  same_length = refl;
  here = refl;
  keeps = first-Keeps b bs;
}
set_bit-BitSet (suc p) (b ∷ bs) h =
    let s = set_bit-BitSet p bs (omega (arith, h)) in
    record {
      after = b ∷ s.after;
      made = rw s.made refl;
      same_length = ap suc s.same_length;
      here = s.here;
      keeps = rest-Keeps b bs s.after s.keeps;
    }

length-make_bits : (n : ℕ) → length (make_bits n) ≡ n
unfolding make_bits
length-make_bits zero = refl
length-make_bits (suc n) = ap suc (length-make_bits n)

module _ (fnv : String → ℕ → ℕ) (n : ℕ) where
  abbrev position : String → ℕ → ℕ
  position item i = fnv item (i % 256) % suc n

  HasAll : ℕ → ℕ → String → List Bool → Type 0
  HasAll zero i item bits = Unit
  HasAll (suc left) i item bits = Holds (position item i) bits × HasAll left (i + 1) item bits

  HasAll-Keeps :
      (left i : ℕ) (item : String) (bits bits' : List Bool)
      → Keeps bits bits'
      → HasAll left i item bits
      → HasAll left i item bits'
  unfolding HasAll
  HasAll-Keeps zero i item bits bits' k h = tt
  HasAll-Keeps (suc left) i item bits bits' k h =
      (k (position item i) h.0, HasAll-Keeps left (i + 1) item bits bits' k h.1)

  contains_from-HasAll :
      (left i : ℕ) (item : String) (bits : List Bool)
      → HasAll left i item bits
      → contains_from fnv (suc n) left i item bits ≡ some true
  unfolding contains_from hash HasAll
  contains_from-HasAll zero i item bits h = refl
  contains_from-HasAll (suc left) i item bits h =
      rw h.0 (contains_from-HasAll left (i + 1) item bits h.1)

  record AddedBits (left i : ℕ) (item : String) (bits : List Bool) : Type 0 where
    pub after : List Bool
    pub made : add_from fnv (suc n) left i item bits ≡ some after
    pub same_length : length after ≡ length bits
    pub all : HasAll left i item after
    pub keeps : Keeps bits after

  add_from-AddedBits :
      (left i : ℕ) (item : String) (bits : List Bool)
      → length bits ≡ suc n
      → AddedBits left i item bits
  unfolding add_from hash HasAll
  add_from-AddedBits zero i item bits h = record {
    after = bits;
    made = refl;
    same_length = refl;
    all = tt;
    keeps = λ q k. k;
  }
  add_from-AddedBits (suc left) i item bits h =
      let s = set_bit-BitSet (position item i) bits (omega (arith, h)) in
      let r = add_from-AddedBits left (i + 1) item s.after (s.same_length ∙ h) in
      record {
        after = r.after;
        made = rw s.made r.made;
        same_length = r.same_length ∙ s.same_length;
        all = (r.keeps (position item i) s.here, r.all);
        keeps = λ q k. r.keeps q (s.keeps q k);
      }

  abbrev AllIn : ℕ → List Bool → List String → Type 0
  AllIn k bits items =
      All
        (λ item.
          contains fnv (record { bitset = bits; size = suc n; hash_count = k }) item ≡ some true)
        items

  record Filled (k : ℕ) (bits : List Bool) (items : List String) : Type 0 where
    pub after : List Bool
    pub made :
        add_all fnv (record { bitset = bits; size = suc n; hash_count = k }) items
        ≡ some (record { bitset = after; size = suc n; hash_count = k })
    pub contained : AllIn k after items
    pub keeps : Keeps bits after

  add_all-Filled :
      (k : ℕ) (bits : List Bool) (items : List String) → length bits ≡ suc n → Filled k bits items
  unfolding add_all add contains
  add_all-Filled k bits [] h = record {
    after = bits;
    made = refl;
    contained = tt;
    keeps = λ q x. x;
  }
  add_all-Filled k bits (item ∷ items) h =
      let a = add_from-AddedBits k 0 item bits h in
      let r = add_all-Filled k a.after items (a.same_length ∙ h) in
      record {
        after = r.after;
        made = rw a.made r.made;
        contained = (
          contains_from-HasAll k 0 item r.after
              (HasAll-Keeps k 0 item a.after r.after r.keeps a.all),
          r.contained,
        );
        keeps = λ q x. r.keeps q (a.keeps q x);
      }

-- Whatever the hash function, the number of rounds and the items: a new filter with at least one
-- bit takes them all without a position out of range, and then contains each of them.
pub new_bloom_filter-contains :
    (fnv : String → ℕ → ℕ) (n k : ℕ) (items : List String)
    → (bf : BloomFilter) × (add_all fnv (new_bloom_filter (suc n) k) items ≡ some bf)
      × All (λ item. contains fnv bf item ≡ some true) items
unfolding new_bloom_filter
new_bloom_filter-contains fnv n k items =
    let f = add_all-Filled fnv n k (make_bits (suc n)) items (length-make_bits (suc n)) in
    (record { bitset = f.after; size = suc n; hash_count = k }, f.made, f.contained)
