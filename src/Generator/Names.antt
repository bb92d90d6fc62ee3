-- ===== src/Generator/Names.antt =====
-- internal/pkg/generator/item_generator.go, `GenerateName`. `intn` is `rand.Rand.Intn`; the state is
-- that of the source of random numbers. An index out of range, which panics in Go, answers `none`.
-- `GenerateImageURL` and `GenerateItemID` are left out.
use flashsale_service.Prelude.{
  String, ℕ, List, [], ◌∷◌, ◌<>◌, ◌<◌, ◌≡◌, length, refl, arith, suc, zero, Option, some, none, ◌⊎◌,
  inl, inr,
}

unfoldable pub element : List String → ℕ → Option String
element [] i = none
element (x ∷ xs) zero = some x
element (x ∷ xs) (suc i) = element xs i

abbrev pub adjectives : List String
adjectives =
    "Vintage" ∷ "Modern" ∷ "Sleek" ∷ "Elegant" ∷ "Rustic" ∷ "Classic" ∷ "Minimalist" ∷ "Luxurious"
    ∷ "Handcrafted" ∷ "Artisanal" ∷ "Eco-friendly" ∷ "Sustainable" ∷ "Organic" ∷ "Premium"
    ∷ "Exclusive" ∷ "Limited Edition" ∷ "Signature" ∷ "Designer" ∷ "Custom" ∷ "Bespoke" ∷ []

abbrev pub nouns : List String
nouns =
    "Lamp" ∷ "Chair" ∷ "Table" ∷ "Sofa" ∷ "Desk" ∷ "Bookshelf" ∷ "Cabinet" ∷ "Rug" ∷ "Mirror"
    ∷ "Clock" ∷ "Vase" ∷ "Sculpture" ∷ "Painting" ∷ "Print" ∷ "Photograph" ∷ "Cushion" ∷ "Throw"
    ∷ "Candle" ∷ "Plant Pot" ∷ "Ornament" ∷ []

-- `fmt.Sprintf("%s %s", adjective, noun)`, when both are there.
abbrev joined : Option String → Option String → Option String
joined none _ = none
joined (some _) none = none
joined (some adjective) (some noun) = some (adjective <> " " <> noun)

module _ {W : Type 0} (intn : ℕ → W → ℕ × W) where
  unfoldable pub generate_name : W → Option String × W
  generate_name w =
      let (i, w') = intn (length adjectives) w in
      let (j, w'') = intn (length nouns) w' in
      (joined (element adjectives i) (element nouns j), w'')

abbrev pub Among : String → List String → Type 0
Among s [] = ⊥
Among s (x ∷ xs) = (s ≡ x) ⊎ Among s xs

element-Among :
    (xs : List String)
    → (i : ℕ) → i < length xs
    → (x : String) × (element xs i ≡ some x) × Among x xs
unfolding element
element-Among [] i less = absurd (omega arith)
element-Among (x ∷ xs) zero _ = (x, refl, inl refl)
element-Among (x ∷ xs) (suc i) less =
    let (found, is_found, among) = element-Among xs i (omega arith) in (found, is_found, inr among)

-- If `rand.Intn` answers a number below its bound, GenerateName finds both words: it does not
-- panic, and the name is one of the adjectives, a space and one of the nouns.
pub generate_name-Named :
    {W : Type 0}
    → (intn : ℕ → W → ℕ × W) → ((n : ℕ) → (w : W) → 0 < n → (intn n w).0 < n)
    → (w : W)
    → (a n : String) × ((generate_name intn w).0 ≡ some (a <> " " <> n))
      × Among a adjectives
      × Among n nouns
unfolding generate_name
generate_name-Named intn below w =
    let (a, is_a, a_among) = element-Among adjectives (intn 20 w).0 (below 20 w (omega arith)) in
    let w' = (intn 20 w).1 in
    let (n, is_n, n_among) = element-Among nouns (intn 20 w').0 (below 20 w' (omega arith)) in
    (a, n, cc (is_a, is_n), a_among, n_among)
