-- ===== src/Generator.antt =====
-- internal/pkg/generator/code_generator.go. `rand_read` is `crypto/rand.Read` of so many bytes;
-- `hex.EncodeToString` is written out.
pub mod Distinct
pub mod Names
mod Tests
use Prim.Native.String.{char_at}
use Prim.Native.Char.{Char}
use Prim.Native.String as S
use flashsale_service.Prelude.{String, ℕ, List, [], ◌∷◌, ◌/◌, ◌%◌, ◌<>◌}
use flashsale_service.Effect.{M, ok, err, pure, ◌>>=◌}

unfoldable pub hex_digit : ℕ → Char
hex_digit d = char_at "0123456789abcdef" d

unfoldable pub encode_to_string : List ℕ → String
encode_to_string [] = ""
encode_to_string (b ∷ bs) =
    S.◌∷◌ (hex_digit (b / 16)) (S.◌∷◌ (hex_digit (b % 16)) (encode_to_string bs))

module _ {W : Type 0} (rand_read : ℕ → M W (List ℕ)) where
  -- The id of the user is not used.
  unfoldable pub generate_checkout_code : String → String → M W String
  generate_checkout_code sale_id user_id = do
    random_bytes ← rand_read 8
    pure ("CHK-" <> sale_id <> "-" <> encode_to_string random_bytes)

  -- `if err != nil { return "" }`
  unfoldable pub generate_sale_id : W → String × W
  generate_sale_id w =
      let (r, w') = rand_read 5 w in
      elim r [ ok random_bytes ↦ ("S-" <> encode_to_string random_bytes, w') | err _ ↦ ("", w') ]

  unfoldable pub generate_checkout_id : W → String × W
  generate_checkout_id w =
      let (r, w') = rand_read 5 w in
      elim r [ ok random_bytes ↦ ("C-" <> encode_to_string random_bytes, w') | err _ ↦ ("", w') ]
