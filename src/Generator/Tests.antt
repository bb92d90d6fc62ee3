-- ===== src/Generator/Tests.antt =====
-- Codes and ids from given bytes.
use flashsale_service.Prelude.{
  String, ℕ, List, [], ◌∷◌, ◌%◌, ◌≡◌, refl, arith, zero, suc, ◌+◌, ◌<◌, ap, some, ◌<>◌,
}
use flashsale_service.Effect.{M, ok, err}
use flashsale_service.Generator.Names.{
  generate_name, element, Among, adjectives, nouns, generate_name-Named,
}
use flashsale_service.Errors.{message}
use flashsale_service.Generator.{
  generate_checkout_code, generate_sale_id, generate_checkout_id, encode_to_string, hex_digit,
}
use flashsale_service.Generator.Distinct.{Filled, generate_checkout_code_injective}

abbrev text : String → String
text s = s

-- A source whose bytes are all equal, and repeat after 256 calls.
abbrev repeated : ℕ → ℕ → List ℕ
repeated zero b = []
repeated (suc n) b = b ∷ repeated n b

abbrev read_repeated : ℕ → M ℕ (List ℕ)
read_repeated n w = (ok (repeated n (w % 256)), w + 1)

repeated-Filled : (n b : ℕ) → b < 256 → Filled n (ok (repeated n b))
repeated-Filled zero b less = (refl, tt)
repeated-Filled (suc n) b less =
    let (counted, bytes) = repeated-Filled n b less in (ap suc counted, (less, bytes))

read_repeated-Filled : (n w : ℕ) → Filled n ((read_repeated n w).0)
read_repeated-Filled n w = repeated-Filled n (w % 256) (omega arith)

checkout_code_of_171 :
    generate_checkout_code read_repeated "S-1" "ann" 171 ≡ (ok "CHK-S-1-abababababababab", 172)
unfolding generate_checkout_code encode_to_string hex_digit
checkout_code_of_171 = refl

sale_id_of_171 : generate_sale_id read_repeated 171 ≡ ("S-ababababab", 172)
unfolding generate_sale_id encode_to_string hex_digit
sale_id_of_171 = refl

checkout_id_of_failure :
    generate_checkout_id {W = ℕ} (λ n w. (err (message "no entropy"), w)) 3 ≡ ("", 3)
unfolding generate_checkout_id
checkout_id_of_failure = refl

made_at_7 : (generate_checkout_code read_repeated "S-1" "ann" 7).0 ≡ ok "CHK-S-1-0707070707070707"
unfolding generate_checkout_code encode_to_string hex_digit
made_at_7 = refl

made_at_263 :
    (generate_checkout_code read_repeated "S-1" "bob" 263).0 ≡ ok "CHK-S-1-0707070707070707"
unfolding generate_checkout_code encode_to_string hex_digit
made_at_263 = refl

generate_checkout_code_injective_example :
    (text "S-1" ≡ text "S-1") × ((read_repeated 8 7).0 ≡ (read_repeated 8 263).0)
generate_checkout_code_injective_example =
    generate_checkout_code_injective read_repeated read_repeated-Filled "S-1" "S-1" "ann" "bob"
      "CHK-S-1-0707070707070707" 7 263 made_at_7 made_at_263

-- A source that counts up.
abbrev counting : ℕ → ℕ → ℕ × ℕ
counting n w = (w % n, w + 1)

counting-below : (n w : ℕ) → 0 < n → (counting n w).0 < n
counting-below n w positive = omega arith

name_at_21 : generate_name counting 21 ≡ (some "Modern Table", 23)
unfolding generate_name element
name_at_21 = refl

generate_name-Named_example :
    (a n : String) × ((generate_name counting 21).0 ≡ some (a <> " " <> n))
    × Among a adjectives
    × Among n nouns
generate_name-Named_example = generate_name-Named counting counting-below 21
