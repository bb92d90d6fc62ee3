-- ===== src/Generator/Distinct.antt =====
-- Which bytes and sale a code was made of.
use Prim.Native.String as S
use Prim.Native.String.{count}
use Prim.Native.Char.{Char, code}
use text.Mathlib.TextLemmas.{
  append_inj, nil≢cons, cons≢nil, length-cons, append_cancel_left, length-append,
  head-eq_of_cons-eq, tail-eq_of_cons-eq,
}
use flashsale_service.Prelude.{
  String, ℕ, List, [], ◌∷◌, ◌/◌, ◌%◌, ◌<>◌, ◌<◌, ◌≡◌, ◌*◌, All, length, refl, ap, arith, ◌-◌, suc,
  zero,
}
use flashsale_service.Effect.{M, ok, err, Result, ◌>>=◌, pure}
use flashsale_service.Generator.{hex_digit, encode_to_string, generate_checkout_code}

abbrev IsByte : ℕ → Type 0
IsByte b = b < 256

-- From the number of a hexadecimal digit's character to the digit.
abbrev digit_value : Char → ℕ
digit_value c = code c % 39 - 9

digit_value-hex_digit : (d : ℕ) → d < 16 → digit_value (hex_digit d) ≡ d
unfolding hex_digit
digit_value-hex_digit zero _ = refl
digit_value-hex_digit (suc zero) _ = refl
digit_value-hex_digit (suc (suc zero)) _ = refl
digit_value-hex_digit (suc (suc (suc zero))) _ = refl
digit_value-hex_digit (suc (suc (suc (suc zero)))) _ = refl
digit_value-hex_digit (suc (suc (suc (suc (suc zero))))) _ = refl
digit_value-hex_digit (suc (suc (suc (suc (suc (suc zero)))))) _ = refl
digit_value-hex_digit (suc (suc (suc (suc (suc (suc (suc zero))))))) _ = refl
digit_value-hex_digit (suc (suc (suc (suc (suc (suc (suc (suc zero)))))))) _ = refl
digit_value-hex_digit (suc (suc (suc (suc (suc (suc (suc (suc (suc zero))))))))) _ = refl
digit_value-hex_digit (suc (suc (suc (suc (suc (suc (suc (suc (suc (suc zero)))))))))) _ = refl
digit_value-hex_digit (suc (suc (suc (suc (suc (suc (suc (suc (suc (suc (suc zero))))))))))) _ =
    refl
digit_value-hex_digit (suc (suc (suc (suc (suc (suc (suc (suc (suc (suc (suc (suc zero))))))))))))
      _ =
    refl
digit_value-hex_digit
      (suc (suc (suc (suc (suc (suc (suc (suc (suc (suc (suc (suc (suc zero))))))))))))) _ =
    refl
digit_value-hex_digit
      (suc (suc (suc (suc (suc (suc (suc (suc (suc (suc (suc (suc (suc (suc zero)))))))))))))) _ =
    refl
digit_value-hex_digit
      (suc (suc (suc (suc (suc (suc (suc (suc (suc (suc (suc (suc (suc (suc (suc zero)))))))))))))))
      _ =
    refl
digit_value-hex_digit
      (suc
        (suc (suc (suc (suc (suc (suc (suc (suc (suc (suc (suc (suc (suc (suc (suc n))))))))))))))))
      less =
    absurd (omega arith)

hex_digit_injective : (c d : ℕ) → c < 16 → d < 16 → hex_digit c ≡ hex_digit d → c ≡ d
hex_digit_injective c d c_less d_less same =
    cc (digit_value-hex_digit c c_less, digit_value-hex_digit d d_less, ap digit_value same)

byte_injective : (b c : ℕ) → b / 16 ≡ c / 16 → b % 16 ≡ c % 16 → b ≡ c
byte_injective b c high low = omega arith

encode_to_string_injective :
    (bs cs : List ℕ)
    → All IsByte bs
    → All IsByte cs
    → encode_to_string bs ≡ encode_to_string cs
    → bs ≡ cs
unfolding encode_to_string
encode_to_string_injective [] [] _ _ _ = refl
encode_to_string_injective [] (c ∷ cs) _ _ same = absurd (nil≢cons same)
encode_to_string_injective (b ∷ bs) [] _ _ same = absurd (cons≢nil same)
encode_to_string_injective (b ∷ bs) (c ∷ cs) (b_byte, bs_bytes) (c_byte, cs_bytes) same =
    let tail = tail-eq_of_cons-eq same in
    let high =
      hex_digit_injective (b / 16) (c / 16) (omega arith) (omega arith) (head-eq_of_cons-eq same) in
    let low =
      hex_digit_injective (b % 16) (c % 16) (omega arith) (omega arith) (head-eq_of_cons-eq tail) in
    let rest = encode_to_string_injective bs cs bs_bytes cs_bytes (tail-eq_of_cons-eq tail) in
    cc (byte_injective b c high low, rest)

count-encode_to_string : (bs : List ℕ) → count (encode_to_string bs) ≡ 2 * length bs
unfolding encode_to_string
count-encode_to_string [] = refl
count-encode_to_string (b ∷ bs) =
    let digits = S.◌∷◌ (hex_digit (b % 16)) (encode_to_string bs) in
    omega (
      arith,
      count-encode_to_string bs,
      length-cons (hex_digit (b / 16)) digits,
      length-cons (hex_digit (b % 16)) (encode_to_string bs),
    )

-- A separator between two texts is found again when the texts behind it are of one length.
joined_injective :
    (s t h k : String) → count h ≡ count k → s <> "-" <> h ≡ t <> "-" <> k → (s ≡ t) × (h ≡ k)
joined_injective s t h k lengths same =
    let total : count (s <> "-" <> h) ≡ count (t <> "-" <> k) = ap count same in
    let (fronts, backs) = append_inj same (
      omega (
        arith,
        lengths,
        length-append s ("-" <> h),
        length-append "-" h,
        length-append t ("-" <> k),
        length-append "-" k,
        total,
      )) in
    (fronts, append_cancel_left "-" h k backs)

-- What is documented of `crypto/rand.Read`: all bytes asked for, or an error.
abbrev pub Filled : ℕ → Result (List ℕ) → Type 0
Filled n (ok bs) = (length bs ≡ n) × All IsByte bs
Filled n (err _) = Unit

module _ {W : Type 0} where
  abbrev coded : String → Result (List ℕ) → W → Result String
  coded sale_id r w =
      let (made, _) =
        ((λ _. (r, w)) >>= λ bs. pure ("CHK-" <> sale_id <> "-" <> encode_to_string bs)) w in
      made

  coded_injective :
      (s t c : String)
      → (r r' : Result (List ℕ)) → (w w' : W) → Filled 8 r
      → Filled 8 r'
      → coded s r w ≡ ok c
      → coded t r' w' ≡ ok c
      → (s ≡ t) × (r ≡ r')
  coded_injective s t c (err _) _ w w' _ _ made _ = absurd (cc (made))
  coded_injective s t c (ok _) (err _) w w' _ _ _ made = absurd (cc (made))
  coded_injective s t c (ok bs) (ok cs) w w' (bs_count, bs_bytes) (cs_count, cs_bytes) made made' =
      let same : "CHK-" <> s <> "-" <> encode_to_string bs
          ≡ "CHK-" <> t <> "-" <> encode_to_string cs =
        cc (made, made') in
      let (sales, texts) =
        joined_injective s t (encode_to_string bs) (encode_to_string cs)
          (omega (arith, count-encode_to_string bs, count-encode_to_string cs, bs_count, cs_count))
          (append_cancel_left "CHK-" (s <> "-" <> encode_to_string bs)
            (t <> "-" <> encode_to_string cs) same) in
      (sales, ap ok (encode_to_string_injective bs cs bs_bytes cs_bytes texts))

  -- If `crypto/rand.Read` fills the eight bytes that it is asked for or answers an error, two calls
  -- of GenerateCheckoutCode that return one code were given one sale and drew the same bytes,
  -- whoever the users are, and whatever the ids of the sales contain.
  pub generate_checkout_code_injective :
      (rand_read : ℕ → M W (List ℕ))
      → ((n : ℕ) → (w : W) → Filled n ((rand_read n w).0))
      → (s t u v c : String) → (w w' : W) → (generate_checkout_code rand_read s u w).0 ≡ ok c
      → (generate_checkout_code rand_read t v w').0 ≡ ok c
      → (s ≡ t) × ((rand_read 8 w).0 ≡ (rand_read 8 w').0)
  unfolding generate_checkout_code
  generate_checkout_code_injective rand_read fills s t u v c w w' made made' =
      coded_injective s t c (rand_read 8 w).0 (rand_read 8 w').0 (rand_read 8 w).1
        (rand_read 8 w').1 (fills 8 w) (fills 8 w') made made'
