-- ===== src/Redis/Keys.antt =====
-- The keys of internal/infrastructure/persistence/redis/cache.go.
use flashsale_service.Prelude.{◌≡◌, refl, String, ◌<>◌, ◌≢◌, ℕ, ◌<◌, arith, ap}
use Prim.Native.Char.{code}
use text.Mathlib.TextLemmas.{cons-append, append_cancel_left, append_cancel_right}

unfoldable pub user_key : String → String → String → String
user_key sale_id user_id field = "user:" <> user_id <> ":sale:" <> sale_id <> ":" <> field

abbrev pub count_key : String → String → String
count_key sale_id user_id = user_key sale_id user_id "count"

abbrev pub checkout_count_key : String → String → String
checkout_count_key sale_id user_id = user_key sale_id user_id "checkout_count"

abbrev pub checkout_key : String → String → String
checkout_key sale_id user_id = user_key sale_id user_id "checkout"

abbrev pub checked_items_key : String → String → String
checked_items_key sale_id user_id = user_key sale_id user_id "checked_items"

unfoldable pub items_sold_key : String → String
items_sold_key sale_id = "sale:" <> sale_id <> ":items_sold"

unfoldable pub code_key : String → String
code_key code = "checkout:" <> code

unfoldable pub lock_name : String → String
lock_name key = "lock:" <> key

-- The keys of the users of a sale differ.
pub user_key_inj :
    (sale_id user_id other field : String)
    → user_key sale_id user_id field ≡ user_key sale_id other field
    → user_id ≡ other
unfolding user_key
user_key_inj sale_id user_id other field h =
    append_cancel_right user_id other (":sale:" <> sale_id <> ":" <> field) (
      append_cancel_left "user:" (user_id <> ":sale:" <> sale_id <> ":" <> field)
        (other <> ":sale:" <> sale_id <> ":" <> field) h)

-- The number of a text's first character.
unfoldable first_code : String → ℕ
first_code String.[] = 0
first_code (String.◌∷◌ c s) = code c

first_code-append : (s t : String) → 0 < first_code s → first_code (s <> t) ≡ first_code s
unfolding first_code
first_code-append String.[] t h = absurd (omega (arith, h))
first_code-append (String.◌∷◌ c s) t h = rw (cons-append c s t) refl

-- A sale's counter is no user's.
pub items_sold_key-ne-user_key :
    (sale_id sale' user_id field : String) → items_sold_key sale_id ≢ user_key sale' user_id field
unfolding items_sold_key user_key first_code
items_sold_key-ne-user_key sale_id sale' user_id field h = omega (
  arith,
  ap first_code h,
  first_code-append "sale:" (sale_id <> ":items_sold"),
  first_code-append "user:" (user_id <> ":sale:" <> sale' <> ":" <> field),
)
