-- ===== src/Domain/Checkout.antt =====
-- internal/domain/sale/checkout.go.
use flashsale_service.Prelude.{
  ℕ, String, ℤ, pos, List, [], ◌∷◌, ◌++◌, Bool, true, false, ◌||◌, ◌==◌, ◌≡◌, length, if◌then◌else◌,
}
use flashsale_service.Errors.{message}
use flashsale_service.Effect.{Result, ok, err}

pub record Checkout : Type 0 where
  pub code : String
  pub sale_id : String
  pub user_id : String
  pub item_ids : List String
  pub created_at : ℕ

-- `len(itemIDs) == 0`
abbrev pub is_empty {ℓ} : {A : Type ℓ} → List A → Bool
is_empty [] = true
is_empty (_ ∷ _) = false

unfoldable pub new_checkout : String → String → String → List String → ℕ → Result Checkout
new_checkout code sale_id user_id item_ids now =
    if code == ""
    then err (message "checkout code cannot be empty")
    else if sale_id == ""
    then err (message "sale id cannot be empty")
    else if user_id == ""
    then err (message "user id cannot be empty")
    else if is_empty item_ids
    then err (message "item ids cannot be empty")
    else ok (record {
      code = code;
      sale_id = sale_id;
      user_id = user_id;
      item_ids = item_ids;
      created_at = now;
    })

-- The loop of `AddItem`.
unfoldable pub has_item : List String → String → Bool
has_item [] item_id = false
has_item (id ∷ ids) item_id = id == item_id || has_item ids item_id

unfoldable pub add_item : Checkout → String → Result Checkout
unfolding has_item
add_item c item_id =
    if has_item c.item_ids item_id
    then err (message "item already in checkout")
    else ok (record c { item_ids = c.item_ids ++ item_id ∷ [] })

unfoldable pub item_count : Checkout → ℤ
item_count c = pos (length c.item_ids)

-- No item is listed twice.
abbrev pub NoRepeats : List String → Type 0
NoRepeats [] = Unit
NoRepeats (id ∷ ids) = (has_item ids id ≡ false) × NoRepeats ids
