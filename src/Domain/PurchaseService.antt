-- ===== src/Domain/PurchaseService.antt =====
-- internal/domain/sale/purchase_service.go.
pub mod Validation
pub mod Outcome
use flashsale_service.Prelude.{
  ℕ, String, ℤ, pos, ◌+ℤ◌, ◌-ℤ◌, ltb_ℤ, Bool, true, false, ◌||◌, Option, none, some, List, [], ◌∷◌,
  ◌==◌, ltb, length, if◌then◌else◌, not,
}
use flashsale_service.Errors.{
  domain, message, sale_not_active, no_items_to_purchase, sale_limit_exceeded, user_limit_exceeded,
  item_not_in_sale,
}
use flashsale_service.Effect.{Result, ok, err}
use flashsale_service.Domain.Sale.{Sale, is_active}
use flashsale_service.Domain.Item.{Item, belongs_to_sale}
use flashsale_service.Domain.Checkout.{is_empty}

pub record UserLimits : Type 0 where
  pub current_item_count : ℤ
  pub max_items_per_user : ℤ

pub record PurchaseService : Type 0 where
  pub max_items_per_sale : ℤ
  pub max_items_per_user : ℤ

abbrev pub new_purchase_service : ℤ → ℤ → PurchaseService
new_purchase_service per_sale per_user = record {
  max_items_per_sale = per_sale;
  max_items_per_user = per_user;
}

-- The loop at the end of `ValidatePurchase`.
unfoldable pub check_items : String → List Item → Result (Unit {0})
check_items sale_id [] = ok tt
check_items sale_id (i ∷ is) =
    if not (belongs_to_sale i sale_id)
    then err (domain item_not_in_sale)
    else check_items sale_id is

check_sale : PurchaseService → Sale → UserLimits → List Item → ℕ → Result (Unit {0})
check_sale svc s limits items now =
    if not (is_active s now)
    then err (domain sale_not_active)
    else if is_empty items
    then err (domain no_items_to_purchase)
    else if ltb_ℤ svc.max_items_per_sale (s.items_sold +ℤ pos (length items))
    then err (domain sale_limit_exceeded)
    else if ltb_ℤ svc.max_items_per_user (limits.current_item_count +ℤ pos (length items))
    then err (domain user_limit_exceeded)
    else check_items s.id items

-- `none` is the sale `nil`.
unfoldable pub validate_purchase :
    PurchaseService → Option Sale → UserLimits → List Item → ℕ → Result (Unit {0})
unfolding check_sale
validate_purchase svc none limits items now = err (message "sale cannot be nil")
validate_purchase svc (some s) limits items now = check_sale svc s limits items now

pub record PurchaseItemResult : Type 0 where
  pub id : String
  pub name : String
  pub sold : Bool

pub record PurchaseResult : Type 0 where
  pub success : Bool
  pub items : List PurchaseItemResult
  pub total_purchased : ℤ
  pub failed_count : ℤ

-- `successMap`: the map that the loop over `successfulPurchases` fills, read at an id.
unfoldable pub success_map : List String → String → Bool
success_map [] id = false
success_map (item_id ∷ ids) id = item_id == id || success_map ids id

unfoldable pub item_results : List String → List Item → List PurchaseItemResult
unfolding success_map
item_results successes [] = []
item_results successes (i ∷ is) =
    (record { id = i.id; name = i.name; sold = success_map successes i.id })
    ∷ item_results successes is

unfoldable pub calculate_purchase_result : List Item → List String → PurchaseResult
unfolding item_results
calculate_purchase_result attempted successes = record {
  items = item_results successes attempted;
  total_purchased = pos (length successes);
  failed_count = pos (length attempted) -ℤ pos (length successes);
  success = ltb 0 (length successes);
}
