-- ===== src/Domain/Tests.antt =====
-- Runs of the domain operations, and the theorems at concrete inputs.
use flashsale_service.Errors.{domain, sale_not_active}
use flashsale_service.Domain.PurchaseService.Validation.{Allowed, validate_purchase_iff}
use flashsale_service.Effect.{ok, err}
use flashsale_service.Domain.Limits.{
  Limits, WithinLimit, add_batches, add_items, add_batches-WithinLimit,
}
use flashsale_service.Domain.Checkout.{has_item, NoRepeats}
use flashsale_service.Domain.PurchaseService.Outcome.{
  Selected, ids_of, count_sold, calculate_purchase_result_counts,
}
use flashsale_service.Domain.PurchaseService.{
  PurchaseService, UserLimits, validate_purchase, calculate_purchase_result, new_purchase_service,
  check_items,
}
use flashsale_service.Domain.Item.{Item, belongs_to_sale}
use flashsale_service.Domain.Sale.{
  Sale, new_sale, IsWellFormed, has_available_items, is_active, new_sale-IsWellFormed,
  increment_items_sold, increment_items_sold-IsWellFormed,
}
use flashsale_service.Prelude.{
  ◌≡◌, refl, pos, false, arith, true, some, ◌∷◌, none, eq_iff, ◌↔◌, [], ◌+ℤ◌, inl, inr, ◌≤ℤ◌, ◌≤◌,
}

abbrev spring : Sale
spring = record {
  id = "S-1";
  started_at = 1;
  ended_at = 9;
  total_items = pos 2;
  items_sold = pos 1;
  created_at = 1;
}

abbrev lamp : Item
lamp = record {
  id = "a";
  sale_id = "S-1";
  name = "Lamp";
  image_url = "";
  sold = false;
  sold_to_user_id = "";
  sold_at = none;
  created_at = 1;
}

abbrev chair : Item
chair = record lamp { id = "b"; name = "Chair" }

new_sale-IsWellFormed_example :
    IsWellFormed (record spring { items_sold = pos 0 }) × (pos 0 ≡ pos 0)
unfolding new_sale
new_sale-IsWellFormed_example = new_sale-IsWellFormed "S-1" 1 9 1 (pos 2) refl

spring-IsWellFormed : IsWellFormed spring
spring-IsWellFormed = ground (arith, eq_iff "S-1" "")

increment_items_sold-IsWellFormed_example :
    (has_available_items spring ≡ true) ↔ IsWellFormed (increment_items_sold spring)
increment_items_sold-IsWellFormed_example =
    increment_items_sold-IsWellFormed spring spring-IsWellFormed

abbrev ten_per_user : PurchaseService
ten_per_user = new_purchase_service (pos 100) (pos 10)

abbrev no_items_yet : UserLimits
no_items_yet = record { current_item_count = pos 0; max_items_per_user = pos 10 }

validate_purchase_iff_example :
    (validate_purchase ten_per_user (some spring) no_items_yet (lamp ∷ chair ∷ []) 5 ≡ ok tt)
    ↔ Allowed ten_per_user spring no_items_yet (lamp ∷ chair ∷ []) 5
validate_purchase_iff_example =
    validate_purchase_iff ten_per_user spring no_items_yet (lamp ∷ chair ∷ []) 5

validate_two :
    validate_purchase ten_per_user (some spring) no_items_yet (lamp ∷ chair ∷ []) 5 ≡ ok tt
unfolding validate_purchase check_items is_active belongs_to_sale ◌+ℤ◌
validate_two = refl

-- At its first instant a sale is not active yet.
validate_at_start :
    validate_purchase ten_per_user (some spring) no_items_yet (lamp ∷ []) 1
    ≡ err (domain sale_not_active)
unfolding validate_purchase is_active
validate_at_start = refl

chair_only : Selected (lamp ∷ chair ∷ []) ("b" ∷ [])
chair_only = ("b" ∷ [], ([], refl, inl refl), inr refl)

distinct : NoRepeats (ids_of (lamp ∷ chair ∷ []))
unfolding has_item
distinct = (refl, (refl, tt))

calculate_purchase_result_counts_example :
    let r = calculate_purchase_result (lamp ∷ chair ∷ []) ("b" ∷ []) in
    (r.total_purchased ≡ pos (count_sold r.items))
    × (r.total_purchased +ℤ r.failed_count ≡ pos 2)
    × (pos 0 ≤ℤ r.failed_count)
    × ((r.success ≡ true) ↔ (1 ≤ count_sold r.items))
calculate_purchase_result_counts_example =
    calculate_purchase_result_counts (lamp ∷ chair ∷ []) ("b" ∷ []) distinct chair_only

abbrev at_nine : Limits
at_nine = record {
  user_id = "ann";
  sale_id = "S-1";
  max_items_per_user = pos 10;
  current_item_count = pos 9;
}

add_batches-WithinLimit_example : WithinLimit (add_batches at_nine (pos 2 ∷ pos 1 ∷ pos 1 ∷ []))
add_batches-WithinLimit_example =
    add_batches-WithinLimit at_nine (pos 2 ∷ pos 1 ∷ pos 1 ∷ []) (omega arith)

three_batches : (add_batches at_nine (pos 2 ∷ pos 1 ∷ pos 1 ∷ [])).current_item_count ≡ pos 10
unfolding add_batches add_items ◌+ℤ◌
three_batches = refl
