-- ===== src/Domain/PurchaseService/Outcome.antt =====
-- `CalculatePurchaseResult`: the counts agree with the list of items.
use flashsale_service.Domain.Checkout.{has_item, NoRepeats}
use flashsale_service.Prelude.{
  ℕ, suc, String, List, [], ◌∷◌, if◌then◌else◌, ◌≡◌, ◌≤◌, ◌⊎◌, false, arith, pos, eq_iff, ◌+ℤ◌,
  ◌≤ℤ◌, true, ◌↔◌, int_laws, inl, refl, inr,
}
use flashsale_service.Domain.Item.{Item}
use flashsale_service.Domain.PurchaseService.{
  PurchaseItemResult, item_results, length, calculate_purchase_result, success_map,
}

abbrev pub count_sold : List PurchaseItemResult → ℕ
count_sold [] = 0
count_sold (r ∷ rs) = if r.sold then suc (count_sold rs) else count_sold rs

abbrev pub ids_of : List Item → List String
ids_of [] = []
ids_of (i ∷ is) = i.id ∷ ids_of is

-- The ids that were sold are some of the items', in their order, as the purchase loop collects them.
abbrev pub Selected : List Item → List String → Type 0
Selected [] ids = ids ≡ []
Selected (i ∷ is) ids =
    (rest : List String) × Selected is rest × ((ids ≡ i.id ∷ rest) ⊎ (ids ≡ rest))

not-Selected :
    (items : List Item) (ids : List String) (x : String)
    → Selected items ids
    → has_item (ids_of items) x ≡ false
    → success_map ids x ≡ false
unfolding has_item success_map
not-Selected [] ids x h n = rw h
not-Selected (i ∷ is) ids x (rest, sel, inl e) n = rw e (ground (arith, not-Selected is rest x sel))
not-Selected (i ∷ is) ids x (rest, sel, inr e) n = rw e (ground (arith, not-Selected is rest x sel))

count_sold-extra :
    (items : List Item) (ids : List String) (x : String)
    → has_item (ids_of items) x ≡ false
    → count_sold (item_results (x ∷ ids) items) ≡ count_sold (item_results ids items)
unfolding has_item item_results
count_sold-extra [] ids x n = refl
count_sold-extra (i ∷ is) ids x n =
    ground (arith, count_sold-extra is ids x, eq_iff i.id x, eq_iff x i.id)

count_sold-item_results :
    (items : List Item) (ids : List String)
    → NoRepeats (ids_of items)
    → Selected items ids
    → count_sold (item_results ids items) ≡ length ids
unfolding item_results
count_sold-item_results [] ids n h = rw h
count_sold-item_results (i ∷ is) ids n (rest, sel, inl e) = rw e (
    ground (
      arith,
      count_sold-item_results is rest n.1 sel,
      count_sold-extra is rest i.id n.0,
      eq_iff i.id i.id,
    ))
count_sold-item_results (i ∷ is) ids n (rest, sel, inr e) =
    rw e
      (ground (arith, count_sold-item_results is rest n.1 sel, not-Selected is rest i.id sel n.0))

length-Selected :
    (items : List Item) (ids : List String) → Selected items ids → length ids ≤ length items
length-Selected [] ids h = rw h (omega arith)
length-Selected (i ∷ is) ids (rest, sel, inl e) = rw e (omega (arith, length-Selected is rest sel))
length-Selected (i ∷ is) ids (rest, sel, inr e) = rw e (omega (arith, length-Selected is rest sel))

-- For items of distinct ids and a selection of them as sold, the result's total is the number of
-- its entries that are marked sold, total and failed add up to the number of items, neither is
-- negative, and `success` says that at least one was sold.
pub calculate_purchase_result_counts :
    (items : List Item) (ids : List String)
    → NoRepeats (ids_of items)
    → Selected items ids
    → let r = calculate_purchase_result items ids in
      (r.total_purchased ≡ pos (count_sold r.items))
      × (r.total_purchased +ℤ r.failed_count ≡ pos (length items))
      × (pos 0 ≤ℤ r.failed_count)
      × ((r.success ≡ true) ↔ (1 ≤ count_sold r.items))
unfolding calculate_purchase_result
calculate_purchase_result_counts items ids n sel =
    rw (count_sold-item_results items ids n sel)
      (refl, omega int_laws, omega (int_laws, length-Selected items ids sel), ground arith)
