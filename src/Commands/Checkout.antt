-- ===== src/Commands/Checkout.antt =====
-- internal/application/commands/checkout_command.go, over any implementation of the ports.
-- `generate` is `CodeGenerator.GenerateCheckoutCode`, which draws random bytes.
pub mod Granted
use flashsale_service.Domain.Checkout.{Checkout, new_checkout, item_count, add_item}
use flashsale_service.Errors.{
  domain, transaction_failed, sale_not_found, item_not_in_sale, item_already_sold,
  user_limit_exceeded, sale_not_active, user_already_checked_out_item,
}
use flashsale_service.Domain.Item.{Item, is_sold}
use flashsale_service.Domain.Sale.{Sale, is_active}
use flashsale_service.Ports.{Ports}
use flashsale_service.Prelude.{
  ◌≡◌, refl, String, ℤ, ℕ, Bool, leb_ℤ, pos, ◌==◌, not, false, true, ◌-ℤ◌, ◌∷◌, [],
}
use flashsale_service.Effect.{
  ◌>>=◌, ◌>>◌, Result, M, map_err, ok, pure, or_zero, attempt, guard_not, ignore, err, raise,
}

pub record CheckoutResponse : Type 0 where
  pub code : String
  pub items_count : ℤ
  pub sale_ends_at : ℕ

-- An operation of the domain among actions.
abbrev pub of_result : {W A : Type 0} → Result A → M W A
of_result r w = (r, w)

-- `err == nil && availableSlots <= 0`
abbrev pub no_slots : Result ℤ → Bool
no_slots (ok slots) = leb_ℤ slots (pos 0)
no_slots (err _) = false

module _ {W : Type 0} (p : Ports W) (generate : String → String → M W String)
    (max_items_limit : ℤ) where
  -- `time.Now()`, and `time.Until(end)`.
  abbrev pub now : M W ℕ
  now w = (ok (p.clock.now w), w)

  abbrev pub until : ℕ → M W ℤ
  until end = do t ← now; pure (pos end -ℤ pos t)

  unfoldable pub new_code : Sale → String → M W String
  new_code active user_id = do
    code ← map_err (λ _. domain transaction_failed) (generate active.id user_id)
    left ← until active.ended_at
    ignore (p.cache.set_user_checkout_code active.id user_id code left)
    left' ← until active.ended_at
    ignore (p.cache.set_checkout_code code left')
    pure code

  -- `if err != nil || checkoutCode == ""`
  unfoldable pub user_code : Sale → String → M W String
  unfolding new_code
  user_code active user_id = do
    code ← or_zero "" (p.cache.get_user_checkout_code active.id user_id)
    elim (code == "") [ true ↦ new_code active user_id | false ↦ pure code ]

  unfoldable pub store_item : Sale → String → String → String → Result Checkout → M W Checkout
  store_item active user_id item_id code (err _) = do
    created ← now
    c ← of_result (new_checkout code active.id user_id (item_id ∷ []) created)
    p.checkouts.create_checkout c
    pure c
  store_item active user_id item_id code (ok c) = do
    c' ← map_err (λ _. domain user_already_checked_out_item) (of_result (add_item c item_id))
    p.checkouts.add_item_to_checkout code item_id
    pure c'

  -- The rest of `Handle` once the item can be offered.
  unfoldable pub grant : Sale → String → String → M W CheckoutResponse
  unfolding user_code store_item
  grant active user_id item_id = do
    code ← user_code active user_id
    known ← attempt (p.checkouts.get_checkout_by_code code)
    c ← store_item active user_id item_id code known
    ignore (p.cache.increment_user_checkout_count active.id user_id)
    left ← until active.ended_at
    ignore (p.cache.add_user_checked_out_item active.id user_id item_id left)
    pure (record { code = code; items_count = item_count c; sale_ends_at = active.ended_at })

  -- `if item.IsSold() { _ = AddItemToBloomFilter; return … }`
  unfoldable pub refuse_sold : Item → String → M W (Unit {0})
  refuse_sold i item_id = elim (is_sold i) [
    | true ↦ (do
      ignore (p.cache.add_item_to_bloom_filter item_id)
      raise (domain item_already_sold))
    | false ↦ pure tt
  ]

  unfoldable pub offer : Sale → String → String → M W CheckoutResponse
  unfolding refuse_sold grant
  offer active user_id item_id = do
    i ← p.sales.get_item_by_id p.sale_repo item_id
    guard_not (not (i.sale_id == active.id)) (domain item_not_in_sale)
    refuse_sold i item_id
    grant active user_id item_id

  unfoldable pub check_user : Sale → String → String → M W (Unit {0})
  check_user active user_id item_id = do
    sold ← or_zero false (p.cache.item_exists_in_bloom_filter item_id)
    guard_not sold (domain item_already_sold)
    slots ← attempt (p.cache.get_available_checkout_slots active.id user_id max_items_limit)
    guard_not (no_slots slots) (domain user_limit_exceeded)
    done ← or_zero false (p.cache.has_user_checked_out_item active.id user_id item_id)
    guard_not done (domain user_already_checked_out_item)

  unfoldable pub handle_checkout : String → String → M W CheckoutResponse
  unfolding check_user offer
  handle_checkout user_id item_id = do
    active ← map_err (λ _. domain sale_not_found) (p.sales.get_active_sale p.sale_repo)
    t ← now
    guard_not (not (is_active active t)) (domain sale_not_active)
    check_user active user_id item_id
    offer active user_id item_id
