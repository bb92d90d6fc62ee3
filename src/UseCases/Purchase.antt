-- ===== src/UseCases/Purchase.antt =====
-- internal/application/use_cases/purchase_use_case.go, over any implementation of the ports.
-- Logging is left out: it returns nothing to the code.
use flashsale_service.Prelude.{
  ℕ, ◌*◌, String, ℤ, pos, ◌+ℤ◌, ltb_ℤ, Bool, true, false, Option, none, some, List, [], ◌∷◌, length,
  if◌then◌else◌, not, ◌||◌, ◌<>◌, suc, ◌+◌, ltb, zero,
}
use flashsale_service.Errors.{
  Error, domain, message, wrapped, is_domain, sale_limit_exceeded, user_limit_exceeded,
  checkout_already_processed, all_items_sold, checkout_not_found, sale_not_found,
}
use flashsale_service.Effect.{
  ok, err, M, pure, ◌>>=◌, ◌>>◌, attempt, or_zero, ignore, map_err, guard_not, when, Result,
  finally, raise,
}
use flashsale_service.Domain.Sale.{Sale}
use flashsale_service.Domain.Item.{Item}
use flashsale_service.Domain.Checkout.{Checkout, is_empty}
use flashsale_service.Domain.PurchaseService.{
  PurchaseService, PurchaseResult, new_purchase_service, validate_purchase,
  calculate_purchase_result,
}
use flashsale_service.Ports.{Ports}

pub record PurchaseUseCase : Type 0 where
  pub purchase_svc : PurchaseService
  pub max_items_per_sale : ℤ
  pub max_items_per_user : ℤ
  pub retry_attempts : ℕ
  pub lock_timeout : ℕ

abbrev pub second : ℕ
second = 1_000_000_000

abbrev pub millisecond : ℕ
millisecond = 1_000_000

abbrev pub hour : ℕ
hour = second * 3600

abbrev pub new_purchase_use_case : PurchaseUseCase
new_purchase_use_case = record {
  purchase_svc = new_purchase_service (pos 10000) (pos 10);
  max_items_per_sale = pos 10000;
  max_items_per_user = pos 10;
  retry_attempts = 2;
  lock_timeout = second * 3;
}

-- `switch err`: the error itself is compared, not what it wraps.
unfoldable pub is_business_logic_error : Error → Bool
is_business_logic_error e =
    is_domain checkout_not_found e
    || is_domain sale_not_found e
    || is_domain user_limit_exceeded e
    || is_domain checkout_already_processed e

abbrev pub lock_key : String → String
lock_key code = "purchase:" <> code

-- `existingResult != nil`
abbrev pub is_processed : Option PurchaseResult → Bool
is_processed none = false
is_processed (some _) = true

-- `successfulPurchases = append(successfulPurchases, item.ID)` on success.
abbrev pub add_bought : Bool → Item → List String → List String
add_bought true i rest = i.id ∷ rest
add_bought false i rest = rest

-- `if err != nil { continue }; items = append(items, item)`
abbrev pub keep_found : Result Item → List Item → List Item
keep_found (ok i) rest = i ∷ rest
keep_found (err _) rest = rest

module _ {W : Type 0} (p : Ports W) (uc : PurchaseUseCase) where
  open p use {sales, sale_repo, checkouts, cache, clock}

  -- The first loop of `attemptPurchase`.
  unfoldable pub log_attempts : Checkout → List String → M W (Unit {0})
  log_attempts c [] = pure tt
  log_attempts c (id ∷ ids) = do
    ignore (checkouts.log_checkout_attempt c.sale_id c.user_id c.code id)
    log_attempts c ids

  -- The two tests on the counters of the cache. A counter that cannot be read counts as 0.
  unfoldable pub check_limits : Checkout → M W (Unit {0})
  check_limits c = do
    user_count ← or_zero (pos 0) (cache.get_user_item_count c.sale_id c.user_id)
    sale_count ← or_zero (pos 0) (cache.get_sale_item_count c.sale_id)
    guard_not (ltb_ℤ uc.max_items_per_sale (sale_count +ℤ pos (length c.item_ids)))
        (domain sale_limit_exceeded)
    guard_not (ltb_ℤ uc.max_items_per_user (user_count +ℤ pos (length c.item_ids)))
        (domain user_limit_exceeded)

  -- The deferred function rolls back if the variable `err` of `attemptPurchase` holds an error
  -- when it returns. Only two calls after `BeginTx` assign it; the others declare their own `err`.
  unfoldable pub roll_back : {A : Type 0} → sales.Repo → Result A → M W A
  roll_back tx (ok a) w = (ok a, w)
  roll_back tx (err e) w = (err e, (sales.rollback_tx tx w).1)

  unfoldable pub or_rollback : {A : Type 0} → sales.Repo → M W A → M W A
  unfolding roll_back
  or_rollback tx m w = let (r, w') = m w in roll_back tx r w'

  -- The loop that fetches the items, and leaves out those that it cannot fetch.
  unfoldable pub load_items : sales.Repo → List String → M W (List Item)
  load_items tx [] = pure []
  load_items tx (id ∷ ids) = do
    found ← attempt (sales.get_item_by_id tx id)
    rest ← load_items tx ids
    pure (keep_found found rest)

  -- The body of the loop over the items: was this one sold to the user? Whether the row was
  -- changed or was sold before, its id goes into the Bloom filter; after an error it does not.
  unfoldable pub after_marking : Item → Result Bool → M W Bool
  after_marking i (err _) = pure false
  after_marking i (ok success) = do ignore (cache.add_item_to_bloom_filter i.id); pure success

  unfoldable pub unless_sold : sales.Repo → String → Item → Bool → M W Bool
  unless_sold tx user_id i true = pure false
  unless_sold tx user_id i false = do
    marked ← attempt (sales.mark_item_as_sold tx i.id user_id)
    after_marking i marked

  unfoldable pub purchase_item : sales.Repo → String → Item → M W Bool
  purchase_item tx user_id i = do
    already_sold ← or_zero false (cache.item_exists_in_bloom_filter i.id)
    unless_sold tx user_id i already_sold

  -- `successfulPurchases`
  unfoldable pub purchase_items : sales.Repo → String → List Item → M W (List String)
  purchase_items tx user_id [] = pure []
  purchase_items tx user_id (i ∷ is) = do
    success ← purchase_item tx user_id i
    rest ← purchase_items tx user_id is
    pure (add_bought success i rest)

  -- From `CalculatePurchaseResult` to the end of `attemptPurchase`.
  unfoldable pub record_purchase :
      sales.Repo → Checkout → Sale → List Item → List String → M W PurchaseResult
  record_purchase tx c s items bought = do
    let result = calculate_purchase_result items bought
    when (not (is_empty bought))
        (ignore (cache.increment_counters c.sale_id c.user_id (pos (length bought))))
    when (not (is_empty bought)) (
        map_err (wrapped "failed to update sale")
          (sales.update_sale tx (record s { items_sold = s.items_sold +ℤ pos (length bought) })))
    map_err (wrapped "failed to save purchase result") (sales.save_purchase_result tx c.code result)
    map_err (wrapped "failed to commit transaction") (sales.commit_tx tx)
    guard_not (is_empty bought) (domain all_items_sold)
    pure result

  -- `ValidatePurchase` at the present time. The user's own count was checked before.
  unfoldable pub validate_items : Sale → List Item → M W (Unit {0})
  validate_items s items w = (
    validate_purchase uc.purchase_svc (some s)
        (record { current_item_count = pos 0; max_items_per_user = uc.max_items_per_user }) items
        (clock.now w),
    w,
  )

  -- What `attemptPurchase` does inside the transaction, once the code is known to be new.
  unfoldable pub purchase_in_tx : sales.Repo → Checkout → Sale → M W PurchaseResult
  purchase_in_tx tx c s = do
    items ← load_items tx c.item_ids
    guard_not (is_empty items) (message "no valid items found")
    map_err (wrapped "purchase validation failed") (validate_items s items)
    bought ← purchase_items tx c.user_id items
    record_purchase tx c s items bought

  unfoldable pub in_transaction : sales.Repo → Checkout → M W PurchaseResult
  in_transaction tx c = do
    existing ← or_rollback tx (sales.get_purchase_result tx c.code)
    guard_not (is_processed existing) (domain checkout_already_processed)
    s ← map_err (wrapped "failed to get sale") (or_rollback tx (sales.get_sale_by_id tx c.sale_id))
    purchase_in_tx tx c s

  unfoldable pub attempt_purchase : Checkout → M W PurchaseResult
  attempt_purchase c = do
    log_attempts c c.item_ids
    check_limits c
    tx ← map_err (wrapped "failed to begin transaction") (sales.begin_tx sale_repo)
    in_transaction tx c

  unfoldable pub cleanup_checkout : String → String → String → M W (Unit {0})
  cleanup_checkout code sale_id user_id = do
    ignore (cache.remove_user_checkout_code sale_id user_id)
    ignore (cache.remove_checkout_code code)
    checkouts.delete_checkout code

  -- The pause after attempt `n`, unless it was the last.
  unfoldable pub pause : ℕ → ℕ → W → W
  pause left n w = if ltb 0 left then clock.sleep (millisecond * (100 * (n + 1))) w else w

  -- Leave the loop with a result or a business error, and go on after any other error.
  unfoldable pub leave_or :
      (Error → M W (Option PurchaseResult)) → Result PurchaseResult → M W (Option PurchaseResult)
  leave_or go_on (ok result) = pure (some result)
  leave_or go_on (err e) = elim (is_business_logic_error e) [ true ↦ raise e | false ↦ go_on e ]

  -- The retry loop: `left` attempts remain, `n` have been made, and `last` is what the variables
  -- `result` and `err` hold. `none` is the result `nil`, with which the loop begins.
  unfoldable pub retry_loop :
      ℕ → ℕ → Checkout → Result (Option PurchaseResult) → M W (Option PurchaseResult)
  unfolding leave_or pause
  retry_loop zero n c last w = (last, w)
  retry_loop (suc left) n c last w =
      let (r, w') = attempt_purchase c w in
      leave_or (λ e w''. retry_loop left (n + 1) c (err e) (pause left n w'')) r w'

  -- `ExecutePurchase` once the lock is held.
  unfoldable pub purchase_locked : String → Checkout → M W (Option PurchaseResult)
  purchase_locked code c = do
    result ← retry_loop uc.retry_attempts 0 c (ok none)
    ignore (cleanup_checkout code c.sale_id c.user_id)
    pure result

  unfoldable pub execute_purchase : String → M W (Option PurchaseResult)
  execute_purchase code = do
    exists ← cache.checkout_code_exists code
    c ← map_err (λ _. domain checkout_not_found) (checkouts.get_checkout_by_code code)
    when (not exists) (ignore (cache.set_checkout_code code (pos hour)))
    locked ←
        map_err (wrapped "failed to acquire lock")
          (cache.distributed_lock (lock_key code) uc.lock_timeout)
    guard_not (not locked) (message "another purchase is in progress for this user")
    finally (purchase_locked code c) (cache.release_lock (lock_key code))
