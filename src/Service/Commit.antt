-- ===== src/Service/Commit.antt =====
-- The end of `attemptPurchase`: the counters, the sale's row, the result and the commit.
use flashsale_service.Domain.Item.{Item}
use flashsale_service.Postgres.SaleRepository.InTransaction.{
  Agreed, Selling-Agreed, Triple-update_sale, Triple-save_purchase_result, Triple-commit_tx,
}
use flashsale_service.Postgres.SaleRepository.{update_sale, save_purchase_result, commit_tx}
use flashsale_service.Service.Rules.{ignore_rest, Triple-on_store}
use flashsale_service.Errors.{wrapped, domain, all_items_sold}
use flashsale_service.Effect.{when, map_err, ignore, guard_not, ◌>>◌, pure}
use flashsale_service.Domain.Sale.{Sale}
use flashsale_service.Postgres.Rules.{Dead, InTx, InTx-map}
use flashsale_service.Postgres.Query.{find_result, find_sale}
use flashsale_service.Service.{World, service_ports, on_rest, on_store}
use flashsale_service.UseCases.Purchase.{PurchaseUseCase, record_purchase}
use flashsale_service.Postgres.Stock.Books.{Recorded, IsConsistent, Selling, with_sold}
use flashsale_service.Postgres.Store.{Tables, in_tx}
use flashsale_service.Ports.{CheckoutRepository, Cache, Clock, Ports}
use flashsale_service.Domain.Checkout.{Checkout, is_empty}
use flashsale_service.Prelude.{
  ◌≡◌, refl, String, ◌⊎◌, ℕ, pos, ◌≤◌, none, List, inl, false, some, length, ◌∷◌, not, arith, [],
  inr,
}
use flashsale_service.Domain.PurchaseService.{PurchaseResult, calculate_purchase_result}
use flashsale_service.Effect.Triple.{Triple, Triple-map_err, weaken, Triple-then, Triple-guard_not}

-- The committed tables before and after: unchanged, or with one purchase under the code recorded.
abbrev pub Outcome : String → Tables → Tables → Type 0
Outcome code t t' =
    (t' ≡ t)
    ⊎ ((sale_id : String) × (k : ℕ) × (r : PurchaseResult) × Recorded code sale_id k r t t')

-- The result says how many items were sold, and at least one was.
abbrev pub Bought : Checkout → PurchaseResult → Tables → Tables → Type 0
Bought c r t t' =
    (k : ℕ) × Recorded c.code c.sale_id k r t t' × (r.total_purchased ≡ pos k) × (1 ≤ k)

module _ {C : Type 0} (checkouts : CheckoutRepository C) (cache : Cache C) (clock : Clock C)
    (uc : PurchaseUseCase) where
  abbrev p : Ports (World C)
  p = service_ports checkouts cache clock

  module _ (t : Tables) (h : ℕ) (c : Checkout) (consistent : IsConsistent t)
      (fresh : find_result c.code t.purchase_results ≡ none) where
    abbrev Ends : World C → Type 0
    Ends w = Outcome c.code t w.store.tables

    Dead-Ends : (w : World C) → Dead t h w.store → Ends w
    Dead-Ends w d = inl d.0

    -- `UpdateSale`, where something was bought.
    update_if :
        (bought : List String) (s : Sale)
        → find_sale c.sale_id t.sales ≡ some s
        → Triple
            (λ (w : World C). InTx t h (Selling c.sale_id (length bought) t) w.store)
            (when (not (is_empty bought)) (
              map_err
                (wrapped "failed to update sale")
                (on_store (update_sale (in_tx h) (with_sold s (length bought))))))
            (λ _ w. InTx t h (Agreed t h c.sale_id (length bought)) w.store)
            (λ _ w. Ends w)
    update_if [] s found = record {
      at = λ w q. InTx-map t h w.store (λ d. Selling-Agreed t h c.sale_id d consistent) q;
    }
    update_if (id ∷ ids) s found = Triple-map_err _ _ (
        weaken (λ w q. q) (λ a w q. q) (λ e w q. Dead-Ends w q)
          (Triple-on_store
            (Triple-update_sale t h c.sale_id (length (id ∷ ids)) s consistent found)))

    count_if :
        (bought : List String)
        → Triple
            (λ (w : World C). InTx t h (Selling c.sale_id (length bought) t) w.store)
            (when (not (is_empty bought)) (
              ignore
                (on_rest (cache.increment_counters c.sale_id c.user_id (pos (length bought))))))
            (λ _ w. InTx t h (Selling c.sale_id (length bought) t) w.store)
            (λ _ w. Ends w)
    count_if [] = record { at = λ w q. q }
    count_if (id ∷ ids) =
        ignore_rest (InTx t h (Selling c.sale_id (length (id ∷ ids)) t))
          (cache.increment_counters c.sale_id c.user_id (pos (length (id ∷ ids))))

    nonempty : (bought : List String) → is_empty bought ≡ false → 1 ≤ length bought
    nonempty [] e = cc
    nonempty (id ∷ ids) e = omega arith

    commit-Ends :
        (k : ℕ) (r : PurchaseResult) (w : World C)
        → (w.store.tables ≡ t) ⊎ Recorded c.code c.sale_id k r t w.store.tables
        → Ends w
    commit-Ends k r w (inl e) = inl e
    commit-Ends k r w (inr q) = inr (c.sale_id, k, r, q)

    save_result :
        (k : ℕ) (r : PurchaseResult)
        → Triple
            (λ (w : World C). InTx t h (Agreed t h c.sale_id k) w.store)
            (map_err
              (wrapped "failed to save purchase result")
              (on_store (save_purchase_result (in_tx h) c.code r)))
            (λ _ w. InTx t h (Recorded c.code c.sale_id k r t) w.store)
            (λ _ w. Ends w)
    save_result k r =
        Triple-map_err (wrapped "failed to save purchase result")
          (on_store (save_purchase_result (in_tx h) c.code r))
          (weaken (λ w q. q) (λ a w q. q) (λ e w q. Dead-Ends w q)
            (Triple-on_store (Triple-save_purchase_result t h c.code c.sale_id k r fresh)))

    commit_result :
        (k : ℕ) (r : PurchaseResult)
        → Triple
            (λ (w : World C). InTx t h (Recorded c.code c.sale_id k r t) w.store)
            (map_err (wrapped "failed to commit transaction") (on_store (commit_tx (in_tx h))))
            (λ _ w. Recorded c.code c.sale_id k r t w.store.tables)
            (λ _ w. Ends w)
    commit_result k r =
        Triple-map_err (wrapped "failed to commit transaction") (on_store (commit_tx (in_tx h))) (
          weaken (λ w q. q) (λ a w q. q) (λ e w q. commit-Ends k r w q)
            (Triple-on_store (Triple-commit_tx t h (Recorded c.code c.sale_id k r t))))

    report :
        (items : List Item) (bought : List String)
        → let r = calculate_purchase_result items bought in
          Triple
            (λ (w : World C). Recorded c.code c.sale_id (length bought) r t w.store.tables)
            (guard_not (is_empty bought) (domain all_items_sold) >> pure r)
            (λ r w. Bought c r t w.store.tables)
            (λ _ w. Ends w)
    unfolding calculate_purchase_result
    report items bought =
        let r = calculate_purchase_result items bought in
        Triple-then
          (λ w.
            Recorded c.code c.sale_id (length bought) r t w.store.tables
            × (is_empty bought ≡ false))
          (guard_not (is_empty bought) (domain all_items_sold)) (pure r)
          (Triple-guard_not (is_empty bought) (domain all_items_sold)
            (λ w e q. inr (c.sale_id, length bought, r, q)))
          (record { at = λ w q. (length bought, q.0, refl, nonempty bought q.1) })

    pub record_purchase-Bought :
        (s : Sale) (items : List Item) (bought : List String)
        → find_sale c.sale_id t.sales ≡ some s
        → Triple
            (λ (w : World C). InTx t h (Selling c.sale_id (length bought) t) w.store)
            (record_purchase p uc (in_tx h) c s items bought)
            (λ r w. Bought c r t w.store.tables)
            (λ _ w. Ends w)
    unfolding record_purchase
    record_purchase-Bought s items bought found =
        let r = calculate_purchase_result items bought in
        Triple-then (λ w. InTx t h (Selling c.sale_id (length bought) t) w.store) _ _
          (count_if bought)
          (Triple-then (λ w. InTx t h (Agreed t h c.sale_id (length bought)) w.store) _ _
            (update_if bought s found)
            (Triple-then (λ w. InTx t h (Recorded c.code c.sale_id (length bought) r t) w.store) _ _
              (save_result (length bought) r)
              (Triple-then (λ w. Recorded c.code c.sale_id (length bought) r t w.store.tables) _ _
                (commit_result (length bought) r) (report items bought))))
