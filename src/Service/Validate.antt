-- ===== src/Service/Validate.antt =====
-- `attemptPurchase` from the items' rows to the sale: validation lets only items of the sale through.
use flashsale_service.Service.Commit.{Outcome, Bought, record_purchase-Bought}
use flashsale_service.Domain.PurchaseService.Validation.{AllOfSale, validate_purchase_sound}
use flashsale_service.Service.Purchase.{AllRows, load_items-AllRows, AllOf, purchase_items-Selling}
use flashsale_service.Domain.Item.{Item}
use flashsale_service.Errors.{wrapped, message}
use flashsale_service.Effect.{Result, err, ok}
use flashsale_service.Domain.Sale.{Sale}
use flashsale_service.Postgres.Rules.{InTx, InTx-map}
use flashsale_service.Postgres.Query.{find_result, find_sale}
use flashsale_service.Service.{World, service_ports}
use flashsale_service.UseCases.Purchase.{
  PurchaseUseCase, validate_items, purchase_in_tx, load_items, purchase_items,
}
use flashsale_service.Postgres.Stock.Books.{IsConsistent, Selling, Selling-start, find_sale-id}
use flashsale_service.Postgres.Store.{Tables, in_tx, Store}
use flashsale_service.Ports.{CheckoutRepository, Cache, Clock, Ports}
use flashsale_service.Domain.Checkout.{Checkout, is_empty}
use mathlib.Core.Path.{subst}
use flashsale_service.Prelude.{
  ◌≡◌, refl, String, ℕ, pos, none, List, inl, some, length, ◌∷◌, arith, [], sym,
}
use flashsale_service.Domain.PurchaseService.{UserLimits, validate_purchase}
use flashsale_service.Effect.Triple.{
  Triple, Triple-map_err, weaken, Triple-then, Triple-guard_not, Triple-bind, Triple-fact, Post,
}

module _ {C : Type 0} (checkouts : CheckoutRepository C) (cache : Cache C) (clock : Clock C)
    (uc : PurchaseUseCase) where
  abbrev p : Ports (World C)
  p = service_ports checkouts cache clock

  module _ (t : Tables) (h : ℕ) (c : Checkout) (consistent : IsConsistent t)
      (fresh : find_result c.code t.purchase_results ≡ none) where
    abbrev Ends : World C → Type 0
    Ends w = Outcome c.code t w.store.tables

    AllOf-AllRows :
        (sale_id : String) (items : List Item)
        → AllRows t items
        → AllOfSale sale_id items
        → AllOf t sale_id items
    AllOf-AllRows sale_id [] rows all = tt
    AllOf-AllRows sale_id (i ∷ is) rows all =
        (λ j found. ground (arith, rows.0, all.0), AllOf-AllRows sale_id is rows.1 all.1)

    start-Selling : (s : Store) → InTx t h (λ d. d ≡ t) s → InTx t h (Selling c.sale_id 0 t) s
    start-Selling s q =
        InTx-map t h s
          (λ d e.
            subst (Selling c.sale_id 0 t) (sym e) (Selling-start c.sale_id t consistent.unique))
          q

    validate_items-AllOf :
        (s : Sale) (items : List Item)
        → s.id ≡ c.sale_id
        → AllRows t items
        → Triple
            (λ (w : World C). InTx t h (λ d. d ≡ t) w.store)
            (validate_items p uc s items)
            (λ _ w. InTx t h (Selling c.sale_id 0 t) w.store × AllOf t c.sale_id items)
            (λ _ w. Ends w)
    unfolding validate_items
    validate_items-AllOf s items ids rows = record { at = λ w q. go w q _ refl }
      where
        limits : UserLimits
        limits = record { current_item_count = pos 0; max_items_per_user = uc.max_items_per_user }

        go :
            (w : World C)
            → InTx t h (λ d. d ≡ t) w.store
            → (r : Result (Unit {0}))
            → validate_purchase uc.purchase_svc (some s) limits items (p.clock.now w) ≡ r
            → Post
                (λ (_ : Unit {0}) (w' : World C).
                  InTx t h (Selling c.sale_id 0 t) w'.store × AllOf t c.sale_id items)
                (λ _ w'. Ends w')
                (r, w)
        go w q (err e) eq = inl q.0
        go w q (ok u) eq = (
          start-Selling w.store q,
          AllOf-AllRows c.sale_id items rows (
              subst (λ x. AllOfSale x items) ids
                (validate_purchase_sound uc.purchase_svc s limits items (p.clock.now w) eq).4),
        )

    InTx-Ends : (w : World C) → InTx t h (λ d. d ≡ t) w.store → Ends w
    InTx-Ends w q = inl q.0

    pub purchase_in_tx-Bought :
        (s : Sale)
        → find_sale c.sale_id t.sales ≡ some s
        → Triple
            (λ (w : World C). InTx t h (λ d. d ≡ t) w.store)
            (purchase_in_tx p uc (in_tx h) c s)
            (λ r w. Bought c r t w.store.tables)
            (λ _ w. Ends w)
    unfolding purchase_in_tx
    purchase_in_tx-Bought s found =
        Triple-bind (λ items w. InTx t h (λ d. d ≡ t) w.store × AllRows t items)
          (load_items p uc (in_tx h) c.item_ids) _
          (load_items-AllRows checkouts cache clock uc t h c.item_ids)
          (λ items. Triple-fact (λ rows.
            Triple-then (λ w. InTx t h (λ d. d ≡ t) w.store) _ _
              (weaken (λ w q. q) (λ a w q. q.0) (λ e w q. q)
                (Triple-guard_not (is_empty items) (message "no valid items found")
                  (λ w e q. InTx-Ends w q)))
              (Triple-then (λ w. InTx t h (Selling c.sale_id 0 t) w.store × AllOf t c.sale_id items)
                _ _
                (Triple-map_err (wrapped "purchase validation failed") (validate_items p uc s items)
                  (validate_items-AllOf s items (find_sale-id c.sale_id t.sales s found) rows))
                (Triple-fact (λ all.
                  Triple-bind (λ bought w. InTx t h (Selling c.sale_id (length bought) t) w.store)
                    (purchase_items p uc (in_tx h) c.user_id items) _
                    (weaken (λ w q. q)
                      (λ a w q.
                        subst (λ n. InTx t h (Selling c.sale_id n t) w.store) (omega arith) q)
                      (λ e w q. inl q.0)
                      (purchase_items-Selling checkouts cache clock uc t h c.sale_id c.user_id 0
                        items all))
                    (λ bought.
                      record_purchase-Bought checkouts cache clock uc t h c consistent fresh s items
                        bought found))))))
