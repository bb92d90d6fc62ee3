-- ===== src/Service/Attempt.antt =====
-- `attemptPurchase`: what is committed when it returns.
use flashsale_service.Service.Validate.{purchase_in_tx-Bought}
use flashsale_service.Service.Commit.{Bought, Outcome}
use flashsale_service.Service.Purchase.{log_attempts-keeps, check_limits-keeps}
use flashsale_service.Postgres.SaleRepository.InTransaction.{
  Triple-get_purchase_result, Triple-get_sale_by_id,
}
use flashsale_service.Postgres.SaleRepository.{
  begin_tx, rollback_tx, get_purchase_result, get_sale_by_id,
}
use flashsale_service.Service.Rules.{Triple-on_store}
use flashsale_service.Errors.{wrapped, domain, checkout_already_processed}
use flashsale_service.Effect.{map_err, pure, Result, err, ok, M}
use flashsale_service.Postgres.Rules.{
  InTx, InTx-map, tables-rollback, Live-InTx, live_fact, Triple-begin,
}
use flashsale_service.Postgres.Query.{find_result, find_sale}
use flashsale_service.Service.{World, service_ports, on_store}
use flashsale_service.UseCases.Purchase.{
  PurchaseUseCase, or_rollback, roll_back, in_transaction, attempt_purchase, is_processed,
}
use flashsale_service.Postgres.Stock.Books.{IsConsistent}
use flashsale_service.Postgres.Store.{Tables, in_tx, Store, pool, begin}
use flashsale_service.Ports.{CheckoutRepository, Cache, Clock, Ports}
use flashsale_service.Domain.Checkout.{Checkout}
use mathlib.Core.Path.{subst}
use flashsale_service.Prelude.{◌≡◌, refl, ℕ, none, inl, false, some, sym, Option, ◌∙◌}
use flashsale_service.Domain.PurchaseService.{PurchaseResult}
use flashsale_service.Effect.Triple.{
  Triple, Triple-map_err, weaken, Triple-then, Triple-guard_not, Triple-bind, Triple-fact, Post,
}

module _ {C : Type 0} (checkouts : CheckoutRepository C) (cache : Cache C) (clock : Clock C)
    (uc : PurchaseUseCase) where
  abbrev q : Ports (World C)
  q = service_ports checkouts cache clock

  module _ (t : Tables) (consistent : IsConsistent t) (c : Checkout) where
    roll_back-Fresh :
        {A : Type 0} (h : ℕ) (Q : A → Store → Type 0) (r : Result A) (w : World C)
        → Post Q (λ _ s. s.tables ≡ t) (r, w.store)
        → Post
            (λ a (w' : World C). Q a w'.store)
            (λ _ w'. w'.store.tables ≡ t)
            (roll_back q uc (in_tx h) r w)
    unfolding roll_back rollback_tx
    roll_back-Fresh h Q (ok a) w x = x
    roll_back-Fresh h Q (err e) w x = tables-rollback t h w.store x

    -- An error of a call that assigns `err` is followed by a rollback, which commits nothing.
    or_rollback-Fresh :
        {A : Type 0} (h : ℕ) (m : M Store A) (Q : A → Store → Type 0)
        → Triple (InTx t h (λ d. d ≡ t)) m Q (λ _ s. s.tables ≡ t)
        → Triple
            (λ (w : World C). InTx t h (λ d. d ≡ t) w.store)
            (or_rollback q uc (in_tx h) (on_store m))
            (λ a w. Q a w.store)
            (λ _ w. w.store.tables ≡ t)
    unfolding or_rollback
    or_rollback-Fresh h m Q k = record {
      at = λ w pre.
          roll_back-Fresh h Q (m w.store).0 (record w { store = (m w.store).1 }) (k.at w.store pre);
    }

    absent : (o : Option PurchaseResult) → is_processed o ≡ false → o ≡ none
    absent none e = refl
    absent (some r) e = cc

    in_transaction-Bought :
        (h : ℕ)
        → Triple
            (λ (w : World C). InTx t h (λ d. d ≡ t) w.store)
            (in_transaction q uc (in_tx h) c)
            (λ r w. Bought c r t w.store.tables)
            (λ _ w. Outcome c.code t w.store.tables)
    unfolding in_transaction
    in_transaction-Bought h =
        Triple-bind
          (λ o w. InTx t h (λ d. d ≡ t) w.store × (find_result c.code t.purchase_results ≡ o))
          (or_rollback q uc (in_tx h) (on_store (get_purchase_result (in_tx h) c.code))) _
          (weaken (λ w x. x)
            (λ o w x. (
              InTx-map t h w.store (λ d y. y.0) (Live-InTx t h _ w.store x),
              live_fact t h w.store (λ d y. y.1) x,
            ))
            (λ e w x. inl x)
            (or_rollback-Fresh h (get_purchase_result (in_tx h) c.code) _ (
              weaken (λ s x. x) (λ o s x. x) (λ e s x. x.0)
                (Triple-get_purchase_result t h c.code))))
          (λ o. Triple-fact (λ found.
            Triple-then (λ w. InTx t h (λ d. d ≡ t) w.store × (is_processed o ≡ false)) _ _
              (Triple-guard_not (is_processed o) (domain checkout_already_processed)
                (λ w e x. inl x.0))
              (Triple-fact (λ new.
                Triple-bind
                  (λ s w. InTx t h (λ d. d ≡ t) w.store × (find_sale c.sale_id t.sales ≡ some s))
                  (map_err (wrapped "failed to get sale")
                    (or_rollback q uc (in_tx h) (on_store (get_sale_by_id (in_tx h) c.sale_id))))
                  _
                  (Triple-map_err (wrapped "failed to get sale") _ (
                    weaken (λ w x. x)
                      (λ s w x. (
                        InTx-map t h w.store (λ d y. y.0) (Live-InTx t h _ w.store x),
                        live_fact t h w.store (λ d y. y.1) x,
                      ))
                      (λ e w x. inl x)
                      (or_rollback-Fresh h (get_sale_by_id (in_tx h) c.sale_id) _ (
                        weaken (λ s x. x) (λ o s x. x) (λ e s x. x.0)
                          (Triple-get_sale_by_id t h c.sale_id)))))
                  (λ s. Triple-fact (λ row.
                    purchase_in_tx-Bought checkouts cache clock uc t h c consistent
                      (found ∙ absent o new) s row))))))

    begin_tx-Fresh :
        Triple
          (λ (w : World C). w.store.tables ≡ t)
          (map_err (wrapped "failed to begin transaction") (on_store (begin_tx pool)))
          (λ r w. (h : ℕ) × (r ≡ in_tx h) × InTx t h (λ d. d ≡ t) w.store)
          (λ _ w. Outcome c.code t w.store.tables)
    unfolding begin_tx
    begin_tx-Fresh =
        Triple-map_err (wrapped "failed to begin transaction") (on_store (begin_tx pool)) (
          weaken (λ w x. x) (λ r w x. x) (λ e w x. inl x)
            (Triple-on_store (
              Triple-bind (λ h. InTx t h (λ d. d ≡ t)) begin (λ h. pure (in_tx h)) (Triple-begin t)
                (λ h. record { at = λ s x. (h, refl, x) }))))

    -- One attempt leaves the committed tables as they were, or records one purchase under the
    -- checkout's code; where it returns a result, it has recorded that one.
    pub attempt_purchase-Bought :
        Triple
          (λ (w : World C). w.store.tables ≡ t)
          (attempt_purchase q uc c)
          (λ r w. Bought c r t w.store.tables)
          (λ _ w. Outcome c.code t w.store.tables)
    unfolding attempt_purchase
    attempt_purchase-Bought =
        Triple-then (λ w. w.store.tables ≡ t) _ _
          (log_attempts-keeps checkouts cache clock uc (λ s. s.tables ≡ t) c c.item_ids)
          (Triple-then (λ w. w.store.tables ≡ t) _ _
            (weaken (λ w x. x) (λ a w x. x) (λ e w x. inl x)
              (check_limits-keeps checkouts cache clock uc (λ s. s.tables ≡ t) c))
            (Triple-bind (λ r w. (h : ℕ) × (r ≡ in_tx h) × InTx t h (λ d. d ≡ t) w.store) _ _
              begin_tx-Fresh
              (λ r. record {
                at = λ w x.
                    subst
                      (λ y.
                        Post (λ r w. Bought c r t w.store.tables)
                          (λ _ (w' : World C). Outcome c.code t w'.store.tables)
                          (in_transaction q uc y c w))
                      (sym x.1) ((in_transaction-Bought x.0).at w x.2);
              })))
