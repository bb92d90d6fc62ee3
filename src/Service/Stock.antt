-- ===== src/Service/Stock.antt =====
-- `ExecutePurchase` over the store: whatever the server answers and whatever the cache, the
-- checkout repository and the clock do, at most one purchase is recorded, the books agree, and
-- nothing is sold twice.
use flashsale_service.Service.Retry.{Good, Reported, Told, Failed, purchase_locked-Good}
use flashsale_service.Postgres.Stock.{KeepsSold}
use flashsale_service.Service.Rules.{Triple-on_rest, ignore_rest}
use flashsale_service.Service.Commit.{Outcome}
use flashsale_service.Domain.Checkout.{Checkout}
use flashsale_service.Service.{World, service_ports, on_rest}
use flashsale_service.Postgres.Stock.Books.{IsConsistent, KeepsSold-refl}
use flashsale_service.Domain.PurchaseService.{PurchaseResult}
use flashsale_service.Effect.{Result, ok, err, M, finally, when, ignore}
use flashsale_service.Postgres.Store.{Tables}
use flashsale_service.Ports.{CheckoutRepository, Cache, Clock, Ports}
use flashsale_service.UseCases.Purchase.{
  PurchaseUseCase, purchase_locked, execute_purchase, lock_key, hour,
}
use mathlib.Core.Path.{subst}
use flashsale_service.Prelude.{
  ◌≡◌, refl, Option, some, String, none, inl, inr, sym, true, false, Bool, not, pos,
}
use flashsale_service.Effect.Triple.{
  Triple, Post, Triple-bind, weaken, Triple-then, Triple-map_err, Triple-guard_not,
}

module _ {C : Type 0} (checkouts : CheckoutRepository C) (cache : Cache C) (clock : Clock C)
    (uc : PurchaseUseCase) where
  abbrev p : Ports (World C)
  p = service_ports checkouts cache clock

  module _ (t : Tables) (consistent : IsConsistent t) where
    -- The deferred release of the lock leaves the store alone.
    release-Good :
        (c : Checkout) (code : String)
        → Triple
            (λ (w : World C). w.store.tables ≡ t)
            (finally (purchase_locked p uc code c) (on_rest (cache.release_lock (lock_key code))))
            (Good checkouts cache clock uc t consistent c)
            (λ _. Failed checkouts cache clock uc t consistent c)
    release-Good c code = record {
      at = λ w same.
          go (purchase_locked p uc code c w)
            ((purchase_locked-Good checkouts cache clock uc t consistent c code).at w same);
    }
      where
        go :
            (x : Result (Option PurchaseResult) × World C)
            → Post
                (Good checkouts cache clock uc t consistent c)
                (λ _. Failed checkouts cache clock uc t consistent c)
                x
            → Post
                (Good checkouts cache clock uc t consistent c)
                (λ _. Failed checkouts cache clock uc t consistent c)
                (x.0, (on_rest (cache.release_lock (lock_key code)) x.1).1)
        go (ok o, w) h = h
        go (err e, w) h = h

    told :
        (x : Result (Option PurchaseResult) × World C)
        → Post
            (λ o w. Reported uc t o w.store.tables)
            (λ _ w. (code : String) × Outcome code t w.store.tables)
            x
        → Told uc t x.0 x.1.store.tables
    told (ok o, w) h = h
    told (err e, w) h = h

    set_code-keeps :
        (b : Bool) (code : String)
        → Triple
            (λ (w : World C). w.store.tables ≡ t)
            (when b (ignore (on_rest (cache.set_checkout_code code (pos hour)))))
            (λ _ w. w.store.tables ≡ t)
            (λ _ w. (code : String) × Outcome code t w.store.tables)
    set_code-keeps true code =
        ignore_rest (λ s. s.tables ≡ t) (cache.set_checkout_code code (pos hour))
    set_code-keeps false code = record { at = λ w h. h }

    kept :
        {A : Type 0} (m : M C A) (code : String)
        → Triple
            (λ (w : World C). w.store.tables ≡ t)
            (on_rest m)
            (λ _ w. w.store.tables ≡ t)
            (λ _ w. (code : String) × Outcome code t w.store.tables)
    kept m code =
        weaken (λ w h. h) (λ a w h. h) (λ e w h. (code, inl h))
          (Triple-on_rest (λ s. s.tables ≡ t) m)

    execute_purchase-Good :
        (code : String)
        → Triple
            (λ (w : World C). w.store.tables ≡ t)
            (execute_purchase p uc code)
            (λ o w. Reported uc t o w.store.tables)
            (λ _ w. (code : String) × Outcome code t w.store.tables)
    unfolding execute_purchase
    execute_purchase-Good code =
        Triple-bind (λ _ w. w.store.tables ≡ t) _ _ (kept (cache.checkout_code_exists code) code)
          (λ exists.
            Triple-bind (λ _ w. w.store.tables ≡ t) _ _
              (Triple-map_err _ _ (kept (checkouts.get_checkout_by_code code) code))
              (λ c.
                Triple-then (λ w. w.store.tables ≡ t) _ _ (set_code-keeps (not exists) code)
                  (Triple-bind (λ _ w. w.store.tables ≡ t) _ _
                    (Triple-map_err _ _
                      (kept (cache.distributed_lock (lock_key code) uc.lock_timeout) code))
                    (λ locked.
                      Triple-then (λ w. w.store.tables ≡ t) _ _
                        (weaken (λ w h. h) (λ a w h. h.0) (λ e w h. h)
                          (Triple-guard_not (not locked) _ (λ w b h. (code, inl h))))
                        (release-Good c code)))))

  Told-keeps :
      (t t' : Tables) (r : Result (Option PurchaseResult))
      → IsConsistent t
      → Told uc t r t'
      → IsConsistent t' × KeepsSold t.items t'.items
  Told-keeps t t' (ok (some r)) c (_, (_, rec, _, _)) = (rec.consistent, rec.keeps)
  Told-keeps t t' (ok none) c (_, e) = (
    subst IsConsistent (sym e) c,
    subst (λ x. KeepsSold t.items x.items) (sym e) (KeepsSold-refl t.items),
  )
  Told-keeps t t' (err _) c (_, inl e) = (
    subst IsConsistent (sym e) c,
    subst (λ x. KeepsSold t.items x.items) (sym e) (KeepsSold-refl t.items),
  )
  Told-keeps t t' (err _) c (_, inr (_, _, _, rec)) = (rec.consistent, rec.keeps)

  -- From tables whose books agree, whatever the server answers and whatever the cache, the checkout
  -- repository and the clock do: a result tells of the one purchase that was committed, with at
  -- least one item sold and `total_purchased` the number of items that the sale sold more; after
  -- an error the tables are unchanged, or one purchase is committed (its commit was answered by an
  -- error, or it sold nothing). Without an error there is a result, unless no attempt was allowed.
  pub execute_purchase-Told :
      (code : String) (w : World C)
      → IsConsistent w.store.tables
      → let (r, w') = execute_purchase p uc code w in Told uc w.store.tables r w'.store.tables
  execute_purchase-Told code w consistent =
      told w.store.tables consistent (execute_purchase p uc code w)
        ((execute_purchase-Good w.store.tables consistent code).at w refl)

  -- From tables whose books agree, however a purchase ends: `items_sold` of every sale is again the
  -- number of its items that are sold, and an item that was sold keeps its buyer.
  pub execute_purchase-KeepsSold :
      (code : String) (w : World C)
      → IsConsistent w.store.tables
      → let (_, w') = execute_purchase p uc code w in
        IsConsistent w'.store.tables × KeepsSold w.store.tables.items w'.store.tables.items
  execute_purchase-KeepsSold code w consistent =
      Told-keeps w.store.tables (execute_purchase p uc code w).1.store.tables
        (execute_purchase p uc code w).0 consistent (execute_purchase-Told code w consistent)
