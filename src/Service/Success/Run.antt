-- ===== src/Service/Success/Run.antt =====
-- `ExecutePurchase` from the transaction outwards.
use flashsale_service.Prelude.{
  ◌∷◌, refl, Bool, List, ℕ, ◌≡◌, String, false, true, pos, length, ℤ, ◌+ℤ◌, ltb_ℤ, some, none,
  Option, subst, sym,
}
use flashsale_service.Effect.{
  ok, err, Result, M, map_err, ignore, guard_not, pure, finally, ◌>>=◌, ◌>>◌,
}
use flashsale_service.Effect.Triple.{
  Triple, Post, Triple-bind, Triple-then, Triple-fact, Triple-map_err, weaken,
}
use flashsale_service.Errors.{Error, wrapped, domain, message, checkout_already_processed}
use flashsale_service.Domain.Checkout.{Checkout, is_empty}
use flashsale_service.Domain.Item.{Item}
use flashsale_service.Domain.Sale.{Sale}
use flashsale_service.Domain.PurchaseService.{
  PurchaseResult, calculate_purchase_result, validate_purchase,
}
use flashsale_service.Ports.{CheckoutRepository, Cache, Clock, Ports}
use flashsale_service.Postgres.Query.{find_sale, find_result}
use flashsale_service.Postgres.Rules.{live_map}
use flashsale_service.Postgres.Store.{Tables, in_tx}
use flashsale_service.Postgres.Sure.{
  Never, InUp, Any, sure-get_sale_by_id, sure-get_purchase_result, sure-update_sale,
  sure-save_purchase_result, sure-commit_tx,
}
use flashsale_service.Service.{World, service_ports}
use flashsale_service.Postgres.SaleRepository.{get_sale_by_id, get_purchase_result}
use flashsale_service.Service.Rules.{Triple-on_store, ignore_rest}
use flashsale_service.Service.Success.{
  load_items-sure, purchase_items-sure, Unknown, Both, store-value,
}
use flashsale_service.Service.Success.Rows.{ids_of, Distinct, OnSale, Available, OnSale-Available}
use flashsale_service.UseCases.Purchase.{
  PurchaseUseCase, load_items, purchase_items, record_purchase, validate_items, purchase_in_tx,
  in_transaction, or_rollback, roll_back, is_processed, lock_key,
}

module _ {W : Type 0} {P : W → Type 0} where
  pub guard-sure : (b : Bool) (e : Error) → b ≡ false → Triple P (guard_not b e) (λ _. P) Never
  guard-sure true e h = cc
  guard-sure false e h = record { at = λ w p. p }

  pub finally-sure :
      {A : Type 0} (X : A → Type 0) (m : M W A) (last : M W (Unit {0}))
      → Triple P m (λ a _. X a) Never
      → Triple P (finally m last) (λ a _. X a) Never
  finally-sure {A} X m last t = record { at = λ w p. by (m w).0 (m w).1 (t.at w p) }
    where
      by :
          (r : Result A) (w : W)
          → Post (λ a (_ : W). X a) Never (r, w)
          → Post (λ a (_ : W). X a) Never (finally (λ (_ : W). (r, w)) last w)
      by (ok a) w q = q
      by (err e) w q = absurd q

module _ {C : Type 0} (checkouts : CheckoutRepository C) (cache : Cache C) (clock : Clock C)
    (uc : PurchaseUseCase) where
  abbrev pub world : Ports (World C)
  world = service_ports checkouts cache clock

  -- What a purchase needs. Before the lock, where `outside` holds of the state of the cache and the
  -- checkout repository: they answer, and the lock is granted. From then on, where `inside` holds of
  -- the items that are left: they answer, the counters leave room, the filter says of no item that
  -- is left that it is sold, and the sale is active when the items are validated. The tables have
  -- the sale and its items, none sold, and no result for the code.
  pub record Ready (outside : C → Type 0) (inside : List Item → C → Type 0) (t : Tables)
      (c : Checkout) (s : Sale) (items : List Item) : Type 0 where
    pub code_exists :
        Triple outside (cache.checkout_code_exists c.code) (λ b x. outside x × (b ≡ true)) Never
    pub found :
        Triple outside (checkouts.get_checkout_by_code c.code) (λ r x. outside x × (r ≡ c)) Never
    pub locked :
        Triple outside
          (cache.distributed_lock (lock_key c.code) uc.lock_timeout)
          (λ b x. inside items x × (b ≡ true))
          Never
    pub logged :
        (id : String) (x : C)
        → inside items x
        → inside items (checkouts.log_checkout_attempt c.sale_id c.user_id c.code id x).1
    pub bought : ℤ
    pub sold : ℤ
    pub count_user :
        Triple
          (inside items)
          (cache.get_user_item_count c.sale_id c.user_id)
          (λ n x. inside items x × (n ≡ bought))
          Never
    pub count_sale :
        Triple
          (inside items)
          (cache.get_sale_item_count c.sale_id)
          (λ n x. inside items x × (n ≡ sold))
          Never
    pub room_sale : ltb_ℤ uc.max_items_per_sale (sold +ℤ pos (length c.item_ids)) ≡ false
    pub room_user : ltb_ℤ uc.max_items_per_user (bought +ℤ pos (length c.item_ids)) ≡ false
    pub unknown : Unknown checkouts cache clock uc inside
    pub same_items : c.item_ids ≡ ids_of items
    pub distinct : Distinct items
    pub row : find_sale c.sale_id t.sales ≡ some s
    pub rows : OnSale items t
    pub new_code : find_result c.code t.purchase_results ≡ none
    pub valid :
        (x : C)
        → inside items x
        → validate_purchase uc.purchase_svc
            (some s)
            (record { current_item_count = pos 0; max_items_per_user = uc.max_items_per_user })
            items
            (clock.now x)
          ≡ ok tt

  module _ (t : Tables) (h : ℕ) where
    abbrev Inside : (Tables → Type 0) → World C → Type 0
    Inside R w = InUp t h R w.store

    or_rollback-sure :
        {A : Type 0} {P : World C → Type 0} {Q : A → World C → Type 0} (m : M (World C) A)
        → Triple P m Q Never
        → Triple P (or_rollback world uc (in_tx h) m) Q Never
    unfolding or_rollback roll_back
    or_rollback-sure {A} {Q} m t' = record { at = λ w p. by (m w).0 (m w).1 (t'.at w p) }
      where
        by :
            (r : Result A) (w : World C)
            → Post Q Never (r, w)
            → Post Q Never (roll_back world uc (in_tx h) r w)
        by (ok a) w q = q
        by (err e) w q = absurd q

    record_purchase-sure :
        (c : Checkout) (s : Sale) (items : List Item) (id : String) (ids : List String)
        → Triple
            (Inside Any)
            (record_purchase world uc (in_tx h) c s items (id ∷ ids))
            (λ r _. r ≡ calculate_purchase_result items (id ∷ ids))
            Never
    unfolding record_purchase
    record_purchase-sure c s items id ids =
        Triple-then (Inside Any) counted (updated >> (saved >> (committed >> pure r)))
          (ignore_rest (InUp t h Any)
            (cache.increment_counters c.sale_id c.user_id (pos (length (id ∷ ids)))))
          (Triple-then (Inside Any) updated (saved >> (committed >> pure r))
            (Triple-map_err (wrapped "failed to update sale")
              (world.sales.update_sale (in_tx h) sold_more)
              (Triple-on_store (sure-update_sale t h sold_more)))
            (Triple-then (Inside Any) saved (committed >> pure r)
              (Triple-map_err (wrapped "failed to save purchase result")
                (world.sales.save_purchase_result (in_tx h) c.code r)
                (Triple-on_store (sure-save_purchase_result t h c.code r)))
              (Triple-then (λ _. Unit {0}) committed (pure r)
                (Triple-map_err (wrapped "failed to commit transaction")
                  (world.sales.commit_tx (in_tx h)) (Triple-on_store (sure-commit_tx t h)))
                (record { at = λ w _. refl }))))
      where
        r : PurchaseResult
        r = calculate_purchase_result items (id ∷ ids)

        sold_more : Sale
        sold_more = record s { items_sold = s.items_sold +ℤ pos (length (id ∷ ids)) }

        counted : M (World C) (Unit {0})
        counted =
            ignore (world.cache.increment_counters c.sale_id c.user_id (pos (length (id ∷ ids))))

        updated : M (World C) (Unit {0})
        updated =
            map_err (wrapped "failed to update sale") (world.sales.update_sale (in_tx h) sold_more)

        saved : M (World C) (Unit {0})
        saved =
            map_err (wrapped "failed to save purchase result")
              (world.sales.save_purchase_result (in_tx h) c.code r)

        committed : M (World C) (Unit {0})
        committed =
            map_err (wrapped "failed to commit transaction") (world.sales.commit_tx (in_tx h))

    module _ (outside : C → Type 0) (inside : List Item → C → Type 0) (c : Checkout) (s : Sale)
        (i : Item) (is : List Item) (ready : Ready outside inside t c s (i ∷ is)) where
      -- The transaction is open on a copy of the tables, and the items are still to be sold.
      abbrev Begun : World C → Type 0
      Begun = Both checkouts cache clock uc (InUp t h (λ d. d ≡ t)) (inside (i ∷ is))

      abbrev result : PurchaseResult
      result = calculate_purchase_result (i ∷ is) (ids_of (i ∷ is))

      validate_items-sure : Triple Begun (validate_items world uc s (i ∷ is)) (λ _. Begun) Never
      unfolding validate_items
      validate_items-sure = record { at = λ w p. rw (Post, ready.valid w.rest p.1) p }

      purchase_in_tx-sure :
          Triple Begun (purchase_in_tx world uc (in_tx h) c s) (λ r _. r ≡ result) Never
      unfolding purchase_in_tx
      purchase_in_tx-sure =
          Triple-bind (λ got w. Begun w × (got ≡ i ∷ is)) (load_items world uc (in_tx h) c.item_ids)
            after_loading
            (subst
              (λ ids.
                Triple Begun (load_items world uc (in_tx h) ids) (λ got w. Begun w × (got ≡ i ∷ is))
                  Never)
              (sym ready.same_items)
              (load_items-sure checkouts cache clock uc t h (λ d. d ≡ t) (inside (i ∷ is)) (i ∷ is)
                (λ d e. subst (OnSale (i ∷ is)) (sym e) ready.rows)))
            (λ got. Triple-fact (λ e.
              subst (λ g. Triple Begun (after_loading g) (λ r _. r ≡ result) Never) (sym e) loaded))
        where
          after_loading : List Item → M (World C) PurchaseResult
          after_loading got =
              guard_not (is_empty got) (message "no valid items found")
              >> (map_err (wrapped "purchase validation failed") (validate_items world uc s got)
                  >> (purchase_items world uc (in_tx h) c.user_id got >>= λ bought.
                      record_purchase world uc (in_tx h) c s got bought))

          loaded : Triple Begun (after_loading (i ∷ is)) (λ r _. r ≡ result) Never
          loaded =
              Triple-then Begun
                (map_err (wrapped "purchase validation failed")
                  (validate_items world uc s (i ∷ is)))
                (purchase_items world uc (in_tx h) c.user_id (i ∷ is) >>= λ bought.
                  record_purchase world uc (in_tx h) c s (i ∷ is) bought)
                (Triple-map_err (wrapped "purchase validation failed")
                  (validate_items world uc s (i ∷ is)) validate_items-sure)
                (Triple-bind (λ bought w. Inside Any w × (bought ≡ ids_of (i ∷ is)))
                  (purchase_items world uc (in_tx h) c.user_id (i ∷ is))
                  (λ bought. record_purchase world uc (in_tx h) c s (i ∷ is) bought)
                  (weaken
                    (λ w p. (
                      (
                        p.0.0,
                        live_map t h (w.store.txs h)
                            (λ d e.
                              subst (Available (i ∷ is)) (sym e)
                                (OnSale-Available (i ∷ is) t ready.rows))
                            p.0.1,
                      ),
                      p.1,
                    ))
                    (λ _ w q. q) (λ e w q. q)
                    (purchase_items-sure checkouts cache clock uc t h inside c.user_id (i ∷ is)
                      ready.unknown ready.distinct))
                  (λ bought. Triple-fact (λ e.
                    subst
                      (λ b.
                        Triple (Inside Any) (record_purchase world uc (in_tx h) c s (i ∷ is) b)
                          (λ r _. r ≡ result) Never)
                      (sym e) (record_purchase-sure c s (i ∷ is) i.id (ids_of is)))))

      pub in_transaction-sure :
          Triple Begun (in_transaction world uc (in_tx h) c) (λ r _. r ≡ result) Never
      unfolding in_transaction
      in_transaction-sure =
          Triple-bind (λ x w. Begun w × (x ≡ none))
            (or_rollback world uc (in_tx h) (world.sales.get_purchase_result (in_tx h) c.code))
            unless_processed
            (or_rollback-sure (world.sales.get_purchase_result (in_tx h) c.code) (
              store-value checkouts cache clock uc (inside (i ∷ is))
                (get_purchase_result (in_tx h) c.code)
                (sure-get_purchase_result t h c.code (λ d e.
                  subst (λ y. find_result c.code y.purchase_results ≡ none) (sym e)
                    ready.new_code))))
            (λ x. Triple-fact (λ e.
              subst (λ y. Triple Begun (unless_processed y) (λ r _. r ≡ result) Never) (sym e)
                is_new))
        where
          find_the_sale : M (World C) Sale
          find_the_sale =
              map_err (wrapped "failed to get sale")
                (or_rollback world uc (in_tx h) (world.sales.get_sale_by_id (in_tx h) c.sale_id))

          unless_processed : Option PurchaseResult → M (World C) PurchaseResult
          unless_processed x =
              guard_not (is_processed x) (domain checkout_already_processed)
              >> (find_the_sale >>= λ s'. purchase_in_tx world uc (in_tx h) c s')

          is_new : Triple Begun (unless_processed none) (λ r _. r ≡ result) Never
          is_new =
              Triple-bind (λ x w. Begun w × (x ≡ s)) find_the_sale
                (λ s'. purchase_in_tx world uc (in_tx h) c s')
                (Triple-map_err (wrapped "failed to get sale")
                  (or_rollback world uc (in_tx h) (world.sales.get_sale_by_id (in_tx h) c.sale_id))
                  (or_rollback-sure (world.sales.get_sale_by_id (in_tx h) c.sale_id) (
                    store-value checkouts cache clock uc (inside (i ∷ is))
                      (get_sale_by_id (in_tx h) c.sale_id)
                      (sure-get_sale_by_id t h c.sale_id s (λ d e.
                        subst (λ y. find_sale c.sale_id y.sales ≡ some s) (sym e) ready.row)))))
                (λ s'. Triple-fact (λ e.
                  subst
                    (λ y.
                      Triple Begun (purchase_in_tx world uc (in_tx h) c y) (λ r _. r ≡ result)
                        Never)
                    (sym e) purchase_in_tx-sure))
