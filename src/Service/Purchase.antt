-- ===== src/Service/Purchase.antt =====
-- `attemptPurchase` over the store: what it commits, on every path.
use flashsale_service.Postgres.SaleRepository.InTransaction.{
  Triple-get_item_by_id, sold_one, Triple-mark_item_as_sold,
}
use flashsale_service.Postgres.SaleRepository.{get_item_by_id, mark_item_as_sold}
use flashsale_service.Effect.{Result, guard_not, ok, err, pure, ignore, attempt, or_zero}
use flashsale_service.Service.Rules.{ignore_rest, or_zero_rest, Triple-on_store}
use flashsale_service.Postgres.Rules.{InTx, InTx-map, Live-InTx, live_fact, Dead, Dead-InTx}
use flashsale_service.Domain.Checkout.{Checkout}
use flashsale_service.Errors.{Error}
use flashsale_service.Postgres.Query.{find_item}
use flashsale_service.Postgres.Stock.Books.{find_item-id, IsItemOf, Selling}
use flashsale_service.UseCases.Purchase.{
  PurchaseUseCase, log_attempts, check_limits, load_items, keep_found, after_marking, unless_sold,
  purchase_items, purchase_item, add_bought,
}
use flashsale_service.Domain.Item.{Item}
use flashsale_service.Ports.{CheckoutRepository, Cache, Clock, Ports}
use flashsale_service.Postgres.Store.{Tables, Store, in_tx}
use mathlib.Core.Path.{subst}
use native.Mathlib.Nat.{add-zero}
use flashsale_service.Prelude.{
  ◌≡◌, String, List, ℕ, ◌∷◌, some, [], pos, Bool, sym, false, ◌+◌, length, arith, true,
}
use flashsale_service.Effect.Triple.{
  Triple, Triple-then, Triple-bind, weaken, Triple-guard_not, Triple-attempt, Triple-frame,
}
use flashsale_service.Service.{World, on_store, on_rest, service_ports}

-- The ids are those of items of the sale.
abbrev pub AllOf : Tables → String → List Item → Type 0
AllOf t sale_id [] = Unit
AllOf t sale_id (i ∷ is) = IsItemOf sale_id i.id t.items × AllOf t sale_id is

-- Each item is a row of the committed items.
abbrev pub AllRows : Tables → List Item → Type 0
AllRows t [] = Unit
AllRows t (i ∷ is) = (find_item i.id t.items ≡ some i) × AllRows t is

module _ {C : Type 0} (checkouts : CheckoutRepository C) (cache : Cache C) (clock : Clock C)
    (uc : PurchaseUseCase) where
  abbrev ports : Ports (World C)
  ports = service_ports checkouts cache clock

  pub log_attempts-keeps :
      (P : Store → Type 0) {E : Error → World C → Type 0} (c : Checkout) (ids : List String)
      → Triple (λ (w : World C). P w.store) (log_attempts ports uc c ids) (λ _ w. P w.store) E
  unfolding log_attempts
  log_attempts-keeps P c [] = record { at = λ w h. h }
  log_attempts-keeps P c (id ∷ ids) =
      Triple-then (λ w. P w.store) _ _
        (ignore_rest P (checkouts.log_checkout_attempt c.sale_id c.user_id c.code id))
        (log_attempts-keeps P c ids)

  guard_keeps :
      (P : Store → Type 0) (b : Bool) (e : Error)
      → Triple (λ (w : World C). P w.store) (guard_not b e) (λ _ w. P w.store) (λ _ w. P w.store)
  guard_keeps P b e =
      weaken (λ w h. h) (λ a w h. h.0) (λ e w h. h) (Triple-guard_not b e (λ w b h. h))

  pub check_limits-keeps :
      (P : Store → Type 0) (c : Checkout)
      → Triple
          (λ (w : World C). P w.store)
          (check_limits ports uc c)
          (λ _ w. P w.store)
          (λ _ w. P w.store)
  unfolding check_limits
  check_limits-keeps P c =
      Triple-bind (λ _ w. P w.store) _ _
        (or_zero_rest P (pos 0) (cache.get_user_item_count c.sale_id c.user_id))
        (λ users.
          Triple-bind (λ _ w. P w.store) _ _
            (or_zero_rest P (pos 0) (cache.get_sale_item_count c.sale_id))
            (λ sold. Triple-then (λ w. P w.store) _ _ (guard_keeps P _ _) (guard_keeps P _ _)))

  abbrev or_false : Result Bool → Bool
  or_false (ok b) = b
  or_false (err _) = false

  abbrev FoundRow : Tables → Result Item → Type 0
  FoundRow t (ok i) = find_item i.id t.items ≡ some i
  FoundRow t (err _) = Unit

  add_row :
      (t : Tables) (found : Result Item) (rest : List Item)
      → FoundRow t found
      → AllRows t rest
      → AllRows t (keep_found found rest)
  add_row t (ok i) rest p q = (p, q)
  add_row t (err _) rest p q = q

  module _ (t : Tables) (h : ℕ) where
    found_row :
        (id : String)
        → Triple
            (InTx t h (λ d. d ≡ t))
            (get_item_by_id (in_tx h) id)
            (λ i s. InTx t h (λ d. d ≡ t) s × FoundRow t (ok i))
            (λ e s. InTx t h (λ d. d ≡ t) s × FoundRow t (err e))
    found_row id =
        weaken (λ s p. p)
          (λ i s p. (
            InTx-map t h s (λ d q. q.0) (Live-InTx t h _ s p),
            live_fact t h s
                (λ d q.
                  subst (λ x. find_item x t.items ≡ some i) (sym (find_item-id id t.items i q.1))
                    q.1)
                p,
          ))
          (λ e s p. (p, tt)) (Triple-get_item_by_id t h id)

    pub load_items-AllRows :
        (ids : List String) {E : Error → World C → Type 0}
        → Triple
            (λ (w : World C). InTx t h (λ d. d ≡ t) w.store)
            (load_items ports uc (in_tx h) ids)
            (λ items w. InTx t h (λ d. d ≡ t) w.store × AllRows t items)
            E
    unfolding load_items
    load_items-AllRows [] = record { at = λ w p. (p, tt) }
    load_items-AllRows (id ∷ ids) =
        Triple-bind (λ found w. InTx t h (λ d. d ≡ t) w.store × FoundRow t found) _ _
          (Triple-attempt (λ found w. InTx t h (λ d. d ≡ t) w.store × FoundRow t found)
            (on_store (get_item_by_id (in_tx h) id)) (Triple-on_store (found_row id)))
          (λ found.
            Triple-bind
              (λ rest w. (InTx t h (λ d. d ≡ t) w.store × AllRows t rest) × FoundRow t found)
              (load_items ports uc (in_tx h) ids) (λ rest. pure (keep_found found rest))
              (Triple-frame (FoundRow t found) (load_items-AllRows ids))
              (λ rest. record { at = λ w p. (p.0.0, add_row t found rest p.1 p.0.1) }))

    pub record_item :
        (sale_id : String) (k : ℕ) (i : Item) (marked : Result Bool)
        → Triple
            (λ (w : World C). InTx t h (Selling sale_id (sold_one (or_false marked) k) t) w.store)
            (after_marking ports uc i marked)
            (λ b w. InTx t h (Selling sale_id (sold_one b k) t) w.store)
            (λ _ w. Dead t h w.store)
    unfolding after_marking
    record_item sale_id k i (err _) = record { at = λ w p. p }
    record_item sale_id k i (ok b) =
        Triple-then (λ w. InTx t h (Selling sale_id (sold_one b k) t) w.store)
          (ignore (ports.cache.add_item_to_bloom_filter i.id)) (pure b)
          (ignore_rest (InTx t h (Selling sale_id (sold_one b k) t))
            (cache.add_item_to_bloom_filter i.id))
          (record { at = λ w p. p })

    try_sale :
        (sale_id user_id : String) (k : ℕ) (i : Item) (already_sold : Bool)
        → IsItemOf sale_id i.id t.items
        → Triple
            (λ (w : World C). InTx t h (Selling sale_id k t) w.store)
            (unless_sold ports uc (in_tx h) user_id i already_sold)
            (λ b w. InTx t h (Selling sale_id (sold_one b k) t) w.store)
            (λ _ w. Dead t h w.store)
    unfolding unless_sold
    try_sale sale_id user_id k i true of_sale = record { at = λ w p. p }
    try_sale sale_id user_id k i false of_sale =
        Triple-bind
          (λ marked w. InTx t h (Selling sale_id (sold_one (or_false marked) k) t) w.store)
          (attempt (on_store (mark_item_as_sold (in_tx h) i.id user_id))) (after_marking ports uc i)
          (Triple-attempt
            (λ marked w. InTx t h (Selling sale_id (sold_one (or_false marked) k) t) w.store)
            (on_store (mark_item_as_sold (in_tx h) i.id user_id))
            (weaken (λ w p. p) (λ b w p. p) (λ e w p. Dead-InTx t h _ w.store p)
              (Triple-on_store (Triple-mark_item_as_sold t h sale_id i.id user_id k of_sale))))
          (record_item sale_id k i)

    count_on :
        (b : Bool) (i : Item) (rest : List String) (k : ℕ) (sale_id : String) (s : Store)
        → InTx t h (Selling sale_id (sold_one b k + length rest) t) s
        → InTx t h (Selling sale_id (k + length (add_bought b i rest)) t) s
    count_on true i rest k sale_id s p =
        subst (λ n. InTx t h (Selling sale_id n t) s) (omega arith) p
    count_on false i rest k sale_id s p = p

    -- After the loop the items that it reports are sold, and no others.
    pub purchase_items-Selling :
        (sale_id user_id : String) (k : ℕ) (items : List Item)
        → AllOf t sale_id items
        → Triple
            (λ (w : World C). InTx t h (Selling sale_id k t) w.store)
            (purchase_items ports uc (in_tx h) user_id items)
            (λ ids w. InTx t h (Selling sale_id (k + length ids) t) w.store)
            (λ _ w. Dead t h w.store)
    unfolding purchase_items purchase_item
    purchase_items-Selling sale_id user_id k [] all = record { at = λ w p. rw add-zero p }
    purchase_items-Selling sale_id user_id k (i ∷ is) all =
        Triple-bind (λ b w. InTx t h (Selling sale_id (sold_one b k) t) w.store)
          (purchase_item ports uc (in_tx h) user_id i) _
          (Triple-bind (λ _ w. InTx t h (Selling sale_id k t) w.store)
            (or_zero false (on_rest (cache.item_exists_in_bloom_filter i.id)))
            (unless_sold ports uc (in_tx h) user_id i)
            (or_zero_rest (InTx t h (Selling sale_id k t)) false
              (cache.item_exists_in_bloom_filter i.id))
            (λ already. try_sale sale_id user_id k i already all.0))
          (λ b.
            Triple-bind (λ ids w. InTx t h (Selling sale_id (sold_one b k + length ids) t) w.store)
              (purchase_items ports uc (in_tx h) user_id is) (λ rest. pure (add_bought b i rest))
              (purchase_items-Selling sale_id user_id (sold_one b k) is all.1)
              (λ rest. record { at = λ w p. count_on b i rest k sale_id w.store p }))
