-- ===== src/Service/Success.antt =====
-- A purchase of available items succeeds when the server answers every statement.
pub mod Rows
pub mod Run
pub mod Whole
mod Tests
use flashsale_service.Prelude.{
  ◌∷◌, [], refl, List, String, ◌≡◌, Bool, ℕ, All, some, ◌≢◌, ap, false, ◌≤◌, subst, true,
  Bool-cases, sym, ◌==◌, inl, inr, Option, arith, if◌then◌else◌, eq_iff, ◌∙◌,
}
use flashsale_service.Effect.{
  ok, err, Result, M, attempt, map_err, or_zero, ignore, when, guard_not, pure, ◌>>=◌, ◌>>◌,
}
use flashsale_service.Effect.Triple.{
  Triple, Post, Triple-bind, Triple-then, Triple-fact, Triple-attempt, Triple-map_err,
  Triple-ignore, weaken,
}
use flashsale_service.Errors.{Error}
use flashsale_service.Domain.Checkout.{Checkout}
use flashsale_service.Domain.Item.{Item}
use flashsale_service.Domain.Sale.{Sale}
use flashsale_service.Domain.PurchaseService.{
  PurchaseResult, calculate_purchase_result, validate_purchase,
}
use flashsale_service.Ports.{CheckoutRepository, Cache, Clock, Ports}
use flashsale_service.Postgres.Query.{
  find_item, find_sale, find_result, sell_rows, rows_affected, matches_unsold,
}
use flashsale_service.Postgres.Store.{Store, Tables, in_tx}
use flashsale_service.Postgres.Sure.{
  Never, AllUp, InUp, Any, sure-get_item_by_id, sure-get_sale_by_id, sure-get_purchase_result,
  sure-update_sale, sure-save_purchase_result, sure-mark_item_as_sold, sure-begin_tx,
  sure-commit_tx,
}
use flashsale_service.Service.Success.Rows.{
  ids_of, Distinct, OnSale, Available, Available-sell_rows,
}
use flashsale_service.Service.{World, on_store, on_rest, service_ports}
use flashsale_service.Postgres.SaleRepository.{get_item_by_id, mark_item_as_sold}
use flashsale_service.Service.Rules.{Triple-on_store, Triple-on_rest, ignore_rest}
use flashsale_service.UseCases.Purchase.{
  PurchaseUseCase, load_items, keep_found, purchase_items, purchase_item, unless_sold,
  after_marking, add_bought,
}

module _ {W A : Type 0} {P R : W → Type 0} where
  pub attempt-sure :
      {x : A} (m : M W A)
      → Triple P m (λ a w. R w × (a ≡ x)) Never
      → Triple P (attempt m) (λ r w. R w × (r ≡ ok x)) Never
  attempt-sure {x} m t =
      Triple-attempt (λ r w. R w × (r ≡ ok x)) m
        (weaken (λ w h. h) (λ a w q. (q.0, ap ok q.1)) (λ e w q. absurd q) t)

module _ {C : Type 0} (checkouts : CheckoutRepository C) (cache : Cache C) (clock : Clock C)
    (uc : PurchaseUseCase) where
  abbrev pub ports : Ports (World C)
  ports = service_ports checkouts cache clock

  -- What holds of the two parts of the world.
  abbrev pub Both : (Store → Type 0) → (C → Type 0) → World C → Type 0
  Both P G w = P w.store × G w.rest

  module _ {A : Type 0} (P : Store → Type 0) {G G' : C → Type 0} where
    pub rest-value :
        {x : A} (m : M C A)
        → Triple G m (λ a c. G' c × (a ≡ x)) Never
        → Triple (Both P G) (on_rest m) (λ a w. Both P G' w × (a ≡ x)) Never
    rest-value {x} m says = record {
      at = λ w h. by (m w.rest).0 (m w.rest).1 w h.0 (says.at w.rest h.1);
    }
      where
        by :
            (r : Result A) (c : C) (w : World C)
            → P w.store
            → Post (λ a c. G' c × (a ≡ x)) Never (r, c)
            → Post (λ a (w' : World C). Both P G' w' × (a ≡ x)) Never (r, record w { rest = c })
        by (ok a) c w h q = ((h, q.0), q.1)
        by (err e) c w h q = absurd q

  module _ {A : Type 0} (P : Store → Type 0) (G G' : C → Type 0) where
    pub rest-ignored :
        (m : M C A)
        → ((c : C) → G c → G' (m c).1)
        → Triple (Both P G) (ignore (on_rest m)) (λ _ w. Both P G' w) Never
    rest-ignored m does = record { at = λ w h. (h.0, does w.rest h.1) }

  pub store-value :
      {A : Type 0} {P P' : Store → Type 0} {x : A} (G : C → Type 0) (m : M Store A)
      → Triple P m (λ a s. P' s × (a ≡ x)) Never
      → Triple (Both P G) (on_store m) (λ a w. Both P' G w × (a ≡ x)) Never
  store-value {A} {P'} {x} G m t = record {
    at = λ w h. by (m w.store).0 (m w.store).1 w h.1 (t.at w.store h.0);
  }
    where
      by :
          (r : Result A) (s : Store) (w : World C)
          → G w.rest
          → Post (λ a s. P' s × (a ≡ x)) Never (r, s)
          → Post (λ a (w' : World C). Both P' G w' × (a ≡ x)) Never (r, record w { store = s })
      by (ok a) s w h q = ((q.0, h), q.1)
      by (err e) s w h q = absurd q

  -- The filter does not say that an item is sold.
  not_in_filter :
      (P : Store → Type 0) (G : C → Type 0) (m : M C Bool)
      → ((c : C) → G c → ((m c).0 ≢ ok true) × G (m c).1)
      → Triple (Both P G) (or_zero false (on_rest m)) (λ b w. Both P G w × (b ≡ false)) Never
  not_in_filter P G m says = record {
    at = λ w h. by (m w.rest).0 (m w.rest).1 w h.0 (says w.rest h.1);
  }
    where
      by :
          (r : Result Bool) (c : C) (w : World C)
          → P w.store
          → (r ≢ ok true) × G c
          → Post
              (λ b (w' : World C). Both P G w' × (b ≡ false))
              Never
              (or_zero false (λ (_ : World C). (r, record w { rest = c })) w)
      by (ok true) c w h never = absurd (never.0 refl)
      by (ok false) c w h never = ((h, never.1), refl)
      by (err e) c w h never = ((h, never.1), refl)

  -- The filter knows none of the items that are left, and adding one does not make it know others.
  abbrev pub Unknown : (List Item → C → Type 0) → Type 0
  Unknown inside =
      (i : Item) (is : List Item) (c : C)
      → inside (i ∷ is) c
      → let x = cache.item_exists_in_bloom_filter i.id c in
        ((x.0 ≢ ok true) × inside (i ∷ is) x.1)
        × inside is (cache.add_item_to_bloom_filter i.id c).1

  module _ (t : Tables) (h : ℕ) where
    abbrev pub InWorld : (Tables → Type 0) → (C → Type 0) → World C → Type 0
    InWorld R G = Both (InUp t h R) G

    pub load_items-sure :
        (R : Tables → Type 0) (G : C → Type 0) (items : List Item)
        → ((d : Tables) → R d → OnSale items d)
        → Triple
            (InWorld R G)
            (load_items ports uc (in_tx h) (ids_of items))
            (λ is w. InWorld R G w × (is ≡ items))
            Never
    unfolding load_items
    load_items-sure R G [] rows = record { at = λ w p. (p, refl) }
    load_items-sure R G (i ∷ is) rows =
        Triple-bind (λ r w. InWorld R G w × (r ≡ ok i)) _ _
          (attempt-sure (ports.sales.get_item_by_id (in_tx h) i.id) (
            store-value G (get_item_by_id (in_tx h) i.id)
              (sure-get_item_by_id t h i.id i (λ d r. (rows d r).0.0))))
          (λ found. Triple-fact (λ e.
            Triple-bind (λ rest w. InWorld R G w × (rest ≡ is))
              (load_items ports uc (in_tx h) (ids_of is)) (λ rest. pure (keep_found found rest))
              (load_items-sure R G is (λ d r. (rows d r).1))
              (λ rest. Triple-fact (λ e'. record { at = λ w p. (p, rw (e, e') refl) }))))

    -- What the cache does about the next item, and about the others.
    module _ (G G' : C → Type 0) (i : Item)
        (unknown : (c : C)
          → G c
          → let x = cache.item_exists_in_bloom_filter i.id c in (x.0 ≢ ok true) × G x.1)
        (added : (c : C) → G c → G' (cache.add_item_to_bloom_filter i.id c).1)
        (R R' : Tables → Type 0) (user_id : String)
        (row : (d : Tables) → R d → 1 ≤ rows_affected i.id d.items)
        (sold : (now : ℕ) (d : Tables)
          → R d
          → R' (record d { items = sell_rows i.id user_id now d.items })) where
      marks-sure :
          Triple
            (InWorld R G)
            (unless_sold ports uc (in_tx h) user_id i false)
            (λ b w. InWorld R' G' w × (b ≡ true))
            Never
      unfolding unless_sold after_marking
      marks-sure =
          Triple-bind (λ r w. InWorld R' G w × (r ≡ ok true)) _ (after_marking ports uc i)
            (attempt-sure (ports.sales.mark_item_as_sold (in_tx h) i.id user_id) (
              store-value G (mark_item_as_sold (in_tx h) i.id user_id)
                (sure-mark_item_as_sold t h i.id user_id row sold)))
            (λ r. Triple-fact (λ e. rw e (
              Triple-then (InWorld R' G') (ignore (on_rest (cache.add_item_to_bloom_filter i.id)))
                (pure true)
                (rest-ignored (InUp t h R') G G' (cache.add_item_to_bloom_filter i.id) added)
                (record { at = λ w p. (p, refl) }))))

      purchase_item-sure :
          Triple
            (InWorld R G)
            (purchase_item ports uc (in_tx h) user_id i)
            (λ b w. InWorld R' G' w × (b ≡ true))
            Never
      unfolding purchase_item
      purchase_item-sure =
          Triple-bind (λ b w. InWorld R G w × (b ≡ false)) _
            (unless_sold ports uc (in_tx h) user_id i)
            (not_in_filter (InUp t h R) G (cache.item_exists_in_bloom_filter i.id) unknown)
            (λ b. Triple-fact (λ e. rw e marks-sure))

    pub purchase_items-sure :
        (inside : List Item → C → Type 0) (user_id : String) (items : List Item)
        → Unknown inside
        → Distinct items
        → Triple
            (InWorld (Available items) (inside items))
            (purchase_items ports uc (in_tx h) user_id items)
            (λ bought w. InUp t h Any w.store × (bought ≡ ids_of items))
            Never
    unfolding purchase_items
    purchase_items-sure inside user_id [] unknown distinct = record { at = λ w p. (p.0, refl) }
    purchase_items-sure inside user_id (i ∷ is) unknown distinct =
        Triple-bind (λ b w. InWorld (Available is) (inside is) w × (b ≡ true))
          (purchase_item ports uc (in_tx h) user_id i) _
          (purchase_item-sure (inside (i ∷ is)) (inside is) i (λ c p. (unknown i is c p).0)
            (λ c p. (unknown i is c p).1) (Available (i ∷ is)) (Available is) user_id (λ d r. r.0)
            (λ now d r. Available-sell_rows is i.id user_id now d distinct.0 r.1))
          (λ success. Triple-fact (λ e.
            Triple-bind (λ rest w. InUp t h Any w.store × (rest ≡ ids_of is))
              (purchase_items ports uc (in_tx h) user_id is)
              (λ rest. pure (add_bought success i rest))
              (purchase_items-sure inside user_id is unknown distinct.1)
              (λ rest. Triple-fact (λ e'. record { at = λ w p. (p, rw (e, e') refl) }))))
