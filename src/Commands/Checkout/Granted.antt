-- ===== src/Commands/Checkout/Granted.antt =====
-- What a checkout that is granted says of the tables, when the sale repository is the one on
-- PostgreSQL and the rest is any implementation.
use flashsale_service.Postgres.Pool.{Triple-get_item_by_id, Triple-get_active_sale_at}
use flashsale_service.Errors.{
  Error, domain, item_already_sold, item_not_in_sale, user_limit_exceeded, sale_not_active,
  user_already_checked_out_item, sale_not_found,
}
use flashsale_service.Service.Rules.{Triple-on_rest, ignore_rest, or_zero_rest, Triple-on_store}
use flashsale_service.Service.{World, on_rest, service_ports}
use flashsale_service.Postgres.Query.{latest_active, find_item}
use flashsale_service.Domain.Item.{Item, is_sold}
use flashsale_service.Domain.Sale.{Sale, is_active}
use flashsale_service.Postgres.SaleRepository.{get_active_sale}
use flashsale_service.Commands.Checkout.{
  CheckoutResponse, of_result, now, until, new_code, user_code, store_item, grant, refuse_sold,
  check_user, offer, handle_checkout, no_slots,
}
use flashsale_service.Effect.Triple.{
  Triple, Triple-attempt, Triple-bind, Triple-map_err, weaken, Triple-then, Triple-fact,
  Triple-guard_not, Post,
}
use flashsale_service.Ports.{CheckoutRepository, Cache, Clock, Ports}
use flashsale_service.Domain.Checkout.{new_checkout, add_item, item_count, Checkout}
use flashsale_service.Effect.{
  Result, ok, M, err, attempt, guard_not, pure, raise, ◌>>◌, map_err, ◌>>=◌,
}
use flashsale_service.Postgres.Store.{Tables, Store, pool}
use flashsale_service.Prelude.{
  ◌≡◌, refl, String, ℕ, ◌∷◌, [], pos, ℤ, ◌≤ℤ◌, Bool, some, arith, ◌==◌, length-append, true, false,
  Bool-cases, inl, inr, not, eq_iff, ◌<◌,
}

-- The item was offered: the sale that the server found active at the instant `at` of its own clock,
-- which runs at the instant `now` of the program's, and an unsold item of it, are in the tables.
pub record Granted (t : Tables) (at now : ℕ) (item_id : String) (r : CheckoutResponse)
    : Type 0 where
  pub active : Sale
  pub row : Item
  pub seen : latest_active at t.sales ≡ some active
  pub begun : active.started_at < now
  pub not_over : now < active.ended_at
  pub found : find_item item_id t.items ≡ some row
  pub of_sale : row.sale_id ≡ active.id
  pub unsold : row.sold ≡ false
  pub ends : r.sale_ends_at ≡ active.ended_at
  pub counted : pos 1 ≤ℤ r.items_count

of_result_lem :
    {W A : Type 0} (K : W → Type 0) (r : Result A)
    → Triple K (of_result r) (λ a w. K w × (r ≡ ok a)) (λ _ w. K w)
of_result_lem K (ok a) = record { at = λ w h. (h, refl) }
of_result_lem K (err e) = record { at = λ w h. h }

new_checkout-Counts :
    (code sale_id user_id item_id : String) (now : ℕ) (c : Checkout)
    → new_checkout code sale_id user_id (item_id ∷ []) now ≡ ok c
    → pos 1 ≤ℤ item_count c
unfolding new_checkout item_count
new_checkout-Counts code sale_id user_id item_id now c h = ground arith

add_item-Counts :
    (c c' : Checkout) (item_id : String) → add_item c item_id ≡ ok c' → pos 1 ≤ℤ item_count c'
unfolding add_item item_count
add_item-Counts c c' item_id h = ground (arith, length-append c.item_ids (item_id ∷ []))

module _ {C : Type 0} (checkouts : CheckoutRepository C) (cache : Cache C) (clock : Clock C)
    (generate : String → String → M C String) (max_items_limit : ℤ) where
  abbrev p : Ports (World C)
  p = service_ports checkouts cache clock

  abbrev code_source : String → String → M (World C) String
  code_source sale_id user_id = on_rest (generate sale_id user_id)

  module _ (t : Tables) where
    abbrev K : World C → Type 0
    K w = w.store.tables ≡ t

    abbrev TablesAre : Store → Type 0
    TablesAre s = s.tables ≡ t

    returned :
        {A : Type 0} (Q : A → World C → Type 0) (a : A)
        → ((w : World C) → K w → Q a w)
        → Triple K (pure a) Q (λ _ w. K w)
    returned Q a h = record { at = h }

    kept : {A : Type 0} (m : M C A) → Triple K (on_rest m) (λ _ w. K w) (λ _ w. K w)
    kept m = Triple-on_rest TablesAre m

    attempt_kept :
        {A : Type 0} (m : M C A) → Triple K (attempt (on_rest m)) (λ _ w. K w) (λ _ w. K w)
    attempt_kept m = Triple-attempt (λ _ w. K w) _ (kept m)

    now-keeps : Triple K (now p code_source max_items_limit) (λ _ w. K w) (λ _ w. K w)
    now-keeps = record { at = λ w h. h }

    until-keeps :
        (end : ℕ) → Triple K (until p code_source max_items_limit end) (λ _ w. K w) (λ _ w. K w)
    until-keeps end = record { at = λ w h. h }

    guard-keeps :
        (b : Bool) (e : Error) → Triple K (guard_not b e) (λ _ w. K w × (b ≡ false)) (λ _ w. K w)
    guard-keeps b e = Triple-guard_not b e (λ w eq h. h)

    new_code-keeps :
        (active : Sale) (user_id : String)
        → Triple K (new_code p code_source max_items_limit active user_id) (λ _ w. K w) (λ _ w. K w)
    unfolding new_code
    new_code-keeps active user_id =
        Triple-bind (λ _ w. K w) _ _ (Triple-map_err _ _ (kept (generate active.id user_id)))
          (λ code.
            Triple-bind (λ _ w. K w) _ _ (until-keeps active.ended_at)
              (λ left.
                Triple-then K _ _
                  (ignore_rest TablesAre (cache.set_user_checkout_code active.id user_id code left))
                  (Triple-bind (λ _ w. K w) _ _ (until-keeps active.ended_at)
                    (λ left'.
                      Triple-then K _ _ (ignore_rest TablesAre (cache.set_checkout_code code left'))
                        (returned (λ _ w. K w) code (λ w h. h))))))

    user_code-keeps :
        (active : Sale) (user_id : String)
        → Triple K
            (user_code p code_source max_items_limit active user_id)
            (λ _ w. K w)
            (λ _ w. K w)
    unfolding user_code
    user_code-keeps active user_id =
        Triple-bind (λ _ w. K w) _ _
          (or_zero_rest TablesAre "" (cache.get_user_checkout_code active.id user_id)) go
      where
        go :
            (code : String)
            → Triple K
                (elim (code == "") [
                  | true ↦ new_code p code_source max_items_limit active user_id
                  | false ↦ pure code
                ])
                (λ _ w. K w)
                (λ _ w. K w)
        go code = elim (Bool-cases (code == "")) [
          | inl h ↦ rw h (new_code-keeps active user_id)
          | inr h ↦ rw h (returned (λ _ w. K w) code (λ w k. k))
        ]

    store_item-Counts :
        (active : Sale) (user_id item_id code : String) (known : Result Checkout)
        → Triple K
            (store_item p code_source max_items_limit active user_id item_id code known)
            (λ c w. K w × (pos 1 ≤ℤ item_count c))
            (λ _ w. K w)
    unfolding store_item
    store_item-Counts active user_id item_id code (err _) =
        Triple-bind (λ _ w. K w) _ _ now-keeps
          (λ created.
            Triple-bind (λ c w. K w × (pos 1 ≤ℤ item_count c)) _ _
              (weaken (λ w h. h)
                (λ c w h. (h.0, new_checkout-Counts code active.id user_id item_id created c h.1))
                (λ e w h. h) (of_result_lem K _))
              (λ c. Triple-fact (λ counts.
                Triple-then K _ _ (kept (checkouts.create_checkout c))
                  (returned (λ c w. K w × (pos 1 ≤ℤ item_count c)) c (λ w h. (h, counts))))))
    store_item-Counts active user_id item_id code (ok c) =
        Triple-bind (λ c w. K w × (pos 1 ≤ℤ item_count c)) _ _
          (Triple-map_err _ _ (
            weaken (λ w h. h) (λ c' w h. (h.0, add_item-Counts c c' item_id h.1)) (λ e w h. h)
              (of_result_lem K _)))
          (λ c'. Triple-fact (λ counts.
            Triple-then K _ _ (kept (checkouts.add_item_to_checkout code item_id))
              (returned (λ c w. K w × (pos 1 ≤ℤ item_count c)) c' (λ w h. (h, counts)))))

    abbrev Answers : Sale → CheckoutResponse → Type 0
    Answers active r = (r.sale_ends_at ≡ active.ended_at) × (pos 1 ≤ℤ r.items_count)

    grant-Answers :
        (active : Sale) (user_id item_id : String)
        → Triple K
            (grant p code_source max_items_limit active user_id item_id)
            (λ r w. K w × Answers active r)
            (λ _ w. K w)
    unfolding grant
    grant-Answers active user_id item_id =
        Triple-bind (λ _ w. K w) _ _ (user_code-keeps active user_id)
          (λ code.
            Triple-bind (λ _ w. K w) _ _
              (weaken (λ w h. h) (λ a w h. h) (λ e w h. h)
                (attempt_kept (checkouts.get_checkout_by_code code)))
              (λ known.
                Triple-bind (λ c w. K w × (pos 1 ≤ℤ item_count c)) _ _
                  (store_item-Counts active user_id item_id code known)
                  (λ c. Triple-fact (λ counts.
                    Triple-then K _ _
                      (ignore_rest TablesAre
                        (cache.increment_user_checkout_count active.id user_id))
                      (Triple-bind (λ _ w. K w) _ _ (until-keeps active.ended_at)
                        (λ left.
                          Triple-then K _ _
                            (ignore_rest TablesAre
                              (cache.add_user_checked_out_item active.id user_id item_id left))
                            (returned (λ r w. K w × Answers active r)
                              (record {
                                code = code;
                                items_count = item_count c;
                                sale_ends_at = active.ended_at;
                              })
                              (λ w h. (h, (refl, counts))))))))))

    refuse_sold-Unsold :
        (i : Item) (item_id : String)
        → Triple K
            (refuse_sold p code_source max_items_limit i item_id)
            (λ _ w. K w × (i.sold ≡ false))
            (λ _ w. K w)
    unfolding refuse_sold is_sold
    refuse_sold-Unsold i item_id = elim (Bool-cases i.sold) [
      | inl h ↦ rw h (
          Triple-then K _ (raise (domain item_already_sold))
            (ignore_rest TablesAre (cache.add_item_to_bloom_filter item_id))
            (record { at = λ w k. k }))
      | inr h ↦ rw h (returned (λ _ w. K w × (false ≡ false)) tt (λ w k. (k, refl)))
    ]

    check_user-keeps :
        (active : Sale) (user_id item_id : String)
        → Triple K
            (check_user p code_source max_items_limit active user_id item_id)
            (λ _ w. K w)
            (λ _ w. K w)
    unfolding check_user
    check_user-keeps active user_id item_id =
        Triple-bind (λ _ w. K w) _ _
          (or_zero_rest TablesAre false (cache.item_exists_in_bloom_filter item_id))
          (λ sold. Triple-then K _ _ (forget sold (domain item_already_sold)) (
            Triple-bind (λ _ w. K w) _ _
              (attempt_kept (cache.get_available_checkout_slots active.id user_id max_items_limit))
              (λ slots. Triple-then K _ _ (forget (no_slots slots) (domain user_limit_exceeded)) (
                Triple-bind (λ _ w. K w) _ _
                  (or_zero_rest TablesAre false
                    (cache.has_user_checked_out_item active.id user_id item_id))
                  (λ done. forget done (domain user_already_checked_out_item))))))
      where
        forget : (b : Bool) (e : Error) → Triple K (guard_not b e) (λ _ w. K w) (λ _ w. K w)
        forget b e = weaken (λ w h. h) (λ a w h. h.0) (λ e w h. h) (guard-keeps b e)

    module _ (at now : ℕ) (active : Sale) (seen : latest_active at t.sales ≡ some active)
        (runs : (active.started_at < now) × (now < active.ended_at)) where
      granted :
          (i : Item) (item_id : String) (r : CheckoutResponse)
          → find_item item_id t.items ≡ some i
          → not (i.sale_id == active.id) ≡ false
          → i.sold ≡ false
          → Answers active r
          → Granted t at now item_id r
      granted i item_id r found own unsold a = record {
        active = active;
        row = i;
        seen = seen;
        begun = runs.0;
        not_over = runs.1;
        found = found;
        of_sale = ground (arith, eq_iff i.sale_id active.id);
        unsold = unsold;
        ends = a.0;
        counted = a.1;
      }

      offer-Granted :
          (user_id item_id : String)
          → Triple K
              (offer p code_source max_items_limit active user_id item_id)
              (λ r w. K w × Granted t at now item_id r)
              (λ _ w. K w)
      unfolding offer
      offer-Granted user_id item_id =
          Triple-bind (λ i w. K w × ((now : ℕ) × (find_item item_id t.items ≡ some i))) _ _
            (Triple-on_store (Triple-get_item_by_id t item_id))
            (λ i. Triple-fact (λ (_, found).
              Triple-bind (λ _ w. K w × (not (i.sale_id == active.id) ≡ false)) _ _
                (guard-keeps (not (i.sale_id == active.id)) (domain item_not_in_sale))
                (λ _. Triple-fact (λ own.
                  Triple-bind (λ _ w. K w × (i.sold ≡ false)) _ _ (refuse_sold-Unsold i item_id)
                    (λ _. Triple-fact (λ unsold.
                      weaken (λ w h. h) (λ r w h. (h.0, granted i item_id r found own unsold h.1))
                        (λ e w h. h) (grant-Answers active user_id item_id)))))))

    not_refused :
        (active : Sale) (now : ℕ)
        → not (is_active active now) ≡ false
        → (active.started_at < now) × (now < active.ended_at)
    unfolding is_active
    not_refused active now h = ground (arith, h)

    -- From the guard on the sale on.
    abbrev when_found : Sale → String → String → ℕ → M (World C) CheckoutResponse
    when_found active user_id item_id instant =
        guard_not (not (is_active active instant)) (domain sale_not_active)
        >> (check_user p code_source max_items_limit active user_id item_id
            >> offer p code_source max_items_limit active user_id item_id)

    when_found-Granted :
        (at now : ℕ) (active : Sale) (user_id item_id : String)
        → latest_active at t.sales ≡ some active
        → Triple K
            (when_found active user_id item_id now)
            (λ r w. K w × Granted t at now item_id r)
            (λ _ w. K w)
    when_found-Granted at now active user_id item_id seen =
        Triple-bind (λ _ w. K w × (not (is_active active now) ≡ false)) _ _
          (guard-keeps (not (is_active active now)) (domain sale_not_active))
          (λ _. Triple-fact (λ guarded.
            Triple-then K _ _ (check_user-keeps active user_id item_id)
              (offer-Granted at now active seen (not_refused active now guarded) user_id item_id)))

    handle_checkout-Sound :
        (user_id item_id : String) (w : World C)
        → K w
        → Post
            (λ r w'. K w' × Granted t w.store.clock (clock.now w.rest) item_id r)
            (λ _ w'. K w')
            (handle_checkout p code_source max_items_limit user_id item_id w)
    unfolding handle_checkout
    handle_checkout-Sound user_id item_id w h =
        by (get_active_sale pool w.store)
          ((Triple-get_active_sale_at t w.store.clock).at w.store (h, refl))
      where
        by :
            (x : Result Sale × Store)
            → Post
                (λ a s. (s.tables ≡ t) × (latest_active w.store.clock t.sales ≡ some a))
                (λ _ s. s.tables ≡ t)
                x
            → Post
                (λ r w'. K w' × Granted t w.store.clock (clock.now w.rest) item_id r)
                (λ _ w'. K w')
                ((map_err
                      (λ _. domain sale_not_found)
                      (λ (w0 : World C). (x.0, record w0 { store = x.1 }))
                    >>= λ active.
                        now p code_source max_items_limit >>= when_found active user_id item_id)
                  w)
        by (ok a, s) q =
            (when_found-Granted w.store.clock (clock.now w.rest) a user_id item_id q.1).at
              (record w { store = s }) q.0
        by (err e, s) q = q

  -- The response and the tables after a checkout that began in the world `w0`.
  abbrev pub Checked : World C → String → Result CheckoutResponse × World C → Type 0
  Checked w0 item_id (ok r, w) =
      (w.store.tables ≡ w0.store.tables)
      × Granted w0.store.tables w0.store.clock (clock.now w0.rest) item_id r
  Checked w0 item_id (err _, w) = w.store.tables ≡ w0.store.tables

  Post-Checked :
      (w0 : World C) (item_id : String) (x : Result CheckoutResponse × World C)
      → Post
          (λ r w.
            (w.store.tables ≡ w0.store.tables)
            × Granted w0.store.tables w0.store.clock (clock.now w0.rest) item_id r)
          (λ _ w. w.store.tables ≡ w0.store.tables)
          x
      → Checked w0 item_id x
  Post-Checked w0 item_id (ok r, w) h = h
  Post-Checked w0 item_id (err e, w) h = h

  -- Whatever the server answers and whatever the cache, the checkout repository, the code generator
  -- and the clock do: a checkout leaves sales, items and purchase results as they are, and a
  -- response means that the item is in the tables, not sold, and belongs to the sale that they show
  -- active, the latest one, at the instant of the server's clock when the checkout began, and that
  -- this sale had begun and was not over at the instant of the program's clock then; the response
  -- gives that sale's end and counts at least one item.
  pub handle_checkout-Checked :
      (user_id item_id : String) (w : World C)
      → Checked w item_id (handle_checkout p code_source max_items_limit user_id item_id w)
  handle_checkout-Checked user_id item_id w =
      Post-Checked w item_id _ (handle_checkout-Sound w.store.tables user_id item_id w refl)
