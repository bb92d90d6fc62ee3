-- ===== src/Http/AdminHandler/Books.antt =====
-- The admin handler keeps the books.
use flashsale_service.Errors.{errors_is, sale_not_found}
use flashsale_service.Postgres.Query.{insert_sale}
use flashsale_service.Scheduler.{Drawn, drawn_items}
use flashsale_service.Domain.Item.{Item}
use flashsale_service.Domain.Sale.{Sale}
use flashsale_service.Prelude.{
  ◌∷◌, [], ℕ, String, List, Option, ◌≡◌, pos, All, pos_part, false, Bool-cases, refl, inl, inr,
}
use flashsale_service.Postgres.Store.{Store, pool}
use flashsale_service.Effect.{ok, err, M, Result}
use flashsale_service.Effect.Triple.{Triple, Post}
use flashsale_service.Http.Response.{Reply, refused, replied}
use flashsale_service.Http.AdminHandler.{
  handle_create_sale, unless_running, insert_requested, or_refuse, unless_invalid, requested,
  requested_sale, CreateSaleRequest, CreateSaleResponse, Requested, Time, create_sale_response,
}
use flashsale_service.Scheduler.Books.{
  run-Valid, create_items-Valid, drawn_items-unsold, looked-Valid,
}
use flashsale_service.Postgres.SaleRepository.{get_active_sale, create_sale, create_items}
use flashsale_service.Postgres.Stock.Create.{Valid, insert_sale-Valid}

-- What a handler's reply and the world after it satisfy.
pub record Replies {B : Type 0} (P : Store → Type 0) (k : Store → Reply B × Store)
    (Q : Reply B → Store → Type 0) : Type 0 where
  pub at : (w : Store) → P w → Q (k w).0 (k w).1

module _ {A B : Type 0} {P R : Store → Type 0} {Q : Reply B → Store → Type 0} where
  pub Replies-or_refuse :
      (code : ℕ) (text : String) (m : M Store A) (k : Store → Reply B × Store)
      → Triple P m (λ _ w. R w) (λ _ w. Q (refused code text) w)
      → Replies R k Q
      → Replies P (or_refuse code text m k) Q
  Replies-or_refuse code text m k t next = record { at = λ w h. go (m w) (t.at w h) }
    where
      go :
          (x : Result A × Store)
          → Post (λ _ w. R w) (λ _ w. Q (refused code text) w) x
          → let y = or_refuse code text (λ (_ : Store). x) k x.1 in Q y.0 y.1
      go (ok _, w) h = next.at w h
      go (err _, w) h = h

module _ {B : Type 0} {P : Store → Type 0} {Q : Reply B → Store → Type 0} where
  pub Replies-unless_invalid :
      (es : List (String × String)) (k : Store → Reply B × Store)
      → ((w : Store) → P w → Q (refused 400 "Validation failed") w)
      → (es ≡ [] → Replies P k Q)
      → Replies P (unless_invalid es k) Q
  unfolding unless_invalid
  Replies-unless_invalid [] k refusal next = next refl
  Replies-unless_invalid (_ ∷ _) k refusal next = record { at = refusal }

abbrev Kept : {B : Type 0} → Reply B → Store → Type 0
Kept _ w = Valid w.tables

pub looked_up :
    (x : Result Sale × Store)
    → Post {A = Sale} (λ _ w. Valid w.tables) (λ _ w. Valid w.tables) x
    → Valid x.1.tables
looked_up (ok _, w) h = h
looked_up (err _, w) h = h

module _ (rfc3339 : Time → String) where
  insert_requested-Kept :
      (times : Requested) (s : Sale) (items : List Item)
      → s.items_sold ≡ pos 0
      → All (λ i. i.sold ≡ false) items
      → Replies (λ w. Valid w.tables) (insert_requested rfc3339 times s items) Kept
  unfolding insert_requested create_sale
  insert_requested-Kept times s items none_sold unsold =
      Replies-or_refuse 500 "Failed to create sale" (create_sale pool s)
        (or_refuse 500 "Failed to create items" (create_items pool items)
          (λ w. (replied 201 (create_sale_response rfc3339 times s), w)))
        (run-Valid (λ now d. insert_sale s d) (λ now d v. insert_sale-Valid s d none_sold v))
        (Replies-or_refuse 500 "Failed to create items" (create_items pool items)
          (λ w. (replied 201 (create_sale_response rfc3339 times s), w))
          (create_items-Valid items unsold) (record { at = λ w v. v }))

  unless_running-Kept :
      (times : Requested) (s : Sale) (items : List Item) (found : Result Sale)
      → s.items_sold ≡ pos 0
      → All (λ i. i.sold ≡ false) items
      → Replies (λ w. Valid w.tables) (unless_running rfc3339 times s items found) Kept
  unfolding unless_running
  unless_running-Kept times s items (ok _) none_sold unsold = record { at = λ w v. v }
  unless_running-Kept times s items (err e) none_sold unsold = record {
    at = λ w v. elim (Bool-cases (errors_is e sale_not_found)) [
      | inl absent ↦ rw absent ((insert_requested-Kept times s items none_sold unsold).at w v)
      | inr other ↦ rw other v
    ];
  }

  -- From tables whose books agree and whose items belong to sales of the table, whatever is asked
  -- for, read or drawn and whatever the server answers: after `HandleCreateSale` the books agree and
  -- items belong to sales of the table.
  pub handle_create_sale-Valid :
      (parse : String → Option Time) (sale_id : String) (hour_start now : ℕ) (draw : ℕ → Drawn)
      (body : Result CreateSaleRequest) (w : Store)
      → Valid w.tables
      → Valid (handle_create_sale rfc3339 parse sale_id hour_start now draw body w).1.tables
  unfolding handle_create_sale requested_sale
  handle_create_sale-Valid parse sale_id hour_start now draw (err _) w v = v
  handle_create_sale-Valid parse sale_id hour_start now draw (ok req) w v =
      (Replies-unless_invalid {P = λ w0. Valid w0.tables} {Q = Kept} times.errors checked
          (λ w0 v0. v0)
          (λ _. record {
            at = λ w0 v0.
                (unless_running-Kept times s items (get_active_sale pool w0).0 refl
                    (drawn_items-unsold sale_id draw 0 (pos_part req.total_items))).at
                  (get_active_sale pool w0).1
                  (looked_up (get_active_sale pool w0) (looked-Valid.at w0 v0));
          })).at
        w v
    where
      times : Requested
      times = requested parse hour_start req

      s : Sale
      s = requested_sale sale_id times req.total_items now

      items : List Item
      items = drawn_items sale_id draw 0 (pos_part req.total_items)

      checked : Store → Reply CreateSaleResponse × Store
      checked w0 =
          unless_running rfc3339 times s items (get_active_sale pool w0).0
            (get_active_sale pool w0).1
