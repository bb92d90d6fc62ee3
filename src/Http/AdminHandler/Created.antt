-- ===== src/Http/AdminHandler/Created.antt =====
-- A reply 201 of the admin handler is true.
use flashsale_service.Errors.{errors_is, sale_not_found}
use flashsale_service.Prelude.{
  ◌∷◌, [], String, ℕ, List, Option, ℤ, All, length, ◌≡◌, ◌≢◌, Bool, leb_ℤ, pos_part, suc,
  if◌then◌else◌, pos, ◌+◌, arith, subst, Bool-cases, false, true, zero, not, refl, ◌&&◌, inl, inr,
  ◌==◌, some, none,
}
use flashsale_service.Effect.{ok, err, Result}
use flashsale_service.Domain.Sale.{Sale, after}
use flashsale_service.Domain.Item.{Item, new_item}
use flashsale_service.Http.Response.{Reply, refused, replied, bare}
use flashsale_service.Http.AdminHandler.{
  handle_create_sale, unless_running, insert_requested, or_refuse, requested, requested_sale,
  CreateSaleRequest, CreateSaleResponse, create_sale_response, set_error, errors_of,
  error_unless_parsed, is_zero, Requested, Time,
}
use flashsale_service.Http.AdminHandler.Books.{
  Replies, Replies-or_refuse, Replies-unless_invalid, looked_up,
}
use flashsale_service.Scheduler.Books.{looked-Valid}
use flashsale_service.Scheduler.{drawn_items, Drawn}
use flashsale_service.Postgres.SaleRepository.{get_active_sale, create_sale, create_items}
use flashsale_service.Postgres.Stock.Create.{Valid}
use flashsale_service.Postgres.Stock.Stocked.{
  Stocked, create_sale-Stocked, create_items-Stocked, NewFor,
}
use flashsale_service.Postgres.Store.{Store, pool}

set_error-NonEmpty : (key text : String) (es : List (String × String)) → set_error key text es ≢ []
unfolding set_error
set_error-NonEmpty key text [] h = cc
set_error-NonEmpty key text (e ∷ es) h = not_cons (e.0 == key) h
  where
    not_cons : (b : Bool) → (if b then (key, text) ∷ es else e ∷ set_error key text es) ≡ [] → ⊥
    not_cons true h = cc
    not_cons false h = cc

module _ (key text : String) (es : List (String × String)) where
  error_unless_parsed-Empty : (p : Option Time) → error_unless_parsed key text p es ≡ [] → es ≡ []
  error_unless_parsed-Empty none h = absurd (set_error-NonEmpty key text es h)
  error_unless_parsed-Empty (some _) h = h

  given-Empty :
      (p : Option Time) (b : Bool)
      → (if b then error_unless_parsed key text p es else es) ≡ []
      → es ≡ []
  given-Empty p true h = error_unless_parsed-Empty p h
  given-Empty p false h = h

  unless-Empty :
      (b : Bool) → (if b then set_error key text es else es) ≡ [] → (b ≡ false) × (es ≡ [])
  unless-Empty true h = absurd (set_error-NonEmpty key text es h)
  unless-Empty false h = (refl, h)

-- What a request without validation errors asks for.
pub record Accepted (started_at ended_at : Time) (total_items : ℤ) : Type 0 where
  pub some_items : leb_ℤ total_items (pos 0) ≡ false
  pub ordered :
      (not (is_zero started_at)
        && not (is_zero ended_at)
        && after started_at.instant ended_at.instant)
      ≡ false

errors_of-Accepted :
    (parse : String → Option Time) (started_at ended_at : Time) (req : CreateSaleRequest)
    → errors_of parse started_at ended_at req ≡ []
    → Accepted started_at ended_at req.total_items
unfolding errors_of
errors_of-Accepted parse started_at ended_at req h =
    let times =
      unless-Empty "started_at" "started_at must be before ended_at" no_end
        (not (is_zero started_at)
          && not (is_zero ended_at)
          && after started_at.instant ended_at.instant)
        h in
    let start_only =
      given-Empty "ended_at" bad_end no_start (parse req.ended_at) (not (req.ended_at == ""))
        times.1 in
    let items_only =
      given-Empty "started_at" bad_start no_items (parse req.started_at)
        (not (req.started_at == "")) start_only in
    record {
      some_items =
          (unless-Empty "total_items" "Total items must be greater than 0" []
            (leb_ℤ req.total_items (pos 0)) items_only).0;
      ordered = times.0;
    }
  where
    bad_start : String
    bad_start = "Invalid started_at time format (use RFC3339)"

    bad_end : String
    bad_end = "Invalid ended_at time format (use RFC3339)"

    no_items : List (String × String)
    no_items =
        if leb_ℤ req.total_items (pos 0)
        then set_error "total_items" "Total items must be greater than 0" []
        else []

    no_start : List (String × String)
    no_start =
        if not (req.started_at == "")
        then error_unless_parsed "started_at" bad_start (parse req.started_at) no_items
        else no_items

    no_end : List (String × String)
    no_end =
        if not (req.ended_at == "")
        then error_unless_parsed "ended_at" bad_end (parse req.ended_at) no_start
        else no_start

drawn_items-NewFor :
    (sale_id : String) (draw : ℕ → Drawn) (i left : ℕ)
    → All (NewFor sale_id) (drawn_items sale_id draw i left)
unfolding drawn_items new_item
drawn_items-NewFor sale_id draw i zero = tt
drawn_items-NewFor sale_id draw i (suc left) =
    ((refl, refl), drawn_items-NewFor sale_id draw (i + 1) left)

length-drawn_items :
    (sale_id : String) (draw : ℕ → Drawn) (i left : ℕ)
    → length (drawn_items sale_id draw i left) ≡ left
unfolding drawn_items
length-drawn_items sale_id draw i zero = refl
length-drawn_items sale_id draw i (suc left) =
    omega (arith, length-drawn_items sale_id draw (i + 1) left)

module _ (rfc3339 : Time → String) where
  -- The sale that the reply shows is in the table, with the clock readings of the times that the
  -- reply prints; it has as many items as announced, one at least, none of them sold; and the
  -- instant of its end is not before that of its beginning, unless one of them is the zero time.
  pub record IsCreated (r : CreateSaleResponse) (w : Store) : Type 0 where
    pub sale : Sale
    pub started : Time
    pub ended : Time
    pub same_id : r.id ≡ sale.id
    pub start_shown : r.started_at ≡ rfc3339 started
    pub start_kept : sale.started_at ≡ started.reading
    pub end_shown : r.ended_at ≡ rfc3339 ended
    pub end_kept : sale.ended_at ≡ ended.reading
    pub announced : r.total_items ≡ sale.total_items
    pub stocked : Stocked sale (pos_part r.total_items) w.tables
    pub accepted : Accepted started ended r.total_items

  abbrev pub TellsTruth : Reply CreateSaleResponse → Store → Type 0
  TellsTruth (replied _ r) w = IsCreated r w
  TellsTruth (refused _ _) w = Unit
  TellsTruth (bare _) w = Unit

  abbrev Kept : Requested → Sale → Type 0
  Kept times s = (s.started_at ≡ times.started_at.reading) × (s.ended_at ≡ times.ended_at.reading)

  insert_requested-TellsTruth :
      (times : Requested) (s : Sale) (items : List Item)
      → All (NewFor s.id) items
      → length items ≡ pos_part s.total_items
      → Kept times s
      → Accepted times.started_at times.ended_at s.total_items
      → Replies (λ w. Valid w.tables) (insert_requested rfc3339 times s items) TellsTruth
  unfolding insert_requested
  insert_requested-TellsTruth times s items new all kept accepted =
      Replies-or_refuse 500 "Failed to create sale" (create_sale pool s)
        (or_refuse 500 "Failed to create items" (create_items pool items)
          (λ w. (replied 201 (create_sale_response rfc3339 times s), w)))
        (create_sale-Stocked s)
        (Replies-or_refuse 500 "Failed to create items" (create_items pool items)
          (λ w. (replied 201 (create_sale_response rfc3339 times s), w))
          (create_items-Stocked s items new)
          (record {
            at = λ w v. record {
              sale = s;
              started = times.started_at;
              ended = times.ended_at;
              same_id = refl;
              start_shown = refl;
              start_kept = kept.0;
              end_shown = refl;
              end_kept = kept.1;
              announced = refl;
              stocked = subst (λ n. Stocked s n w.tables) all v;
              accepted = accepted;
            };
          }))

  unless_running-TellsTruth :
      (times : Requested) (s : Sale) (items : List Item) (found : Result Sale)
      → All (NewFor s.id) items
      → length items ≡ pos_part s.total_items
      → Kept times s
      → Accepted times.started_at times.ended_at s.total_items
      → Replies (λ w. Valid w.tables) (unless_running rfc3339 times s items found) TellsTruth
  unfolding unless_running
  unless_running-TellsTruth times s items (ok _) new all kept accepted = record { at = λ w v. tt }
  unless_running-TellsTruth times s items (err e) new all kept accepted = record {
    at = λ w v. elim (Bool-cases (errors_is e sale_not_found)) [
      | inl absent ↦
          rw absent ((insert_requested-TellsTruth times s items new all kept accepted).at w v)
      | inr other ↦ rw other tt
    ];
  }

  -- From tables whose books agree and whose items belong to sales of the table, whatever is asked
  -- for, read or drawn and whatever the server answers: a reply of `HandleCreateSale` that shows a
  -- sale shows one that is in the table, under the same id, with as many items as announced, one at
  -- least and none of them sold; of the times that the reply prints, the table has the clock
  -- readings without their offsets, and the instant of the end is not before that of the beginning,
  -- unless one of them is the zero time.
  pub handle_create_sale-TellsTruth :
      (parse : String → Option Time) (sale_id : String) (hour_start now : ℕ) (draw : ℕ → Drawn)
      (body : Result CreateSaleRequest) (w : Store)
      → Valid w.tables
      → let x = handle_create_sale rfc3339 parse sale_id hour_start now draw body w in
        TellsTruth x.0 x.1
  unfolding handle_create_sale requested_sale
  handle_create_sale-TellsTruth parse sale_id hour_start now draw (err _) w v = tt
  handle_create_sale-TellsTruth parse sale_id hour_start now draw (ok req) w v =
      (Replies-unless_invalid {P = λ w0. Valid w0.tables} {Q = TellsTruth} times.errors checked
          (λ w0 v0. tt)
          (λ none_wrong. record {
            at = λ w0 v0.
                (unless_running-TellsTruth times s items (get_active_sale pool w0).0
                    (drawn_items-NewFor sale_id draw 0 (pos_part req.total_items))
                    (length-drawn_items sale_id draw 0 (pos_part req.total_items)) (refl, refl)
                    (errors_of-Accepted parse times.started_at times.ended_at req none_wrong)).at
                  (get_active_sale pool w0).1
                  (looked_up (get_active_sale pool w0) (looked-Valid.at w0 v0));
          })).at
        w v
    where
      times : Requested
      times = requested parse hour_start req

      s : Sale
      s = requested_sale sale_id times req.total_items now

      items : List Item
      items = drawn_items sale_id draw 0 (pos_part req.total_items)

      checked : Store → Reply CreateSaleResponse × Store
      checked w0 =
          unless_running rfc3339 times s items (get_active_sale pool w0).0
            (get_active_sale pool w0).1
