-- ===== src/Http/AdminHandler.antt =====
-- internal/infrastructure/http/handlers/admin.go, over the sale repository on PostgreSQL. `parse` is
-- `time.Parse(time.RFC3339, ·)`, which returns the zero time with an error; `rfc3339` is
-- `time.Time.Format`. A time that is parsed has the offset of its text: Go compares instants, but a
-- TIMESTAMP column keeps the reading of the clock and drops the offset. The decoded body, the id, the times that are read and what is generated for
-- the items are parameters.
pub mod Books
pub mod Created
mod Tests
use flashsale_service.Prelude.{
  String, ℕ, Option, ℤ, List, Bool, if◌then◌else◌, some, ◌∷◌, ◌=ℕ=◌, not, leb_ℤ, pos, none, ◌==◌,
  [], pos_part, ◌+◌, ◌&&◌,
}
use flashsale_service.Effect.{ok, err, M, Result, attempt}
use flashsale_service.Errors.{errors_is, sale_not_found}
use flashsale_service.Domain.Sale.{Sale, after}
use flashsale_service.Domain.Item.{Item}
use flashsale_service.Http.Response.{Reply, replied, refused, write_validation_error}
use flashsale_service.Postgres.Store.{Store, pool}
use flashsale_service.Postgres.SaleRepository.{get_active_sale, create_sale, create_items}
use flashsale_service.Scheduler.{Drawn, drawn_items, hour}

pub record CreateSaleRequest : Type 0 where
  pub started_at : String
  pub ended_at : String
  pub total_items : ℤ

pub record CreateSaleResponse : Type 0 where
  pub id : String
  pub started_at : String
  pub ended_at : String
  pub total_items : ℤ

-- A `time.Time`: the instant, and what the clock at its offset reads then.
pub record Time : Type 0 where
  pub instant : ℕ
  pub reading : ℕ

abbrev pub utc : ℕ → Time
utc t = record { instant = t; reading = t }

-- The times that the handler settles on, and its map of validation errors.
pub record Requested : Type 0 where
  pub started_at : Time
  pub ended_at : Time
  pub errors : List (String × String)

-- `validationErrors[key] = text`
unfoldable pub set_error : String → String → List (String × String) → List (String × String)
set_error key text [] = (key, text) ∷ []
set_error key text (e ∷ es) =
    let rest = set_error key text es in if e.0 == key then (key, text) ∷ es else e ∷ rest

abbrev pub zero_unless_parsed : Option Time → Time
zero_unless_parsed none = utc 0
zero_unless_parsed (some t) = t

abbrev pub error_unless_parsed :
    String → String → Option Time → List (String × String) → List (String × String)
error_unless_parsed key text none es = set_error key text es
error_unless_parsed key text (some _) es = es

-- `IsZero`
abbrev pub is_zero : Time → Bool
is_zero t = t.instant =ℕ= 0

-- `started_at.Add(time.Hour)`
abbrev pub an_hour_after : Time → Time
an_hour_after t = record { instant = t.instant + hour; reading = t.reading + hour }

module _ (parse : String → Option Time) where
  -- `hour_start` is the hour of `time.Now()`.
  unfoldable pub start_of : ℕ → CreateSaleRequest → Time
  start_of hour_start req =
      if not (req.started_at == "")
      then zero_unless_parsed (parse req.started_at)
      else utc hour_start

  unfoldable pub end_of : Time → CreateSaleRequest → Time
  end_of started_at req =
      if not (req.ended_at == "")
      then zero_unless_parsed (parse req.ended_at)
      else if not (is_zero started_at)
      then an_hour_after started_at
      else utc 0

  unfoldable pub errors_of :
      (started_at ended_at : Time) → CreateSaleRequest → List (String × String)
  unfolding set_error
  errors_of started_at ended_at req =
      let no_items =
        if leb_ℤ req.total_items (pos 0)
        then set_error "total_items" "Total items must be greater than 0" []
        else [] in
      let no_start =
        if not (req.started_at == "")
        then error_unless_parsed "started_at" "Invalid started_at time format (use RFC3339)"
            (parse req.started_at) no_items
        else no_items in
      let no_end =
        if not (req.ended_at == "")
        then error_unless_parsed "ended_at" "Invalid ended_at time format (use RFC3339)"
            (parse req.ended_at) no_start
        else no_start in
      if not (is_zero started_at)
        && not (is_zero ended_at)
        && after started_at.instant ended_at.instant
      then set_error "started_at" "started_at must be before ended_at" no_end
      else no_end

  unfoldable pub requested : ℕ → CreateSaleRequest → Requested
  unfolding start_of end_of errors_of
  requested hour_start req =
      let started_at = start_of hour_start req in
      let ended_at = end_of started_at req in
      record {
        started_at = started_at;
        ended_at = ended_at;
        errors = errors_of started_at ended_at req;
      }

-- The literal `sale.Sale{…}` of the handler, with its times as the columns keep them.
unfoldable pub requested_sale : String → Requested → ℤ → ℕ → Sale
requested_sale sale_id times total_items now = record {
  id = sale_id;
  started_at = times.started_at.reading;
  ended_at = times.ended_at.reading;
  total_items = total_items;
  items_sold = pos 0;
  created_at = now;
}

-- `if err != nil { WriteError(…); return }` after a call.
abbrev pub or_refuse :
    {A B : Type 0} → ℕ → String → M Store A → (Store → Reply B × Store) → Store → Reply B × Store
or_refuse code text m k s =
    let (r, s') = m s in elim r [ ok _ ↦ k s' | err _ ↦ (refused code text, s') ]

-- `if len(validationErrors) > 0`
unfoldable pub unless_invalid :
    {B : Type 0} → List (String × String) → (Store → Reply B × Store) → Store → Reply B × Store
unfolding write_validation_error
unless_invalid [] k w = k w
unless_invalid (_ ∷ _) k w = (write_validation_error "Validation failed", w)

module _ (rfc3339 : Time → String) where
  unfoldable pub create_sale_response : Requested → Sale → CreateSaleResponse
  create_sale_response times s = record {
    id = s.id;
    started_at = rfc3339 times.started_at;
    ended_at = rfc3339 times.ended_at;
    total_items = s.total_items;
  }

  unfoldable pub insert_requested :
      Requested → Sale → List Item → Store → Reply CreateSaleResponse × Store
  unfolding create_sale_response
  insert_requested times s items = or_refuse 500 "Failed to create sale" (create_sale pool s) (
      or_refuse 500 "Failed to create items" (create_items pool items)
        (λ w. (replied 201 (create_sale_response times s), w)))

  unfoldable pub unless_running :
      Requested → Sale → List Item → Result Sale → Store → Reply CreateSaleResponse × Store
  unfolding insert_requested
  unless_running times s items (ok running) w = (refused 409 "Cannot create new sale", w)
  unless_running times s items (err e) w =
      if errors_is e sale_not_found
      then insert_requested times s items w
      else (refused 500 "Failed to check active sales", w)

  unfoldable pub handle_create_sale :
      (parse : String → Option Time) (sale_id : String) (hour_start now : ℕ) (draw : ℕ → Drawn)
      → Result CreateSaleRequest
      → Store
      → Reply CreateSaleResponse × Store
  unfolding requested requested_sale unless_running unless_invalid
  handle_create_sale parse sale_id hour_start now draw (err _) w =
      (refused 400 "Invalid request body", w)
  handle_create_sale parse sale_id hour_start now draw (ok req) w =
      let times = requested parse hour_start req in
      unless_invalid times.errors
        (λ w0.
          let (active, w1) = get_active_sale pool w0 in
          unless_running times (requested_sale sale_id times req.total_items now)
            (drawn_items sale_id draw 0 (pos_part req.total_items)) active w1)
        w
