-- ===== src/Http/SaleHandler.antt =====
-- internal/infrastructure/http/handlers/sale.go, over the sale repository on PostgreSQL.
-- `rfc3339` is `time.Time.Format(time.RFC3339)`, `keys` the order in which the mapping of errors is
-- visited. A path is the list of its parts between slashes.
use flashsale_service.Effect.Triple.{Triple, Post}
use flashsale_service.Postgres.Query.{find_sale}
use flashsale_service.Errors.Chain.{root}
use flashsale_service.Http.ErrorMapper.{
  VisitsAll, write_domain_error, error_mappings, map_domain_error_lem,
}
use flashsale_service.Postgres.SaleRepository.{
  get_sale_by_id, get_active_sale, get_items_by_sale_id, or_not_found,
}
use flashsale_service.Postgres.Store.{
  Answer, Store, run, pool, on_pool, next_answer, failed, Tables, advance, connection_lost,
}
use flashsale_service.Domain.Sale.{Sale, before, is_active, after}
use flashsale_service.Http.Response.{
  Reply, write_success, write_validation_error, replied, refused, bare,
}
use flashsale_service.Effect.{M, ok, err, Result, ◌>>=◌}
use flashsale_service.Domain.Item.{Item}
use flashsale_service.Errors.{DomainError, domain, sale_not_found}
use flashsale_service.Http.Routes.{trim_prefix}
use flashsale_service.Postgres.Store.{answered, failed, reply_lost}
use flashsale_service.Prelude.{
  ◌≡◌, refl, String, List, ℤ, Bool, [], ◌∷◌, ℕ, Option, if◌then◌else◌, ◌==◌, some, true, false,
  ◌&&◌, none, Bool-cases, inl, inr,
}

pub record SaleResponse : Type 0 where
  pub id : String
  pub started_at : String
  pub ended_at : String
  pub total_items : ℤ
  pub items_sold : ℤ
  pub active : Bool

pub record ItemResponse : Type 0 where
  pub id : String
  pub name : String
  pub image_url : String
  pub sold : Bool

-- The handler's reply after a call: the value's, or the one that `WriteDomainError` writes.
abbrev pub reply_with :
    {W A B : Type 0} → List DomainError → M W A → (A → W → Reply B × W) → W → Reply B × W
reply_with keys m k w =
    let (r, w') = m w in elim r [ ok a ↦ k a w' | err e ↦ (write_domain_error keys e, w') ]

-- The loop of `HandleGetSaleItems`.
unfoldable pub item_responses : List Item → List ItemResponse
item_responses [] = []
item_responses (i ∷ is) =
    record { id = i.id; name = i.name; image_url = i.image_url; sold = i.sold } ∷ item_responses is

-- `parts[0]` after the prefix is cut off; `strings.Split` never gives an empty list.
unfoldable pub sale_id_of : List String → String
unfolding trim_prefix
sale_id_of path = elim (trim_prefix path) [ [] ↦ "" | part ∷ _ ↦ part ]

module _ (keys : List DomainError) (rfc3339 : ℕ → String) where
  unfoldable pub sale_response : Sale → Bool → SaleResponse
  sale_response s active = record {
    id = s.id;
    started_at = rfc3339 s.started_at;
    ended_at = rfc3339 s.ended_at;
    total_items = s.total_items;
    items_sold = s.items_sold;
    active = active;
  }

  unfoldable pub handle_get_active_sale : Store → Reply SaleResponse × Store
  unfolding sale_response write_success
  handle_get_active_sale =
      reply_with keys (get_active_sale pool) λ sale s. (write_success (sale_response sale true), s)

  -- `now` and `now'` are what the two calls of `time.Now` answer.
  unfoldable pub handle_get_sale : (now now' : ℕ) → List String → Store → Reply SaleResponse × Store
  unfolding sale_response write_success write_validation_error
  handle_get_sale now now' path s =
      if sale_id_of path == ""
      then (write_validation_error "Validation failed", s)
      else reply_with keys (get_sale_by_id pool (sale_id_of path))
          (λ sale s'. (
            write_success
                (sale_response sale (before sale.started_at now && after sale.ended_at now')),
            s',
          ))
          s

  unfoldable pub handle_get_sale_items : List String → Store → Reply (List ItemResponse) × Store
  unfolding item_responses write_success write_validation_error
  handle_get_sale_items path s =
      if sale_id_of path == ""
      then (write_validation_error "Validation failed", s)
      else reply_with keys (get_sale_by_id pool (sale_id_of path))
          (λ _.
            reply_with keys (get_items_by_sale_id pool (sale_id_of path) 0 100)
              (λ items s'. (write_success (item_responses items), s')))
          s

  -- The reply that the path, the server's answer and the committed sales call for.
  abbrev pub sale_reply : (now : ℕ) → Answer → Option Sale → Reply SaleResponse
  sale_reply now answered (some sale) = replied 200 (record {
    id = sale.id;
    started_at = rfc3339 sale.started_at;
    ended_at = rfc3339 sale.ended_at;
    total_items = sale.total_items;
    items_sold = sale.items_sold;
    active = is_active sale now;
  })
  sale_reply now answered none = refused 404 "Sale not found"
  sale_reply now failed row = refused 500 "Internal server error"
  sale_reply now reply_lost row = refused 500 "Internal server error"

  row_reply :
      (now : ℕ) (a : Answer) (row : Option Sale) (s : Store) (d : Tables)
      → VisitsAll keys
      → (reply_with keys
          (λ s0. (on_pool a (ok (row, d)) >>= or_not_found (domain sale_not_found)) s0)
          (λ sale s'. (
            write_success
                (sale_response sale (before sale.started_at now && after sale.ended_at now)),
            s',
          ))
          s).0
        ≡ sale_reply now a row
  unfolding on_pool write_success is_active write_domain_error root error_mappings sale_response
  row_reply now answered (some sale) s d all = refl
  row_reply now answered none s d all =
      rw (map_domain_error_lem keys (domain sale_not_found) all) refl
  row_reply now failed row s d all = rw (map_domain_error_lem keys connection_lost all) refl
  row_reply now reply_lost row s d all = rw (map_domain_error_lem keys connection_lost all) refl

  -- When the time is read the same twice, and the path names a sale, the reply shows each field of
  -- the committed sale, its times printed, with whether it is active, says 404 when there is none,
  -- and 500 when the server's answer does not arrive, in whatever order the mapping of errors is
  -- visited.
  pub handle_get_sale_lem :
      (now : ℕ) (path : List String) (s : Store)
      → VisitsAll keys
      → (sale_id_of path == "") ≡ false
      → (handle_get_sale now now path s).0
        ≡ sale_reply now (next_answer s) (find_sale (sale_id_of path) s.tables.sales)
  unfolding handle_get_sale get_sale_by_id run
  handle_get_sale_lem now path s all named = rw named (
      row_reply now (next_answer s) (find_sale (sale_id_of path) s.tables.sales) (advance s)
        s.tables all)

  -- The list of items that a reply shows is empty.
  abbrev pub ShowsNothing : Reply (List ItemResponse) → Type 0
  ShowsNothing (replied _ items) = items ≡ []
  ShowsNothing (refused _ _) = Unit
  ShowsNothing (bare _) = Unit

  no_rows :
      (id : String)
      → Triple
          (λ _. Unit {0})
          (get_items_by_sale_id pool id 0 100)
          (λ items _. items ≡ [])
          (λ _ _. Unit {0})
  unfolding get_items_by_sale_id run on_pool
  no_rows id = record { at = λ s _. go s (next_answer s) }
    where
      go :
          (s : Store) (a : Answer)
          → Post {A = List Item}
              (λ items _. items ≡ [])
              (λ _ _. Unit {0})
              (on_pool a (ok ([], s.tables)) (advance s))
      go s answered = refl
      go s failed = tt
      go s reply_lost = tt

  items_reply :
      (r : Result (List Item) × Store)
      → Post (λ items _. items ≡ []) (λ _ _. Unit {0}) r
      → ShowsNothing
          (reply_with keys (λ _. r) (λ items s'. (write_success (item_responses items), s')) r.1).0
  unfolding write_success write_domain_error item_responses
  items_reply (ok items, s) h = rw h refl
  items_reply (err e, s) h = tt

  after_sale :
      (id : String) (r : Result Sale × Store)
      → ShowsNothing
          (reply_with keys
            (λ _. r)
            (λ (_ : Sale).
              reply_with keys
                (get_items_by_sale_id pool id 0 100)
                (λ items s'. (write_success (item_responses items), s')))
            r.1).0
  unfolding write_domain_error
  after_sale id (ok sale, s) =
      items_reply (get_items_by_sale_id pool id 0 100 s) ((no_rows id).at s tt)
  after_sale id (err e, s) = tt

  -- Whatever the path, the tables and the server's answers: a list of items that the handler
  -- returns is empty, since it asks for no rows from the hundredth on.
  pub handle_get_sale_items-ShowsNothing :
      (path : List String) (s : Store) → ShowsNothing (handle_get_sale_items path s).0
  unfolding handle_get_sale_items write_validation_error
  handle_get_sale_items-ShowsNothing path s = elim (Bool-cases (sale_id_of path == "")) [
    | inl h ↦ rw h tt
    | inr h ↦ rw h (after_sale (sale_id_of path) (get_sale_by_id pool (sale_id_of path) s))
  ]
