-- ===== src/Postgres/Pool.antt =====
-- What a query on the pool of connections answers: what it reads is a row of the committed tables,
-- and it leaves them.
use flashsale_service.Effect.{◌>>=◌, ok}
use flashsale_service.Postgres.Query.{latest_active, find_item}
use flashsale_service.Effect.Triple.{Triple, Post, weaken}
use flashsale_service.Errors.{Error, domain, sale_not_found, item_not_found}
use flashsale_service.Postgres.SaleRepository.{
  get_active_sale, get_item_by_id, reading, or_not_found,
}
use flashsale_service.Postgres.Store.{
  answered, failed, reply_lost, Tables, on_pool, run, pool, Answer, Store, next_answer, advance,
}
use flashsale_service.Prelude.{◌≡◌, refl, String, ℕ, Option, some, none, ap, sym}

module _ {A : Type 0} (t : Tables) where
  found_row :
      (e : Error) (now : ℕ) (f : ℕ → Tables → Option A) (a : Answer) (row : Option A) (s : Store)
      → f now s.tables ≡ row
      → s.tables ≡ t
      → Post
          (λ x (s' : Store). (s'.tables ≡ t) × (f now t ≡ some x))
          (λ _ s'. s'.tables ≡ t)
          ((λ (s0 : Store). (on_pool a (ok (row, s.tables)) >>= or_not_found e) s0) s)
  unfolding on_pool
  found_row e now f answered (some x) s er et = (et, cc)
  found_row e now f answered none s er et = et
  found_row e now f failed row s er et = et
  found_row e now f reply_lost row s er et = et

  -- A statement sees the instant at which the server's clock stands.
  read_row_at :
      (e : Error) (now : ℕ) (f : ℕ → Tables → Option A)
      → Triple
          (λ s. (s.tables ≡ t) × (s.clock ≡ now))
          (λ s. (run pool (reading f) >>= or_not_found e) s)
          (λ x s. (s.tables ≡ t) × (f now t ≡ some x))
          (λ _ s. s.tables ≡ t)
  unfolding run
  read_row_at e now f = record {
    at = λ s h.
        found_row e now f (next_answer s) (f s.clock s.tables) (advance s)
          (ap (λ k. f k s.tables) (sym h.1)) h.0;
  }

  pub read_row :
      (e : Error) (f : ℕ → Tables → Option A)
      → Triple
          (λ s. s.tables ≡ t)
          (λ s. (run pool (reading f) >>= or_not_found e) s)
          (λ x s. (s.tables ≡ t) × ((now : ℕ) × (f now t ≡ some x)))
          (λ _ s. s.tables ≡ t)
  read_row e f = record {
    at = λ s h.
        (weaken (λ s' k. k) (λ x s' q. (q.0, (s.clock, q.1))) (λ e' s' q. q)
            (read_row_at e s.clock f)).at
          s (h, refl);
  }

module _ (t : Tables) where
  pub Triple-get_active_sale :
      Triple
        (λ s. s.tables ≡ t)
        (get_active_sale pool)
        (λ x s. (s.tables ≡ t) × ((now : ℕ) × (latest_active now t.sales ≡ some x)))
        (λ _ s. s.tables ≡ t)
  unfolding get_active_sale
  Triple-get_active_sale = read_row t (domain sale_not_found) (λ now d. latest_active now d.sales)

  pub Triple-get_active_sale_at :
      (now : ℕ)
      → Triple
          (λ s. (s.tables ≡ t) × (s.clock ≡ now))
          (get_active_sale pool)
          (λ x s. (s.tables ≡ t) × (latest_active now t.sales ≡ some x))
          (λ _ s. s.tables ≡ t)
  unfolding get_active_sale
  Triple-get_active_sale_at now =
      read_row_at t (domain sale_not_found) now (λ now d. latest_active now d.sales)

  pub Triple-get_item_by_id :
      (id : String)
      → Triple
          (λ s. s.tables ≡ t)
          (get_item_by_id pool id)
          (λ x s. (s.tables ≡ t) × ((now : ℕ) × (find_item id t.items ≡ some x)))
          (λ _ s. s.tables ≡ t)
  unfolding get_item_by_id
  Triple-get_item_by_id id = read_row t (domain item_not_found) (λ now d. find_item id d.items)
