-- ===== src/Postgres/SaleRepository.antt =====
-- internal/infrastructure/persistence/postgres/sale_repository.go. The gauges and counters of
-- internal/infrastructure/monitoring, which the methods also set, are left out: nothing reads them.
use flashsale_service.Prelude.{
  ℕ, String, List, [], ◌∷◌, Bool, true, false, not, ◌&&◌, ◌==◌, ltb, Option, none, some,
}
use flashsale_service.Errors.{Error, domain, message, sale_not_found, item_not_found}
use flashsale_service.Effect.{ok, err, M, pure, raise, ◌>>=◌, ◌>>◌, ignore}
use flashsale_service.Domain.Sale.{Sale}
use flashsale_service.Domain.Item.{Item}
use flashsale_service.Domain.PurchaseService.{PurchaseResult}
pub mod InTransaction
use mathlib.Core.Option
use flashsale_service.Ports
use flashsale_service.Postgres.Store.{
  Tables, Store, Repo, pool, in_tx, Statement, run, begin, commit, rollback,
}
use flashsale_service.Postgres.Query.{
  find_sale, find_item, latest_active, update_sales, sell_rows, rows_affected, select_items,
  order_by_created_at, page, insert_item, insert_sale, find_result, insert_result,
}

-- A statement that only reads.
abbrev pub reading : {A : Type 0} → (ℕ → Tables → A) → Statement A
reading f now d = ok (f now d, d)

-- `sql.ErrNoRows` becomes the error of the domain.
abbrev pub or_not_found : {A : Type 0} → Error → Option A → M Store A
or_not_found e none = raise e
or_not_found e (some a) = pure a

unfoldable pub get_active_sale : Repo → M Store Sale
get_active_sale r = do
  row ← run r (reading (λ now d. latest_active now d.sales))
  or_not_found (domain sale_not_found) row

unfoldable pub get_sale_by_id : Repo → String → M Store Sale
get_sale_by_id r id = do
  row ← run r (reading (λ now d. find_sale id d.sales))
  or_not_found (domain sale_not_found) row

-- The times of a sale are the clock readings that the TIMESTAMP columns keep: those of a time with
-- an offset are taken where the sale is made.
unfoldable pub create_sale : Repo → Sale → M Store (Unit {0})
create_sale r s = run r (λ now d. insert_sale s d)

abbrev pub update_statement : Sale → Statement (Unit {0})
update_statement s now d = ok (tt, record d { sales = update_sales s d.sales })

unfoldable pub update_sale : Repo → Sale → M Store (Unit {0})
update_sale r s = run r (update_statement s)

unfoldable pub get_item_by_id : Repo → String → M Store Item
get_item_by_id r id = do
  row ← run r (reading (λ now d. find_item id d.items))
  or_not_found (domain item_not_found) row

unfoldable pub get_items_by_sale_id : Repo → String → ℕ → ℕ → M Store (List Item)
get_items_by_sale_id r sale_id limit offset = run r (
    reading (λ now d.
      page limit offset (order_by_created_at (select_items (λ i. i.sale_id == sale_id) d.items))))

unfoldable pub get_available_items_by_sale_id : Repo → String → ℕ → ℕ → M Store (List Item)
get_available_items_by_sale_id r sale_id limit offset = run r (
    reading (λ now d.
      page limit offset
        (order_by_created_at (select_items (λ i. i.sale_id == sale_id && not i.sold) d.items))))

unfoldable pub create_item : Repo → Item → M Store (Unit {0})
create_item r i = run r (λ now d. insert_item i d)

-- The loop of `CreateItems` over a prepared statement.
unfoldable pub insert_items : Repo → List Item → M Store (Unit {0})
unfolding create_item
insert_items r [] = pure tt
insert_items r (i ∷ is) = create_item r i >> insert_items r is

-- `tx.PrepareContext`
abbrev pub prepare : Repo → M Store (Unit {0})
prepare r = run r (reading (λ now d. tt))

-- A transaction of its own: committed at the end, rolled back after an error.
unfoldable pub in_own_tx : (Repo → M Store (Unit {0})) → M Store (Unit {0})
in_own_tx body = do
  h ← begin
  λ s.
      let (r, s') = body (in_tx h) s in
      elim r [ ok _ ↦ commit h s' | err e ↦ (err e, (rollback h s').1) ]

unfoldable pub create_items : Repo → List Item → M Store (Unit {0})
unfolding insert_items in_own_tx
create_items r [] = pure tt
create_items (in_tx h) (i ∷ is) = prepare (in_tx h) >> insert_items (in_tx h) (i ∷ is)
create_items pool (i ∷ is) = in_own_tx (λ tx. prepare tx >> insert_items tx (i ∷ is))

abbrev pub sell_statement : String → String → Statement ℕ
sell_statement id user_id now d =
    ok (rows_affected id d.items, record d { items = sell_rows id user_id now d.items })

abbrev pub when_sold : Bool → M Store (Unit {0}) → M Store Bool
when_sold false m = pure false
when_sold true m = ignore m >> pure true

-- The second statement reads the sale's id for a counter, and its error is dropped.
unfoldable pub mark_item_as_sold : Repo → String → String → M Store Bool
mark_item_as_sold r id user_id = do
  affected ← run r (sell_statement id user_id)
  when_sold (ltb 0 affected) (do
    _ ← run r (reading (λ now d. Option.map (λ i. i.sale_id) (find_item id d.items)))
    pure tt)

unfoldable pub begin_tx : Repo → M Store Repo
begin_tx (in_tx h) = raise (message "transaction already started")
begin_tx pool = do h ← begin; pure (in_tx h)

unfoldable pub commit_tx : Repo → M Store (Unit {0})
commit_tx pool = raise (message "no transaction to commit")
commit_tx (in_tx h) = commit h

unfoldable pub rollback_tx : Repo → M Store (Unit {0})
rollback_tx pool = raise (message "no transaction to rollback")
rollback_tx (in_tx h) = rollback h

-- The JSON text of a result reads back as the result.
abbrev pub save_statement : String → PurchaseResult → Statement (Unit {0})
save_statement code r now d =
    ok (tt, record d { purchase_results = insert_result code r d.purchase_results })

unfoldable pub save_purchase_result : Repo → String → PurchaseResult → M Store (Unit {0})
save_purchase_result r code result = run r (save_statement code result)

unfoldable pub get_purchase_result : Repo → String → M Store (Option PurchaseResult)
get_purchase_result r code = run r (reading (λ now d. find_result code d.purchase_results))

-- The repository as the use cases see it.
abbrev pub sale_repository : Ports.SaleRepository Store
sale_repository = record {
  Repo = Repo;
  get_active_sale = get_active_sale;
  get_sale_by_id = get_sale_by_id;
  create_sale = create_sale;
  update_sale = update_sale;
  get_item_by_id = get_item_by_id;
  get_items_by_sale_id = get_items_by_sale_id;
  get_available_items_by_sale_id = get_available_items_by_sale_id;
  create_item = create_item;
  create_items = create_items;
  mark_item_as_sold = mark_item_as_sold;
  save_purchase_result = save_purchase_result;
  get_purchase_result = get_purchase_result;
  begin_tx = begin_tx;
  commit_tx = commit_tx;
  rollback_tx = rollback_tx;
}
