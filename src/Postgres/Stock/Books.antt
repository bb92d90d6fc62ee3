-- ===== src/Postgres/Stock/Books.antt =====
-- The number of items sold that a sale's row states against the rows of its items, and how a
-- purchase transaction moves from one state of the tables where they agree to another.
use mathlib.Core.Option
use flashsale_service.Prelude.{
  ℕ, ◌+◌, String, List, [], ◌∷◌, ◌==◌, Option, none, some, ◌≡◌, if◌then◌else◌, arith, refl, eq_iff,
  pos, ◌+ℤ◌, ◌∙◌, sym, ap,
}
use flashsale_service.Domain.Sale.{Sale}
use flashsale_service.Domain.Item.{Item}
use flashsale_service.Domain.PurchaseService.{PurchaseResult}
use flashsale_service.Postgres.Store.{Tables}
use flashsale_service.Postgres.Query.{
  find_sale, find_item, overwrite_sale, update_sales, sell_rows, rows_affected, find_result,
  insert_result,
}
use flashsale_service.Postgres.Stock.{sold_in, UniqueIds, KeepsSold, SameSales}
use flashsale_service.Postgres.Stock.Sell.{
  sell_rows-UniqueIds, sell_rows-KeepsSold, sell_rows-SameSales, sold_in-sell_rows,
}

-- `items_sold` of every sale is the number of its items that are sold.
pub record IsConsistent (t : Tables) : Type 0 where
  pub unique : UniqueIds t.items
  pub agree :
      (id : String) (s : Sale)
      → find_sale id t.sales ≡ some s
      → s.items_sold ≡ pos (sold_in id t.items)

abbrev pub SoldMore : String → ℕ → List Item → List Item → Type 0
SoldMore sale_id k before after =
    (j : String) → sold_in j after ≡ sold_in j before + (if sale_id == j then k else 0)

-- Part of the way through a purchase of items of one sale: `k` of them are sold.
pub record Selling (sale_id : String) (k : ℕ) (t d : Tables) : Type 0 where
  pub sales : d.sales ≡ t.sales
  pub results : d.purchase_results ≡ t.purchase_results
  pub unique : UniqueIds d.items
  pub counts : SoldMore sale_id k t.items d.items
  pub keeps : KeepsSold t.items d.items
  pub same : SameSales t.items d.items

-- A purchase that is written down: `k` items of the sale are sold, and the result is kept under
-- its code, which had none.
pub record Recorded (code sale_id : String) (k : ℕ) (r : PurchaseResult) (t d : Tables)
    : Type 0 where
  pub consistent : IsConsistent d
  pub keeps : KeepsSold t.items d.items
  pub counts : SoldMore sale_id k t.items d.items
  pub fresh : find_result code t.purchase_results ≡ none
  pub result : find_result code d.purchase_results ≡ some r

pub KeepsSold-refl : (is : List Item) → KeepsSold is is
KeepsSold-refl is = record { row = λ id i found sold. found }

pub KeepsSold-trans : {a b c : List Item} → KeepsSold a b → KeepsSold b c → KeepsSold a c
KeepsSold-trans f g = record { row = λ id i found sold. g.row id i (f.row id i found sold) sold }

pub Selling-start : (sale_id : String) (t : Tables) → UniqueIds t.items → Selling sale_id 0 t t
Selling-start sale_id t u = record {
  sales = refl;
  results = refl;
  unique = u;
  counts = λ j. ground arith;
  keeps = KeepsSold-refl t.items;
  same = record { sale = λ id. refl };
}

-- The id, if it is a row's, is that of an item of the sale.
abbrev pub IsItemOf : String → String → List Item → Type 0
IsItemOf sale_id id items = (i : Item) → find_item id items ≡ some i → i.sale_id ≡ sale_id

IsItemOf-SameSales :
    (sale_id id : String) {before after : List Item}
    → SameSales before after
    → IsItemOf sale_id id before
    → IsItemOf sale_id id after
IsItemOf-SameSales sale_id id {before} {after} s h i found =
    go (find_item id before) refl (sym (s.sale id) ∙ ap (Option.map (λ x. x.sale_id)) found)
  where
    go :
        (o : Option Item)
        → find_item id before ≡ o
        → Option.map (λ x. x.sale_id) o ≡ some i.sale_id
        → i.sale_id ≡ sale_id
    go none e m = ground arith
    go (some b) e m = ground (arith, h b e)

pub Selling-sell :
    (sale_id id user_id : String) (now k : ℕ) (t d : Tables)
    → IsItemOf sale_id id t.items
    → Selling sale_id k t d
    → Selling sale_id
        (k + rows_affected id d.items)
        t
        (record d { items = sell_rows id user_id now d.items })
Selling-sell sale_id id user_id now k t d of_sale s = record {
  sales = s.sales;
  results = s.results;
  unique = sell_rows-UniqueIds id user_id now d.items s.unique;
  counts = λ j. ground (
    arith,
    s.counts j,
    sold_in-sell_rows id user_id now sale_id j d.items s.unique
        (IsItemOf-SameSales sale_id id s.same of_sale),
  );
  keeps = KeepsSold-trans s.keeps (sell_rows-KeepsSold id user_id now d.items);
  same = record { sale = λ j. (sell_rows-SameSales id user_id now d.items).sale j ∙ s.same.sale j };
}

-- UPDATE sales reaches the row of the sale's id and no other.
find_sale-update_sales :
    (j : String) (s : Sale) (rows : List Sale)
    → find_sale j (update_sales s rows)
      ≡ Option.map (λ row. if row.id == s.id then overwrite_sale s row else row) (find_sale j rows)
unfolding find_sale update_sales
find_sale-update_sales j s [] = refl
find_sale-update_sales j s (r ∷ rs) = ground (arith, find_sale-update_sales j s rs)

pub find_sale-id : (j : String) (rows : List Sale) (s : Sale) → find_sale j rows ≡ some s → s.id ≡ j
unfolding find_sale
find_sale-id j [] s h = ground arith
find_sale-id j (r ∷ rs) s h = ground (arith, eq_iff r.id j, find_sale-id j rs s)

pub find_item-id : (j : String) (rows : List Item) (i : Item) → find_item j rows ≡ some i → i.id ≡ j
unfolding find_item
find_item-id j [] i h = ground arith
find_item-id j (r ∷ rs) i h = ground (arith, eq_iff r.id j, find_item-id j rs i)

abbrev pub with_sold : Sale → ℕ → Sale
with_sold s k = record s { items_sold = s.items_sold +ℤ pos k }

updated_row :
    (sale_id j : String) (k n m : ℕ) (s row₀ row : Sale)
    → s.id ≡ sale_id
    → row₀.id ≡ j
    → s.items_sold ≡ pos n
    → row₀.items_sold ≡ pos m
    → (sale_id ≡ j → n ≡ m)
    → some (if row₀.id == s.id then overwrite_sale (with_sold s k) row₀ else row₀) ≡ some row
    → row.items_sold ≡ pos (m + (if sale_id == j then k else 0))
unfolding ◌+ℤ◌
updated_row sale_id j k n m s row₀ row ids idj sold sold₀ same h =
    ground (arith, eq_iff row₀.id s.id, eq_iff sale_id j)

-- Writing the new count into the sale's row makes the rows agree with the items again.
pub Selling-update :
    (sale_id : String) (k : ℕ) (t d : Tables) (s : Sale)
    → IsConsistent t
    → find_sale sale_id t.sales ≡ some s
    → Selling sale_id k t d
    → (j : String) (row : Sale) → find_sale j (update_sales (with_sold s k) d.sales) ≡ some row
    → row.items_sold ≡ pos (sold_in j d.items)
Selling-update sale_id k t d s c found sel j row h =
    go (find_sale j t.sales) refl (rw sel.sales at (rw find_sale-update_sales at h))
  where
    go :
        (o : Option Sale)
        → find_sale j t.sales ≡ o
        → Option.map
            (λ r. if r.id == s.id then overwrite_sale (with_sold s k) r else r)
            (find_sale j t.sales)
          ≡ some row
        → row.items_sold ≡ pos (sold_in j d.items)
    go none e m = ground arith
    go (some r) e m = rw (sel.counts j) (
        updated_row sale_id j k (sold_in sale_id t.items) (sold_in j t.items) s r row
          (find_sale-id sale_id t.sales s found) (find_sale-id j t.sales r e)
          (c.agree sale_id s found) (c.agree j r e) (λ p. ap (λ x. sold_in x t.items) p)
          (rw e at m))

-- Where no item was sold the rows agree still.
pub Selling-none :
    (sale_id : String) (t d : Tables) → IsConsistent t → Selling sale_id 0 t d → IsConsistent d
Selling-none sale_id t d c sel = record {
  unique = sel.unique;
  agree = λ id s found. ground (arith, c.agree id s (rw sel.sales at found), sel.counts id);
}

pub find_result-insert_result :
    (code : String) (r : PurchaseResult) (rs : List (String × PurchaseResult))
    → find_result code rs ≡ none
    → find_result code (insert_result code r rs) ≡ some r
unfolding find_result
find_result-insert_result code r rs h = ground (arith, eq_iff code code)
