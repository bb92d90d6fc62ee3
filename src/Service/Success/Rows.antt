-- ===== src/Service/Success/Rows.antt =====
-- The items of a checkout as rows of the table, while they are sold one after the other.
use flashsale_service.Prelude.{
  ◌∷◌, [], refl, List, String, ◌≡◌, Bool, ℕ, All, some, ◌≢◌, ap, false, ◌≤◌, subst, true,
  Bool-cases, sym, ◌==◌, inl, inr, Option, arith, if◌then◌else◌, eq_iff, ◌∙◌,
}
use flashsale_service.Domain.Item.{Item}
use flashsale_service.Postgres.Query.{find_item, sell_rows, rows_affected}
use flashsale_service.Postgres.Store.{Tables}

abbrev pub ids_of : List Item → List String
ids_of [] = []
ids_of (i ∷ is) = i.id ∷ ids_of is

-- The items have different ids.
abbrev pub Distinct : List Item → Type 0
Distinct [] = Unit
Distinct (i ∷ is) = All (λ j. i.id ≢ j.id) is × Distinct is

-- Each item is a row of the table, and not sold.
abbrev pub OnSale : List Item → Tables → Type 0
OnSale items d = All (λ i. (find_item i.id d.items ≡ some i) × (i.sold ≡ false)) items

-- The UPDATE of each item finds a row.
abbrev pub Available : List Item → Tables → Type 0
Available items d = All (λ i. 1 ≤ rows_affected i.id d.items) items

rows_affected-found :
    (id : String) (i : Item) (rows : List Item)
    → find_item id rows ≡ some i
    → i.sold ≡ false
    → 1 ≤ rows_affected id rows
unfolding find_item rows_affected
rows_affected-found id i [] h unsold = cc
rows_affected-found id i (row ∷ rows) h unsold = elim (Bool-cases (row.id == id)) [
  | inl same ↦
      ground (
        arith,
        same,
        ap (λ r. r.sold) (first_row (row.id == id) (find_item id rows) h same) ∙ unsold,
      )
  | inr other ↦ ground (
    arith,
    rows_affected-found id i rows (other_row (row.id == id) (find_item id rows) h other) unsold,
  )
]
  where
    first_row :
        (b : Bool) (x : Option Item) → (if b then some row else x) ≡ some i → b ≡ true → row ≡ i
    first_row true x e h' = cc
    first_row false x e h' = cc

    other_row :
        (b : Bool) (x : Option Item) → (if b then some row else x) ≡ some i → b ≡ false → x ≡ some i
    other_row true x e h' = cc
    other_row false x e h' = e

rows_affected-sell_rows :
    (id other user_id : String) (now : ℕ) (rows : List Item)
    → id ≢ other
    → rows_affected other (sell_rows id user_id now rows) ≡ rows_affected other rows
unfolding rows_affected sell_rows
rows_affected-sell_rows id other user_id now [] ne = refl
rows_affected-sell_rows id other user_id now (row ∷ rows) ne = ground (
  arith,
  ne,
  eq_iff row.id id,
  eq_iff row.id other,
  rows_affected-sell_rows id other user_id now rows ne,
)

pub OnSale-Available : (items : List Item) (d : Tables) → OnSale items d → Available items d
OnSale-Available [] d h = tt
OnSale-Available (i ∷ is) d h =
    (rows_affected-found i.id i d.items h.0.0 h.0.1, OnSale-Available is d h.1)

pub Available-sell_rows :
    (items : List Item) (id user_id : String) (now : ℕ) (d : Tables)
    → All (λ j. id ≢ j.id) items
    → Available items d
    → Available items (record d { items = sell_rows id user_id now d.items })
Available-sell_rows [] id user_id now d ne h = tt
Available-sell_rows (i ∷ is) id user_id now d ne h = (
  subst (λ n. 1 ≤ n) (sym (rows_affected-sell_rows id i.id user_id now d.items ne.0)) h.0,
  Available-sell_rows is id user_id now d ne.1 h.1,
)
