-- ===== src/Postgres/Stock/Create.antt =====
-- New sales and new items keep the books.
use mathlib.Core.Path.{subst}
use flashsale_service.Postgres.Rules.{StatementPost}
use flashsale_service.Domain.Item.{Item}
use flashsale_service.Domain.Sale.{Sale}
use flashsale_service.Postgres.Stock.Books.{IsConsistent}
use flashsale_service.Postgres.Stock.{sold_in, UniqueIds}
use flashsale_service.Postgres.Query.{
  has_sale, find_sale, insert_sale, has_item_row, insert_item, inserted_row,
}
use flashsale_service.Prelude.{
  ◌≡◌, refl, List, String, All, true, false, ◌++◌, pos, ◌∷◌, [], ◌==◌, some, Bool-cases, arith,
  eq_iff, ◌⊎◌, inl, inr, ◌∙◌, sym, ap,
}
use flashsale_service.Postgres.Store.{Tables}

-- The books agree, and every item belongs to a sale of the table.
pub record Valid (t : Tables) : Type 0 where
  pub books : IsConsistent t
  pub refers : All (λ i. has_sale i.sale_id t.sales ≡ true) t.items

has_sale-append :
    (id : String) (sales : List Sale) (s : Sale)
    → has_sale id sales ≡ true
    → has_sale id (sales ++ s ∷ []) ≡ true
unfolding has_sale
has_sale-append id [] s h = ground arith
has_sale-append id (r ∷ rs) s h = ground (arith, has_sale-append id rs s)

refers-append :
    (sales : List Sale) (s : Sale) (items : List Item)
    → All (λ i. has_sale i.sale_id sales ≡ true) items
    → All (λ i. has_sale i.sale_id (sales ++ s ∷ []) ≡ true) items
refers-append sales s [] h = tt
refers-append sales s (i ∷ is) h =
    (has_sale-append i.sale_id sales s h.0, refers-append sales s is h.1)

-- Nothing of a sale that is not in the table is sold.
pub no_sale-sold_in :
    (id : String) (sales : List Sale) (items : List Item)
    → has_sale id sales ≡ false
    → All (λ i. has_sale i.sale_id sales ≡ true) items
    → sold_in id items ≡ 0
unfolding sold_in
no_sale-sold_in id sales [] h r = refl
no_sale-sold_in id sales (i ∷ is) h r = elim (Bool-cases (i.sale_id == id)) [
  | inl same ↦ absurd (clash same)
  | inr other ↦ rw other (no_sale-sold_in id sales is h r.1)
]
  where
    clash : (i.sale_id == id) ≡ true → ⊥
    clash same =
        let e = (eq_iff i.sale_id id).0 same in
        ground (arith, h, subst (λ x. has_sale x sales ≡ true) e r.0)

find_sale-append :
    (id : String) (sales : List Sale) (s x : Sale)
    → find_sale id (sales ++ s ∷ []) ≡ some x
    → (find_sale id sales ≡ some x) ⊎ ((s.id ≡ id) × (x ≡ s))
unfolding find_sale
find_sale-append id [] s x h = ground (arith, eq_iff s.id id)
find_sale-append id (r ∷ rs) s x h = elim (Bool-cases (r.id == id)) [
  | inl same ↦ inl (ground arith)
  | inr other ↦ grind (arith, find_sale-append id rs s x)
]

pub insert_sale-Valid :
    (s : Sale) (d : Tables)
    → s.items_sold ≡ pos 0
    → Valid d
    → StatementPost (λ _ d'. Valid d') (insert_sale s d)
unfolding insert_sale
insert_sale-Valid s d none_sold v = elim (Bool-cases (has_sale s.id d.sales)) [
  | inl h ↦ rw h tt
  | inr h ↦ rw h (record {
    books = record {
      unique = v.books.unique;
      agree = λ id x found. agree h id x (find_sale-append id d.sales s x found);
    };
    refers = refers-append d.sales s d.items v.refers;
  })
]
  where
    agree :
        has_sale s.id d.sales ≡ false
        → (id : String) (x : Sale) → (find_sale id d.sales ≡ some x) ⊎ ((s.id ≡ id) × (x ≡ s))
        → x.items_sold ≡ pos (sold_in id d.items)
    agree h id x (inl old) = v.books.agree id x old
    agree h id x (inr (same, e)) = cc (none_sold, no_sale-sold_in s.id d.sales d.items h v.refers)

has_item_row-append :
    (id : String) (items : List Item) (i : Item)
    → has_item_row id items ≡ false
    → (i.id ≡ id → ⊥)
    → has_item_row id (items ++ i ∷ []) ≡ false
unfolding has_item_row
has_item_row-append id [] i h k = ground (arith, eq_iff i.id id)
has_item_row-append id (r ∷ rs) i h k = ground (arith, has_item_row-append id rs i)

UniqueIds-append :
    (items : List Item) (i : Item)
    → UniqueIds items
    → has_item_row i.id items ≡ false
    → UniqueIds (items ++ i ∷ [])
unfolding has_item_row
UniqueIds-append [] i u h = (refl, tt)
UniqueIds-append (r ∷ rs) i u h = (
  has_item_row-append r.id rs i u.0 (λ e. ground (arith, h, eq_iff r.id i.id)),
  UniqueIds-append rs i u.1 (ground arith),
)

pub sold_in-append :
    (id : String) (items : List Item) (i : Item)
    → i.sold ≡ false
    → sold_in id (items ++ i ∷ []) ≡ sold_in id items
unfolding sold_in
sold_in-append id [] i h = ground arith
sold_in-append id (r ∷ rs) i h = ground (arith, sold_in-append id rs i)

All-append :
    {A : Type 0} (P : A → Type 0) (xs : List A) (x : A) → All P xs → P x → All P (xs ++ x ∷ [])
All-append P [] x h p = (p, tt)
All-append P (y ∷ ys) x h p = (h.0, All-append P ys x h.1 p)

pub insert_item-Valid :
    (i : Item) (d : Tables)
    → i.sold ≡ false
    → Valid d
    → StatementPost (λ _ d'. Valid d') (insert_item i d)
unfolding insert_item
insert_item-Valid i d unsold v = elim (Bool-cases (has_item_row i.id d.items)) [
  | inl h ↦ rw h tt
  | inr h ↦ rw h (elim (Bool-cases (has_sale i.sale_id d.sales)) [
    | inl k ↦ rw k (record {
      books = record {
        unique = UniqueIds-append d.items (inserted_row i) v.books.unique h;
        agree = λ id x found.
            v.books.agree id x found
            ∙ sym (ap pos (sold_in-append id d.items (inserted_row i) unsold));
      };
      refers = All-append _ d.items (inserted_row i) v.refers k;
    })
    | inr k ↦ rw k tt
  ])
]
