-- ===== src/Postgres/Stock/Stocked.antt =====
-- A new sale and its items: after the insertions the sale has exactly these items.
use flashsale_service.Prelude.{
  ◌∷◌, [], String, ℕ, List, Bool-cases, if◌then◌else◌, ◌≡◌, inl, ◌==◌, some, false, ◌++◌, inr, suc,
  All, ◌+◌, arith, true, eq_iff, ◌∙◌, subst, length, sym, refl,
}
use flashsale_service.Effect.{ok, err, Result, ◌>>◌}
use flashsale_service.Effect.Triple.{Triple, Post, weaken, Triple-then}
use flashsale_service.Domain.Sale.{Sale}
use flashsale_service.Domain.Item.{Item}
use flashsale_service.Postgres.Store.{
  answered, failed, reply_lost, Tables, Store, Answer, on_pool, run, pool, in_tx, next_answer,
  advance,
}
use flashsale_service.Postgres.Query.{
  find_sale, has_sale, has_item_row, insert_sale, insert_item, inserted_row,
}
use flashsale_service.Postgres.Rules.{StatementPost, InTx, Live-InTx, run-Live}
use flashsale_service.Postgres.OwnTransaction.{in_own_tx_lem}
use flashsale_service.Postgres.SaleRepository.{
  create_sale, create_items, create_item, insert_items, prepare, reading,
}
use flashsale_service.Postgres.Stock.{sold_in}
use flashsale_service.Postgres.Stock.Create.{Valid, sold_in-append, no_sale-sold_in}

unfoldable pub items_in : String → List Item → ℕ
items_in sale_id [] = 0
items_in sale_id (i ∷ is) =
    let rest = items_in sale_id is in if i.sale_id == sale_id then suc rest else rest

-- The sale is in the table and has `n` items, none of them sold.
pub record Stocked (s : Sale) (n : ℕ) (d : Tables) : Type 0 where
  pub row : find_sale s.id d.sales ≡ some s
  pub items : items_in s.id d.items ≡ n
  pub unsold : sold_in s.id d.items ≡ 0

no_sale-items_in :
    (id : String) (sales : List Sale) (items : List Item)
    → has_sale id sales ≡ false
    → All (λ i. has_sale i.sale_id sales ≡ true) items
    → items_in id items ≡ 0
unfolding items_in
no_sale-items_in id sales [] h r = refl
no_sale-items_in id sales (i ∷ is) h r = elim (Bool-cases (i.sale_id == id)) [
  | inl same ↦ absurd (clash same)
  | inr other ↦ rw other (no_sale-items_in id sales is h r.1)
]
  where
    clash : (i.sale_id == id) ≡ true → ⊥
    clash same =
        let e = (eq_iff i.sale_id id).0 same in
        ground (arith, h, subst (λ x. has_sale x sales ≡ true) e r.0)

items_in-append :
    (id : String) (items : List Item) (i : Item)
    → i.sale_id ≡ id
    → items_in id (items ++ i ∷ []) ≡ items_in id items + 1
unfolding items_in
items_in-append id [] i h = ground (arith, eq_iff i.sale_id id)
items_in-append id (r ∷ rs) i h = ground (arith, items_in-append id rs i h)

find_sale-new :
    (s : Sale) (sales : List Sale)
    → has_sale s.id sales ≡ false
    → find_sale s.id (sales ++ s ∷ []) ≡ some s
unfolding find_sale has_sale
find_sale-new s [] h = ground (arith, eq_iff s.id s.id)
find_sale-new s (r ∷ rs) h = ground (arith, find_sale-new s rs)

insert_sale-Stocked :
    (s : Sale) (d : Tables) → Valid d → StatementPost (λ _ d'. Stocked s 0 d') (insert_sale s d)
unfolding insert_sale
insert_sale-Stocked s d v = elim (Bool-cases (has_sale s.id d.sales)) [
  | inl h ↦ rw h tt
  | inr h ↦ rw h (record {
    row = find_sale-new s d.sales h;
    items = no_sale-items_in s.id d.sales d.items h v.refers;
    unsold = no_sale-sold_in s.id d.sales d.items h v.refers;
  })
]

insert_item-Stocked :
    (s : Sale) (n : ℕ) (i : Item) (d : Tables)
    → i.sale_id ≡ s.id
    → i.sold ≡ false
    → Stocked s n d
    → StatementPost (λ _ d'. Stocked s (n + 1) d') (insert_item i d)
unfolding insert_item
insert_item-Stocked s n i d same unsold v = elim (Bool-cases (has_item_row i.id d.items)) [
  | inl h ↦ rw h tt
  | inr h ↦ rw h (elim (Bool-cases (has_sale i.sale_id d.sales)) [
    | inl k ↦ rw k (record {
      row = v.row;
      items = omega (arith, items_in-append s.id d.items (inserted_row i) same, v.items);
      unsold = sold_in-append s.id d.items (inserted_row i) unsold ∙ v.unsold;
    })
    | inr k ↦ rw k tt
  ])
]

-- A statement on the pool that returned has done its work.
on_pool-Returned :
    {A : Type 0} (Q : Tables → Type 0) (a : Answer) (r : Result (A × Tables)) (w : Store)
    → StatementPost (λ _ d. Q d) r
    → Post {A = A} (λ _ w'. Q w'.tables) (λ _ _. Unit {0}) (on_pool a r w)
unfolding on_pool
on_pool-Returned Q answered (ok (a, d)) w q = q
on_pool-Returned Q answered (err e) w q = tt
on_pool-Returned Q failed r w q = tt
on_pool-Returned Q reply_lost (ok (a, d)) w q = tt
on_pool-Returned Q reply_lost (err e) w q = tt

pub create_sale-Stocked :
    (s : Sale)
    → Triple
        (λ w. Valid w.tables)
        (create_sale pool s)
        (λ _ w. Stocked s 0 w.tables)
        (λ _ _. Unit {0})
unfolding create_sale run
create_sale-Stocked s = record {
  at = λ w v.
      on_pool-Returned (Stocked s 0) (next_answer w) (insert_sale s w.tables) (advance w)
        (insert_sale-Stocked s w.tables v);
}

-- An item as it is created, for one sale.
abbrev pub NewFor : String → Item → Type 0
NewFor sale_id i = (i.sale_id ≡ sale_id) × (i.sold ≡ false)

module _ (s : Sale) (t : Tables) (h : ℕ) where
  insert_items-Stocked :
      (items : List Item) (n : ℕ)
      → All (NewFor s.id) items
      → Triple
          (InTx t h (Stocked s n))
          (insert_items (in_tx h) items)
          (λ _ w. InTx t h (Stocked s (n + length items)) w)
          (λ _ w. w.tables ≡ t)
  unfolding insert_items create_item
  insert_items-Stocked [] n new = record {
    at = λ w q. subst (λ k. InTx t h (Stocked s k) w) (omega arith) q;
  }
  insert_items-Stocked (i ∷ is) n new =
      Triple-then (InTx t h (Stocked s (n + 1))) (create_item (in_tx h) i)
        (insert_items (in_tx h) is)
        (weaken (λ w q. q) (λ _ w q. Live-InTx t h (Stocked s (n + 1)) w q) (λ e w q. q.0)
          (run-Live t h (λ _ d'. Stocked s (n + 1) d') (Stocked s n) (λ now d. insert_item i d)
            (λ now d v. insert_item-Stocked s n i d new.0.0 new.0.1 v)))
        (weaken (λ w q. q) (λ _ w q. subst (λ k. InTx t h (Stocked s k) w) (omega arith) q)
          (λ e w q. q) (insert_items-Stocked is (n + 1) new.1))

  prepare-Stocked :
      Stocked s 0 t
      → Triple
          (InTx t h (λ d. d ≡ t))
          (prepare (in_tx h))
          (λ _ w. InTx t h (Stocked s 0) w)
          (λ _ w. w.tables ≡ t)
  prepare-Stocked v =
      weaken (λ w q. q) (λ _ w q. Live-InTx t h (Stocked s 0) w q) (λ e w q. q.0)
        (run-Live t h (λ _ d'. Stocked s 0 d') (λ d. d ≡ t) (reading (λ now d. tt))
          (λ now d e. subst (Stocked s 0) (sym e) v))

pub create_items-Stocked :
    (s : Sale) (items : List Item)
    → All (NewFor s.id) items
    → Triple
        (λ w. Stocked s 0 w.tables)
        (create_items pool items)
        (λ _ w. Stocked s (length items) w.tables)
        (λ _ _. Unit {0})
unfolding create_items
create_items-Stocked s [] new = record { at = λ w v. v }
create_items-Stocked s (i ∷ is) new = record {
  at = λ w v.
      (weaken (λ w' e. e) (λ _ w' q. subst (λ k. Stocked s k w'.tables) (omega arith) q)
          (λ e w' q. tt)
          (in_own_tx_lem w.tables (Stocked s (0 + length (i ∷ is)))
            (λ tx. prepare tx >> insert_items tx (i ∷ is))
            (λ h.
              Triple-then (InTx w.tables h (Stocked s 0)) (prepare (in_tx h))
                (insert_items (in_tx h) (i ∷ is)) (prepare-Stocked s w.tables h v)
                (insert_items-Stocked s w.tables h (i ∷ is) 0 new)))).at
        w refl;
}
