-- ===== src/Scheduler/Books.antt =====
-- The scheduler keeps the books.
use flashsale_service.Postgres.Pool.{Triple-get_active_sale}
use mathlib.Core.Path.{subst}
use flashsale_service.Postgres.Query.{insert_sale, insert_item}
use flashsale_service.Postgres.OwnTransaction.{in_own_tx_lem}
use flashsale_service.Domain.Sale.{Sale}
use flashsale_service.Postgres.Rules.{StatementPost, InTx, Live-InTx, run-Live}
use flashsale_service.Domain.Item.{new_item, Item}
use flashsale_service.Postgres.Stock.Create.{Valid, insert_item-Valid, insert_sale-Valid}
use flashsale_service.Effect.{Result, ok, err, ◌>>◌, attempt}
use flashsale_service.Effect.Triple.{Triple, Post, weaken, Triple-then, Triple-bind, Triple-attempt}
use flashsale_service.Scheduler.{
  drawn_items, create_hourly, Drawn, create_sale_if_needed, hourly_sale, unless_active,
}
use flashsale_service.Postgres.SaleRepository.{
  create_items, create_sale, insert_items, get_active_sale, create_item, prepare, reading,
}
use flashsale_service.Prelude.{
  ◌≡◌, refl, String, ℕ, List, ◌⊎◌, ℤ, All, pos, inl, false, ◌∷◌, suc, ◌+◌, pos_part, zero, [], sym,
  inr,
}
use flashsale_service.Postgres.Store.{
  answered, failed, reply_lost, on_pool, run, Tables, Answer, Statement, Store, pool, next_answer,
  in_tx, advance,
}

-- A statement that keeps `Valid` keeps it on the pool, however it is answered.
on_pool-Valid :
    {A : Type 0} (a : Answer) (r : Result (A × Tables)) (s : Store)
    → StatementPost (λ _ d. Valid d) r
    → Valid s.tables
    → Post {A = A} (λ _ s'. Valid s'.tables) (λ _ s'. Valid s'.tables) (on_pool a r s)
unfolding on_pool
on_pool-Valid answered (ok (a, d)) s q v = q
on_pool-Valid answered (err e) s q v = v
on_pool-Valid failed r s q v = v
on_pool-Valid reply_lost (ok (a, d)) s q v = q
on_pool-Valid reply_lost (err e) s q v = v

pub run-Valid :
    {A : Type 0} (q : Statement A)
    → ((now : ℕ) (d : Tables) → Valid d → StatementPost (λ _ d'. Valid d') (q now d))
    → Triple (λ s. Valid s.tables) (run pool q) (λ _ s. Valid s.tables) (λ _ s. Valid s.tables)
unfolding run
run-Valid q keeps = record {
  at = λ s v.
      on_pool-Valid (next_answer s) (q s.clock s.tables) (advance s) (keeps s.clock s.tables v) v;
}

module _ (t : Tables) (h : ℕ) where
  insert_items-Valid :
      (items : List Item)
      → All (λ i. i.sold ≡ false) items
      → Triple
          (InTx t h Valid)
          (insert_items (in_tx h) items)
          (λ _ s. InTx t h Valid s)
          (λ _ s. s.tables ≡ t)
  unfolding insert_items create_item
  insert_items-Valid [] unsold = record { at = λ s q. q }
  insert_items-Valid (i ∷ is) unsold =
      Triple-then (InTx t h Valid) (create_item (in_tx h) i) (insert_items (in_tx h) is)
        (weaken (λ s q. q) (λ _ s q. Live-InTx t h Valid s q) (λ e s q. q.0)
          (run-Live t h (λ _ d'. Valid d') Valid (λ now d. insert_item i d)
            (λ now d v. insert_item-Valid i d unsold.0 v)))
        (insert_items-Valid is unsold.1)

  prepare-Valid :
      Valid t
      → Triple
          (InTx t h (λ d. d ≡ t))
          (prepare (in_tx h))
          (λ _ s. InTx t h Valid s)
          (λ _ s. s.tables ≡ t)
  prepare-Valid v =
      weaken (λ s q. q) (λ _ s q. Live-InTx t h Valid s q) (λ e s q. q.0)
        (run-Live t h (λ _ d'. Valid d') (λ d. d ≡ t) (reading (λ now d. tt))
          (λ now d e. subst Valid (sym e) v))

either-Valid : (t d : Tables) → Valid t → (d ≡ t) ⊎ Valid d → Valid d
either-Valid t d v (inl e) = subst Valid (sym e) v
either-Valid t d v (inr w) = w

pub create_items-Valid :
    (items : List Item)
    → All (λ i. i.sold ≡ false) items
    → Triple
        (λ s. Valid s.tables)
        (create_items pool items)
        (λ _ s. Valid s.tables)
        (λ _ s. Valid s.tables)
unfolding create_items
create_items-Valid [] unsold = record { at = λ s v. v }
create_items-Valid (i ∷ is) unsold = record {
  at = λ s v.
      (weaken (λ s' e. e) (λ _ s' q. q) (λ e s' q. either-Valid s.tables s'.tables v q)
          (in_own_tx_lem s.tables Valid (λ tx. prepare tx >> insert_items tx (i ∷ is))
            (λ h.
              Triple-then (InTx s.tables h Valid) (prepare (in_tx h))
                (insert_items (in_tx h) (i ∷ is)) (prepare-Valid s.tables h v)
                (insert_items-Valid s.tables h (i ∷ is) unsold)))).at
        s refl;
}

pub drawn_items-unsold :
    (sale_id : String) (draw : ℕ → Drawn) (i left : ℕ)
    → All (λ x. x.sold ≡ false) (drawn_items sale_id draw i left)
unfolding drawn_items new_item
drawn_items-unsold sale_id draw i zero = tt
drawn_items-unsold sale_id draw i (suc left) = (refl, drawn_items-unsold sale_id draw (i + 1) left)

create_hourly-Valid :
    (s : Sale) (items : List Item)
    → s.items_sold ≡ pos 0
    → All (λ i. i.sold ≡ false) items
    → Triple
        (λ w. Valid w.tables)
        (create_hourly s items)
        (λ _ w. Valid w.tables)
        (λ _ w. Valid w.tables)
unfolding create_hourly create_sale
create_hourly-Valid s items none_sold unsold =
    Triple-then (λ w. Valid w.tables) (create_sale pool s) (create_items pool items)
      (run-Valid (λ now d. insert_sale s d) (λ now d v. insert_sale-Valid s d none_sold v))
      (create_items-Valid items unsold)

pub looked-Valid :
    Triple
      (λ w. Valid w.tables)
      (get_active_sale pool)
      (λ _ w. Valid w.tables)
      (λ _ w. Valid w.tables)
looked-Valid = record {
  at = λ s v.
      (weaken (λ s' e. e) (λ _ s' q. subst Valid (sym q.0) v) (λ e s' q. subst Valid (sym q) v)
          (Triple-get_active_sale s.tables)).at
        s refl;
}

unless_active-Valid :
    (s : Sale) (items : List Item) (found : Result Sale)
    → s.items_sold ≡ pos 0
    → All (λ i. i.sold ≡ false) items
    → Triple
        (λ w. Valid w.tables)
        (unless_active s items found)
        (λ _ w. Valid w.tables)
        (λ _ w. Valid w.tables)
unfolding unless_active
unless_active-Valid s items (ok _) none_sold unsold = record { at = λ w v. v }
unless_active-Valid s items (err _) none_sold unsold = create_hourly-Valid s items none_sold unsold

kept :
    (sale_id : String) (started_at now : ℕ) (total_items : ℤ) (draw : ℕ → Drawn)
    → Triple
        (λ w. Valid w.tables)
        (create_sale_if_needed sale_id started_at now total_items draw)
        (λ _ w. Valid w.tables)
        (λ _ w. Valid w.tables)
unfolding create_sale_if_needed hourly_sale
kept sale_id started_at now total_items draw =
    let s = hourly_sale sale_id started_at now total_items in
    let items = drawn_items sale_id draw 0 (pos_part total_items) in
    Triple-bind (λ _ w. Valid w.tables) (attempt (get_active_sale pool)) (unless_active s items)
      (Triple-attempt (λ _ w. Valid w.tables) (get_active_sale pool) looked-Valid)
      (λ found.
        unless_active-Valid s items found refl
          (drawn_items-unsold sale_id draw 0 (pos_part total_items)))

Post-Valid :
    (x : Result (Unit {0}) × Store)
    → Post {A = Unit {0}} (λ _ w. Valid w.tables) (λ _ w. Valid w.tables) x
    → Valid x.1.tables
Post-Valid (ok _, s) v = v
Post-Valid (err _, s) v = v

-- From tables whose books agree and whose items belong to sales of the table, whatever is drawn
-- and whatever the server answers: after the scheduler has created a sale, failed to, or found one
-- active, the books still agree and items belong to sales of the table.
pub create_sale_if_needed-Valid :
    (sale_id : String) (started_at now : ℕ) (total_items : ℤ) (draw : ℕ → Drawn) (s : Store)
    → Valid s.tables
    → Valid (create_sale_if_needed sale_id started_at now total_items draw s).1.tables
create_sale_if_needed-Valid sale_id started_at now total_items draw s v =
    Post-Valid (create_sale_if_needed sale_id started_at now total_items draw s)
      ((kept sale_id started_at now total_items draw).at s v)
