-- ===== src/Postgres/Sure.antt =====
-- What succeeds when every statement is answered: triples whose error can not occur.
use flashsale_service.Prelude.{ℕ, ◌≡◌, ap, String, some, none, ◌≤◌, true, ltb, arith, Option, ◌+◌}
use flashsale_service.Prelude.{refl}
use mathlib.Core.Option
use flashsale_service.Postgres.SaleRepository.{update_statement, save_statement, when_sold}
use flashsale_service.Effect.{err, ignore, pure, ◌>>=◌, ok, err, M}
use flashsale_service.Effect.Triple.{
  Triple, Post, Triple-ignore, Triple-bind, Triple-then, Triple-fact, weaken,
}
use flashsale_service.Errors.{Error, domain, item_not_found, sale_not_found}
use flashsale_service.Domain.Item.{Item}
use flashsale_service.Domain.Sale.{Sale}
use flashsale_service.Domain.PurchaseService.{PurchaseResult}
use flashsale_service.Postgres.Query.{
  find_item, find_sale, find_result, sell_rows, rows_affected, update_sales, insert_result,
}
use flashsale_service.Postgres.Rules.{LiveHolds, tx_lookup}
use flashsale_service.Postgres.SaleRepository.{
  get_item_by_id, get_sale_by_id, get_purchase_result, save_purchase_result, update_sale,
  mark_item_as_sold, begin_tx, commit_tx, reading, or_not_found, sell_statement,
}
use flashsale_service.Postgres.Store.{
  failed, reply_lost, connection_lost, answered, active, aborted, closed, Tables, Store, Statement,
  TxState, Answer, run, on_tx, at_tx, in_tx, pool, advance, set_tx, begin, commit, commit_state,
}

-- The error that can not occur.
abbrev pub Never : {W : Type 0} → Error → W → Type 0
Never _ _ = ⊥

-- The committed tables are `t`, every statement is answered.
abbrev pub AllUp : Tables → Store → Type 0
AllUp t s = ((n : ℕ) → s.answers n ≡ answered) × (s.tables ≡ t)

-- The transaction is open, and `R` holds of its copy.
abbrev pub InUp : Tables → ℕ → (Tables → Type 0) → Store → Type 0
InUp t h R s = AllUp t s × LiveHolds R (s.txs h)

-- Whatever the tables.
abbrev pub Any : Tables → Type 0
Any _ = Unit

module _ (t : Tables) (h : ℕ) where
  -- A statement that has no error.
  pub sure-run :
      {A : Type 0} {R R' : Tables → Type 0} {X : A → Type 0} (q : Statement A)
      → ((now : ℕ) (d : Tables)
          → R d
          → (x : A) × (d' : Tables) × (q now d ≡ ok (x, d')) × R' d' × X x)
      → Triple (InUp t h R) (run (in_tx h) q) (λ a s. InUp t h R' s × X a) Never
  unfolding run at_tx on_tx
  sure-run {A} {R} {R'} {X} q step = record { at = λ s p. by s (s.txs h) p.0 p.1 }
    where
      by :
          (s : Store) (y : TxState)
          → AllUp t s
          → LiveHolds R y
          → Post (λ a s'. InUp t h R' s' × X a) Never (at_tx h y q s)
      by s (active d) up live =
          let (x, d', e, live', fact) = step s.clock d live in
          rw (up.0 s.tick, e) ((up, rw (tx_lookup (advance s) h (active d')) live'), fact)
      by s aborted up live = absurd live
      by s closed up live = absurd live

  -- A statement that only reads.
  pub sure-read :
      {A : Type 0} {R : Tables → Type 0} (f : ℕ → Tables → A) (x : A)
      → ((now : ℕ) (d : Tables) → R d → f now d ≡ x)
      → Triple (InUp t h R) (run (in_tx h) (reading f)) (λ a s. InUp t h R s × (a ≡ x)) Never
  sure-read f x reads =
      sure-run {X = λ a. a ≡ x} (reading f)
        (λ now d r. (x, d, ap (λ a. ok (a, d)) (reads now d r), r, refl))

  pub sure-get_item_by_id :
      {R : Tables → Type 0} (id : String) (i : Item)
      → ((d : Tables) → R d → find_item id d.items ≡ some i)
      → Triple (InUp t h R) (get_item_by_id (in_tx h) id) (λ a s. InUp t h R s × (a ≡ i)) Never
  unfolding get_item_by_id
  sure-get_item_by_id {R} id i found =
      Triple-bind (λ row s. InUp t h R s × (row ≡ some i))
        (run (in_tx h) (reading (λ now d. find_item id d.items)))
        (or_not_found (domain item_not_found))
        (sure-read (λ now d. find_item id d.items) (some i) (λ now d r. found d r))
        (λ row. Triple-fact (λ e. rw e (record { at = λ s p. (p, refl) })))

  pub sure-get_sale_by_id :
      {R : Tables → Type 0} (id : String) (x : Sale)
      → ((d : Tables) → R d → find_sale id d.sales ≡ some x)
      → Triple (InUp t h R) (get_sale_by_id (in_tx h) id) (λ a s. InUp t h R s × (a ≡ x)) Never
  unfolding get_sale_by_id
  sure-get_sale_by_id {R} id x found =
      Triple-bind (λ row s. InUp t h R s × (row ≡ some x))
        (run (in_tx h) (reading (λ now d. find_sale id d.sales)))
        (or_not_found (domain sale_not_found))
        (sure-read (λ now d. find_sale id d.sales) (some x) (λ now d r. found d r))
        (λ row. Triple-fact (λ e. rw e (record { at = λ s p. (p, refl) })))

  pub sure-get_purchase_result :
      {R : Tables → Type 0} (code : String)
      → ((d : Tables) → R d → find_result code d.purchase_results ≡ none)
      → Triple
          (InUp t h R)
          (get_purchase_result (in_tx h) code)
          (λ a s. InUp t h R s × (a ≡ none))
          Never
  unfolding get_purchase_result
  sure-get_purchase_result code absent =
      sure-read (λ now d. find_result code d.purchase_results) none (λ now d r. absent d r)

  pub sure-update_sale :
      (x : Sale) → Triple (InUp t h Any) (update_sale (in_tx h) x) (λ _. InUp t h Any) Never
  unfolding update_sale
  sure-update_sale x =
      weaken (λ s p. p) (λ _ s p. p.0) (λ e s p. p)
        (sure-run {R = Any} {R' = Any} {X = λ _. Unit {0}} (update_statement x)
          (λ now d r. (tt, record d { sales = update_sales x d.sales }, refl, tt, tt)))

  pub sure-save_purchase_result :
      (code : String) (r : PurchaseResult)
      → Triple (InUp t h Any) (save_purchase_result (in_tx h) code r) (λ _. InUp t h Any) Never
  unfolding save_purchase_result
  sure-save_purchase_result code r =
      weaken (λ s p. p) (λ _ s p. p.0) (λ e s p. p)
        (sure-run {R = Any} {R' = Any} {X = λ _. Unit {0}} (save_statement code r) (λ now d q. (
          tt,
          record d { purchase_results = insert_result code r d.purchase_results },
          refl,
          tt,
          tt,
        )))

  pub sure-mark_item_as_sold :
      {R R' : Tables → Type 0} (id user_id : String)
      → ((d : Tables) → R d → 1 ≤ rows_affected id d.items)
      → ((now : ℕ) (d : Tables) → R d → R' (record d { items = sell_rows id user_id now d.items }))
      → Triple
          (InUp t h R)
          (mark_item_as_sold (in_tx h) id user_id)
          (λ a s. InUp t h R' s × (a ≡ true))
          Never
  unfolding mark_item_as_sold
  sure-mark_item_as_sold {R} {R'} id user_id some_row sold =
      Triple-bind (λ n s. InUp t h R' s × (1 ≤ n)) (run (in_tx h) (sell_statement id user_id))
        (λ affected. when_sold (ltb 0 affected) (
          run (in_tx h) (reading (λ now d. Option.map (λ i. i.sale_id) (find_item id d.items)))
          >>= λ _. pure tt))
        (sure-run (sell_statement id user_id) (λ now d r. (
          rows_affected id d.items,
          record d { items = sell_rows id user_id now d.items },
          refl,
          sold now d r,
          some_row d r,
        )))
        (λ affected. Triple-fact (λ positive. rw (ltb_positive affected positive) (
          Triple-then (InUp t h R') (ignore sale_of) (pure true)
            (Triple-ignore (InUp t h R') sale_of (
              weaken (λ s p. p) (λ _ s p. p) (λ e s p. absurd p)
                (Triple-bind (λ _. InUp t h R') (run (in_tx h) (reading sold_item)) (λ _. pure tt)
                  (weaken (λ s p. p) (λ _ s p. p.0) (λ e s p. p)
                    (sure-run {R = R'} {R' = R'} {X = λ _. Unit {0}} (reading sold_item)
                      (λ now d r. (sold_item now d, d, refl, r, tt))))
                  (λ _. record { at = λ s p. p }))))
            (record { at = λ s p. (p, refl) }))))
    where
      sold_item : ℕ → Tables → Option String
      sold_item now d = Option.map (λ i. i.sale_id) (find_item id d.items)

      sale_of : M Store (Unit {0})
      sale_of =
          run (in_tx h) (reading (λ now d. Option.map (λ i. i.sale_id) (find_item id d.items)))
          >>= λ _. pure tt

      ltb_positive : (n : ℕ) → 1 ≤ n → ltb 0 n ≡ true
      ltb_positive n p = ground (arith, p)

  pub sure-commit_tx : Triple (InUp t h Any) (commit_tx (in_tx h)) (λ _ _. Unit {0}) Never
  unfolding commit_tx commit commit_state
  sure-commit_tx = record { at = λ s p. by s (s.txs h) p.0 p.1 }
    where
      by :
          (s : Store) (y : TxState)
          → AllUp t s
          → LiveHolds Any y
          → Post {A = Unit {0}} (λ _ _. Unit {0}) Never (commit_state h y s)
      by s (active d) up live = rw (Post, up.0 s.tick) tt
      by s aborted up live = absurd live
      by s closed up live = absurd live

module _ (t : Tables) where
  sure-begin : Triple (AllUp t) begin (λ h s. InUp t h (λ d. d ≡ t) s) Never
  unfolding begin
  sure-begin = record { at = λ s up. by s (s.answers s.tick) (up.0 s.tick) up }
    where
      by :
          (s : Store) (a : Answer)
          → a ≡ answered
          → AllUp t s
          → Post
              (λ h s'. InUp t h (λ d. d ≡ t) s')
              Never
              (elim a [
                | answered ↦ (
                  ok s.next_tx,
                  record (set_tx (advance s) s.next_tx (active s.tables)) {
                    next_tx = s.next_tx + 1;
                  },
                )
                | _ ↦ (err connection_lost, advance s)
              ])
      by s answered e up = (up, rw (tx_lookup (advance s) s.next_tx (active s.tables)) up.1)
      by s failed e up = cc
      by s reply_lost e up = cc

  pub sure-begin_tx :
      Triple
        (AllUp t)
        (begin_tx pool)
        (λ tx s. (h : ℕ) × (tx ≡ in_tx h) × InUp t h (λ d. d ≡ t) s)
        Never
  unfolding begin_tx
  sure-begin_tx =
      Triple-bind (λ h s. InUp t h (λ d. d ≡ t) s) begin (λ h. pure (in_tx h)) sure-begin
        (λ h. record { at = λ s p. (h, refl, p) })
