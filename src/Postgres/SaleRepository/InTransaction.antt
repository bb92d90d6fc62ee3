-- ===== src/Postgres/SaleRepository/InTransaction.antt =====
-- The methods of the repository inside a transaction, in terms of the transaction's copy of the
-- tables.
use flashsale_service.Domain.PurchaseService.{PurchaseResult}
use flashsale_service.Domain.Sale.{Sale}
use flashsale_service.Postgres.Stock.{KeepsSold}
use flashsale_service.Effect.{M, ignore, pure, ◌>>=◌}
use flashsale_service.Postgres.Stock.Sell.{rows_affected-le-one}
use flashsale_service.Postgres.Query.{find_item, find_sale, find_result, rows_affected}
use flashsale_service.Postgres.Stock.Books.{
  IsItemOf, Selling, Selling-sell, IsConsistent, Selling-none, SoldMore, with_sold, Recorded,
  Selling-update, find_result-insert_result,
}
use flashsale_service.Errors.{Error, domain, item_not_found, sale_not_found}
use flashsale_service.Postgres.Rules.{
  InTx, Live, Dead, run-Live, InTx-map, Dead-InTx, Live-InTx, Triple-commit,
}
use flashsale_service.Postgres.Store.{Tables, run, in_tx, Store}
use mathlib.Core.Path.{subst}
use flashsale_service.Prelude.{
  ℕ, ◌≡◌, refl, String, Bool, Option, if◌then◌else◌, ◌≤◌, suc, some, ◌+◌, ltb, arith, none, true,
  false, ◌⊎◌,
}
use flashsale_service.Effect.Triple.{Triple, Triple-bind, weaken, Triple-then, Triple-ignore}
use flashsale_service.Postgres.SaleRepository.{
  get_item_by_id, or_not_found, reading, sell_statement, get_sale_by_id, get_purchase_result,
  mark_item_as_sold, update_sale, save_purchase_result, when_sold, update_statement, save_statement,
  commit_tx,
}

abbrev pub sold_one : Bool → ℕ → ℕ
sold_one b k = if b then suc k else k

module _ (t : Tables) (h : ℕ) where
  abbrev Fresh : Tables → Type 0
  Fresh d = d ≡ t

  -- A query of an untouched transaction sees the committed tables.
  reads :
      {A : Type 0} (f : ℕ → Tables → A) (X : A → Type 0)
      → ((now : ℕ) → X (f now t))
      → Triple
          (InTx t h Fresh)
          (run (in_tx h) (reading f))
          (λ a. Live t h (λ d. Fresh d × X a))
          (λ _. Dead t h)
  reads f X x = run-Live t h (λ a d. Fresh d × X a) Fresh (reading f) (λ now d e. (e, rw e (x now)))

  Triple-or_not_found :
      {A : Type 0} (e : Error) (o : Option A) (X : Option A → Type 0)
      → Triple
          (Live t h (λ d. Fresh d × X o))
          (or_not_found e o)
          (λ a. Live t h (λ d. Fresh d × X (some a)))
          (λ _. InTx t h Fresh)
  Triple-or_not_found e none X = record {
    at = λ s p. InTx-map t h s (λ d q. q.0) (Live-InTx t h _ s p);
  }
  Triple-or_not_found e (some a) X = record { at = λ s p. p }

  pub Triple-get_item_by_id :
      (id : String)
      → Triple
          (InTx t h Fresh)
          (get_item_by_id (in_tx h) id)
          (λ i. Live t h (λ d. Fresh d × (find_item id t.items ≡ some i)))
          (λ _. InTx t h Fresh)
  unfolding get_item_by_id
  Triple-get_item_by_id id =
      Triple-bind (λ o. Live t h (λ d. Fresh d × (find_item id t.items ≡ o))) _ _
        (weaken (λ s p. p) (λ a s p. p) (λ e s p. Dead-InTx t h _ s p)
          (reads (λ now d. find_item id d.items) (λ o. find_item id t.items ≡ o) (λ now. refl)))
        (λ o. Triple-or_not_found (domain item_not_found) o (λ o. find_item id t.items ≡ o))

  pub Triple-get_sale_by_id :
      (id : String)
      → Triple
          (InTx t h Fresh)
          (get_sale_by_id (in_tx h) id)
          (λ s. Live t h (λ d. Fresh d × (find_sale id t.sales ≡ some s)))
          (λ _. InTx t h Fresh)
  unfolding get_sale_by_id
  Triple-get_sale_by_id id =
      Triple-bind (λ o. Live t h (λ d. Fresh d × (find_sale id t.sales ≡ o))) _ _
        (weaken (λ s p. p) (λ a s p. p) (λ e s p. Dead-InTx t h _ s p)
          (reads (λ now d. find_sale id d.sales) (λ o. find_sale id t.sales ≡ o) (λ now. refl)))
        (λ o. Triple-or_not_found (domain sale_not_found) o (λ o. find_sale id t.sales ≡ o))

  pub Triple-get_purchase_result :
      (code : String)
      → Triple
          (InTx t h Fresh)
          (get_purchase_result (in_tx h) code)
          (λ r. Live t h (λ d. Fresh d × (find_result code t.purchase_results ≡ r)))
          (λ _. Dead t h)
  unfolding get_purchase_result
  Triple-get_purchase_result code =
      reads (λ now d. find_result code d.purchase_results)
        (λ o. find_result code t.purchase_results ≡ o) (λ now. refl)

  -- A query changes nothing, whatever it asks.
  reading_keeps :
      {A : Type 0} (R : Tables → Type 0) (f : ℕ → Tables → A)
      → Triple
          (InTx t h R)
          (do _ ← run (in_tx h) (reading f); pure tt)
          (λ _. InTx t h R)
          (λ _. InTx t h R)
  reading_keeps R f =
      Triple-bind (λ _. Live t h R) (run (in_tx h) (reading f)) (λ _. pure tt)
        (weaken (λ s p. p) (λ a s p. p) (λ e s p. Dead-InTx t h R s p)
          (run-Live t h (λ _. R) R (reading f) (λ now d r. r)))
        (λ _. record { at = λ s p. Live-InTx t h R s p })

  Triple-when_sold :
      (R : Bool → Tables → Type 0) (b : Bool) (m : M Store (Unit {0}))
      → Triple (InTx t h (R true)) m (λ _. InTx t h (R true)) (λ _. InTx t h (R true))
      → Triple (Live t h (R b)) (when_sold b m) (λ b'. InTx t h (R b')) (λ _. Dead t h)
  Triple-when_sold R false m k = record { at = λ s p. Live-InTx t h (R false) s p }
  Triple-when_sold R true m k =
      Triple-then (InTx t h (R true)) (ignore m) (pure true)
        (Triple-ignore (InTx t h (R true)) m
          (weaken (λ s p. Live-InTx t h (R true) s p) (λ a s p. p) (λ e s p. p) k))
        (record { at = λ s p. p })

  after_mark :
      (sale_id id user_id : String) (k n : ℕ) (d : Tables)
      → n ≤ 1
      → Selling sale_id (k + n) t d
      → Selling sale_id (sold_one (ltb 0 n) k) t d
  after_mark sale_id id user_id k n d le s = subst (λ m. Selling sale_id m t d) (ground arith) s

  -- The statement sells at most one item, which is one more of the sale's.
  pub Triple-mark_item_as_sold :
      (sale_id id user_id : String) (k : ℕ)
      → IsItemOf sale_id id t.items
      → Triple
          (InTx t h (Selling sale_id k t))
          (mark_item_as_sold (in_tx h) id user_id)
          (λ b. InTx t h (Selling sale_id (sold_one b k) t))
          (λ _. Dead t h)
  unfolding mark_item_as_sold
  Triple-mark_item_as_sold sale_id id user_id k of_sale =
      Triple-bind (λ n. Live t h (Selling sale_id (sold_one (ltb 0 n) k) t)) _ _
        (run-Live t h (λ n. Selling sale_id (sold_one (ltb 0 n) k) t) (Selling sale_id k t)
          (sell_statement id user_id)
          (λ now d s.
            after_mark sale_id id user_id k (rows_affected id d.items) _
              (rows_affected-le-one id user_id now d.items s.unique)
              (Selling-sell sale_id id user_id now k t d of_sale s)))
        (λ n.
          Triple-when_sold (λ b. Selling sale_id (sold_one b k) t) (ltb 0 n) _
            (reading_keeps (Selling sale_id (suc k) t) _))

  -- The count of the sale's row is written beside the items: the rows agree.
  pub record Agreed (sale_id : String) (k : ℕ) (d : Tables) : Type 0 where
    pub consistent : IsConsistent d
    pub keeps : KeepsSold t.items d.items
    pub counts : SoldMore sale_id k t.items d.items
    pub results : d.purchase_results ≡ t.purchase_results

  pub Triple-update_sale :
      (sale_id : String) (k : ℕ) (s : Sale)
      → IsConsistent t
      → find_sale sale_id t.sales ≡ some s
      → Triple
          (InTx t h (Selling sale_id k t))
          (update_sale (in_tx h) (with_sold s k))
          (λ _. InTx t h (Agreed sale_id k))
          (λ _. Dead t h)
  unfolding update_sale
  Triple-update_sale sale_id k s c found =
      weaken (λ s p. p) (λ a s p. Live-InTx t h _ s p) (λ e s p. p)
        (run-Live t h (λ _. Agreed sale_id k) (Selling sale_id k t)
          (update_statement (with_sold s k))
          (λ now d sel. record {
            consistent = record {
              unique = sel.unique;
              agree = Selling-update sale_id k t d s c found sel;
            };
            keeps = sel.keeps;
            counts = sel.counts;
            results = sel.results;
          }))

  pub Selling-Agreed :
      (sale_id : String) (d : Tables) → IsConsistent t → Selling sale_id 0 t d → Agreed sale_id 0 d
  Selling-Agreed sale_id d c sel = record {
    consistent = Selling-none sale_id t d c sel;
    keeps = sel.keeps;
    counts = sel.counts;
    results = sel.results;
  }

  pub Triple-save_purchase_result :
      (code sale_id : String) (k : ℕ) (r : PurchaseResult)
      → find_result code t.purchase_results ≡ none
      → Triple
          (InTx t h (Agreed sale_id k))
          (save_purchase_result (in_tx h) code r)
          (λ _. InTx t h (Recorded code sale_id k r t))
          (λ _. Dead t h)
  unfolding save_purchase_result
  Triple-save_purchase_result code sale_id k r fresh =
      weaken (λ s p. p) (λ a s p. Live-InTx t h _ s p) (λ e s p. p)
        (run-Live t h (λ _. Recorded code sale_id k r t) (Agreed sale_id k) (save_statement code r)
          (λ now d a. record {
            consistent = record { unique = a.consistent.unique; agree = a.consistent.agree };
            keeps = a.keeps;
            counts = a.counts;
            fresh = fresh;
            result = find_result-insert_result code r d.purchase_results (rw a.results fresh);
          }))

  pub Triple-commit_tx :
      (R : Tables → Type 0)
      → Triple
          (InTx t h R)
          (commit_tx (in_tx h))
          (λ _ s. R s.tables)
          (λ _ s. (s.tables ≡ t) ⊎ R s.tables)
  unfolding commit_tx
  Triple-commit_tx R = Triple-commit t h R
