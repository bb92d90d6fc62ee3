-- ===== src/Postgres/Store.antt =====
-- The tables of migrations/000001 that a purchase transaction works on, the transactions that
-- `database/sql` has open, and the ways in which a statement can end.
pub use flashsale_service.Effect.Answer.{Answer, answered, failed, reply_lost, connection_lost}
use flashsale_service.Prelude.{ℕ, ◌+◌, String, List, ◌=ℕ=◌, if◌then◌else◌}
use flashsale_service.Errors.{external}
use flashsale_service.Effect.{Result, ok, err, M}
use flashsale_service.Domain.Sale.{Sale}
use flashsale_service.Domain.Item.{Item}
use flashsale_service.Domain.PurchaseService.{PurchaseResult}

-- Rows of `checkout_attempts` and `checkout_items`.
pub record AttemptRow : Type 0 where
  pub id : String
  pub checkout_code : String
  pub sale_id : String
  pub user_id : String
  pub created_at : ℕ

pub record EntryRow : Type 0 where
  pub id : String
  pub checkout_attempt_id : String
  pub item_id : String
  pub added_at : ℕ

-- `Purchase` of purchase_repository.go; its `CreatedAt` is no column and no query fills it.
pub record Purchase : Type 0 where
  pub id : String
  pub sale_id : String
  pub user_id : String
  pub item_id : String
  pub checkout_code : String
  pub purchased_at : ℕ

-- A row of another table has the columns of the record that it is read into.
pub record Tables : Type 0 where
  pub sales : List Sale
  pub items : List Item
  pub purchase_results : List (String × PurchaseResult)
  pub attempts : List AttemptRow
  pub entries : List EntryRow
  pub purchases : List Purchase

-- A transaction works on its own copy of the tables. After an error the server refuses its
-- statements; `closed` is a transaction that was committed or rolled back, or never begun.
pub data TxState : Type 0 where
  active : Tables → TxState
  aborted closed : TxState

pub record Store : Type 0 where
  pub tables : Tables
  pub txs : ℕ → TxState
  pub next_tx : ℕ
  -- the answer to the n-th statement, which the environment chooses
  pub answers : ℕ → Answer
  pub tick : ℕ
  pub clock : ℕ

-- `SaleRepository{db, tx, isTx}`: on the pool of connections, or inside a transaction.
pub data Repo : Type 0 where
  pool : Repo
  in_tx : ℕ → Repo

abbrev pub set_tx : Store → ℕ → TxState → Store
set_tx s h t = record s { txs = λ j. if j =ℕ= h then t else s.txs j }

abbrev pub next_answer : Store → Answer
next_answer s = s.answers s.tick

abbrev pub advance : Store → Store
advance s = record s { tick = s.tick + 1 }

-- What a statement does to the tables, given the server's time: rows and new tables, or a
-- violated constraint.
abbrev pub Statement : Type 0 → Type 0
Statement A = ℕ → Tables → Result (A × Tables)

module _ {A : Type 0} where
  -- Outside a transaction a statement commits by itself.
  unfoldable pub on_pool : Answer → Result (A × Tables) → M Store A
  on_pool failed r s = (err connection_lost, s)
  on_pool answered (err e) s = (err e, s)
  on_pool answered (ok (a, d)) s = (ok a, record s { tables = d })
  on_pool reply_lost (err e) s = (err connection_lost, s)
  on_pool reply_lost (ok (a, d)) s = (err connection_lost, record s { tables = d })

  -- Inside one it changes the transaction's copy, and an error aborts the transaction.
  unfoldable pub on_tx : ℕ → Answer → Result (A × Tables) → M Store A
  on_tx h answered (ok (a, d)) s = (ok a, set_tx s h (active d))
  on_tx h answered (err e) s = (err e, set_tx s h aborted)
  on_tx h failed r s = (err connection_lost, set_tx s h aborted)
  on_tx h reply_lost r s = (err connection_lost, set_tx s h aborted)

  unfoldable pub at_tx : ℕ → TxState → Statement A → M Store A
  at_tx h (active d) q s = on_tx h (next_answer s) (q s.clock d) (advance s)
  at_tx h aborted q s = (err (external "current transaction is aborted"), s)
  at_tx h closed q s =
      (err (external "sql: transaction has already been committed or rolled back"), s)

  -- `QueryContext` and `ExecContext`, on `r.tx` or on `r.db`.
  unfoldable pub run : Repo → Statement A → M Store A
  unfolding on_pool on_tx at_tx
  run pool q s = on_pool (next_answer s) (q s.clock s.tables) (advance s)
  run (in_tx h) q s = at_tx h (s.txs h) q s

-- `db.BeginTx`: a serializable transaction starts from what is committed.
unfoldable pub begin : M Store ℕ
begin s = elim (next_answer s) [
  | answered ↦ (
    ok s.next_tx,
    record (set_tx (advance s) s.next_tx (active s.tables)) { next_tx = s.next_tx + 1 },
  )
  | _ ↦ (err connection_lost, advance s)
]

-- `tx.Commit`. The transactions are run one after the other, so that what was committed when
-- this one began is still there. An aborted transaction is rolled back.
unfoldable pub commit_state : ℕ → TxState → M Store (Unit {0})
commit_state h (active d) s = elim (next_answer s) [
  | answered ↦ (ok tt, record (set_tx (advance s) h closed) { tables = d })
  | failed ↦ (err connection_lost, set_tx (advance s) h closed)
  | reply_lost ↦ (err connection_lost, record (set_tx (advance s) h closed) { tables = d })
]
commit_state h aborted s =
    (err (external "pq: Could not complete operation in a failed transaction"), set_tx s h closed)
commit_state h closed s =
    (err (external "sql: transaction has already been committed or rolled back"), s)

unfoldable pub commit : ℕ → M Store (Unit {0})
unfolding commit_state
commit h s = commit_state h (s.txs h) s

unfoldable pub rollback_state : ℕ → TxState → M Store (Unit {0})
rollback_state h (active d) s = (ok tt, set_tx s h closed)
rollback_state h aborted s = (ok tt, set_tx s h closed)
rollback_state h closed s =
    (err (external "sql: transaction has already been committed or rolled back"), s)

unfoldable pub rollback : ℕ → M Store (Unit {0})
unfolding rollback_state
rollback h s = rollback_state h (s.txs h) s
