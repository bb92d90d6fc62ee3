-- ===== src/Postgres/CheckoutRepository.antt =====
-- internal/infrastructure/persistence/postgres/checkout_repository.go. `draw` is what
-- `GenerateCheckoutID` answers: random bytes, or the empty text. Metrics are left out.
pub mod Listing
pub mod Deletion
mod Tests
use flashsale_service.Postgres.Query.{has_sale, has_item_row}
use flashsale_service.Postgres.SaleRepository.{in_own_tx, reading, or_not_found}
use flashsale_service.Domain.Checkout.{Checkout}
use flashsale_service.Errors.{Error, external, domain, checkout_not_found, item_already_in_checkout}
use flashsale_service.Postgres.Store.{
  AttemptRow, EntryRow, Tables, Repo, Statement, Store, run, pool,
}
use flashsale_service.Prelude.{
  ◌≡◌, refl, String, List, ℕ, Option, Bool, ◌∷◌, some, none, false, if◌then◌else◌, [], ltb, ◌==◌,
  leb, ◌||◌, ℤ, ◌&&◌, not, suc, ◌++◌, pos,
}
use flashsale_service.Effect.{◌>>=◌, ◌>>◌, M, Result, err, ok, pure, guard_not}

-- WHERE checkout_code = $1 ORDER BY created_at DESC LIMIT 1
abbrev pub later_attempt : AttemptRow → Option AttemptRow → Option AttemptRow
later_attempt a none = some a
later_attempt a (some b) = if ltb a.created_at b.created_at then some b else some a

unfoldable pub latest_attempt : String → List AttemptRow → Option AttemptRow
latest_attempt code [] = none
latest_attempt code (a ∷ rows) =
    let rest = latest_attempt code rows in
    if a.checkout_code == code then later_attempt a rest else rest

-- SELECT id FROM checkout_attempts WHERE checkout_code = $1: the first row that is scanned.
unfoldable pub first_attempt : String → List AttemptRow → Option String
first_attempt code [] = none
first_attempt code (a ∷ rows) =
    if a.checkout_code == code then some a.id else first_attempt code rows

-- JOIN checkout_attempts ca ON ci.checkout_attempt_id = ca.id WHERE ca.checkout_code = $1
unfoldable pub of_code : String → List AttemptRow → EntryRow → Bool
of_code code [] e = false
of_code code (a ∷ rows) e =
    (a.id == e.checkout_attempt_id && a.checkout_code == code) || of_code code rows e

-- ORDER BY ci.added_at, of the rows that the join selects.
unfoldable pub insert_by_added_at : EntryRow → List EntryRow → List EntryRow
insert_by_added_at e [] = e ∷ []
insert_by_added_at e (f ∷ fs) =
    if leb e.added_at f.added_at then e ∷ f ∷ fs else f ∷ insert_by_added_at e fs

unfoldable pub join_entries : String → List AttemptRow → List EntryRow → List EntryRow
unfolding of_code insert_by_added_at
join_entries code rows [] = []
join_entries code rows (e ∷ es) =
    let rest = join_entries code rows es in
    if of_code code rows e then insert_by_added_at e rest else rest

unfoldable pub item_ids : List EntryRow → List String
item_ids [] = []
item_ids (e ∷ es) = e.item_id ∷ item_ids es

unfoldable pub count_entries : String → String → List EntryRow → ℕ
count_entries attempt_id item_id [] = 0
count_entries attempt_id item_id (e ∷ es) =
    let rest = count_entries attempt_id item_id es in
    if e.checkout_attempt_id == attempt_id && e.item_id == item_id then suc rest else rest

unfoldable pub count_attempts : String → String → List AttemptRow → ℕ
count_attempts sale_id user_id [] = 0
count_attempts sale_id user_id (a ∷ rows) =
    let rest = count_attempts sale_id user_id rows in
    if a.sale_id == sale_id && a.user_id == user_id then suc rest else rest

unfoldable pub has_attempt : String → List AttemptRow → Bool
has_attempt id [] = false
has_attempt id (a ∷ rows) = a.id == id || has_attempt id rows

unfoldable pub has_entry : String → List EntryRow → Bool
has_entry id [] = false
has_entry id (e ∷ es) = e.id == id || has_entry id es

abbrev pub duplicate_key : Error
duplicate_key = external "duplicate key value violates unique constraint"

abbrev pub missing_key : Error
missing_key = external "insert violates foreign key constraint"

-- INSERT INTO checkout_attempts
unfoldable pub insert_attempt : AttemptRow → Tables → Result (Unit {0} × Tables)
insert_attempt a d =
    if has_attempt a.id d.attempts
    then err duplicate_key
    else if not (has_sale a.sale_id d.sales)
    then err missing_key
    else ok (tt, record d { attempts = d.attempts ++ a ∷ [] })

-- INSERT INTO checkout_items, where an attempt has an item once.
unfoldable pub insert_entry : EntryRow → Tables → Result (Unit {0} × Tables)
insert_entry e d =
    if has_entry e.id d.entries || ltb 0 (count_entries e.checkout_attempt_id e.item_id d.entries)
    then err duplicate_key
    else if not (has_attempt e.checkout_attempt_id d.attempts && has_item_row e.item_id d.items)
    then err missing_key
    else ok (tt, record d { entries = d.entries ++ e ∷ [] })

-- DELETE FROM checkout_attempts WHERE checkout_code = $1, and ON DELETE CASCADE.
unfoldable pub without_code : String → List AttemptRow → List AttemptRow
without_code code [] = []
without_code code (a ∷ rows) =
    if a.checkout_code == code then without_code code rows else a ∷ without_code code rows

unfoldable pub without_entries : String → List AttemptRow → List EntryRow → List EntryRow
without_entries code rows [] = []
without_entries code rows (e ∷ es) =
    if of_code code rows e then without_entries code rows es else e ∷ without_entries code rows es

abbrev pub delete_attempts : String → Tables → Tables
delete_attempts code d = record d {
  attempts = without_code code d.attempts;
  entries = without_entries code d.attempts d.entries;
}

abbrev pub checkout_of : AttemptRow → List String → Checkout
checkout_of a ids = record {
  code = a.checkout_code;
  sale_id = a.sale_id;
  user_id = a.user_id;
  item_ids = ids;
  created_at = a.created_at;
}

unfoldable pub get_checkout_by_code : String → M Store Checkout
get_checkout_by_code code = do
  found ← run pool (reading (λ now d. latest_attempt code d.attempts))
  a ← or_not_found (domain checkout_not_found) found
  ids ← run pool (reading (λ now d. item_ids (join_entries code d.attempts d.entries)))
  pure (checkout_of a ids)

unfoldable pub get_user_checkout_count : String → String → M Store ℤ
get_user_checkout_count sale_id user_id =
    run pool (reading (λ now d. pos (count_attempts sale_id user_id d.attempts)))

unfoldable pub delete_checkout : String → M Store (Unit {0})
delete_checkout code = run pool (λ now d. ok (tt, delete_attempts code d))

module _ (draw : ℕ → String) where
  abbrev pub generate_checkout_id : M Store String
  generate_checkout_id s = (ok (draw s.tick), s)

  -- The loop of `CreateCheckout`.
  unfoldable pub insert_entries : Repo → String → ℕ → List String → M Store (Unit {0})
  insert_entries tx attempt_id added_at [] = pure tt
  insert_entries tx attempt_id added_at (item_id ∷ ids) = do
    id ← generate_checkout_id
    run tx (λ now. insert_entry (record {
      id = id;
      checkout_attempt_id = attempt_id;
      item_id = item_id;
      added_at = added_at;
    }))
    insert_entries tx attempt_id added_at ids

  unfoldable pub create_checkout : Checkout → M Store (Unit {0})
  unfolding insert_entries
  create_checkout c = do
    id ← generate_checkout_id
    in_own_tx (λ tx. do
      run tx (λ now. insert_attempt (record {
        id = id;
        checkout_code = c.code;
        sale_id = c.sale_id;
        user_id = c.user_id;
        created_at = c.created_at;
      }))
      insert_entries tx id c.created_at c.item_ids)

  unfoldable pub add_item_to_checkout : String → String → M Store (Unit {0})
  add_item_to_checkout code item_id = do
    found ← run pool (reading (λ now d. first_attempt code d.attempts))
    attempt_id ← or_not_found (domain checkout_not_found) found
    count ← run pool (reading (λ now d. count_entries attempt_id item_id d.entries))
    guard_not (ltb 0 count) (domain item_already_in_checkout)
    id ← generate_checkout_id
    run pool (λ now.
        insert_entry
          (record { id = id; checkout_attempt_id = attempt_id; item_id = item_id; added_at = now }))

  abbrev pub logged_attempt : String → String → String → String → Statement (Unit {0})
  logged_attempt id sale_id user_id code now = insert_attempt (record {
    id = id;
    checkout_code = code;
    sale_id = sale_id;
    user_id = user_id;
    created_at = now;
  })

  abbrev pub logged_entry : String → String → String → Statement (Unit {0})
  logged_entry id attempt_id item_id now =
      insert_entry
        (record { id = id; checkout_attempt_id = attempt_id; item_id = item_id; added_at = now })

  unfoldable pub log_in_tx : String → String → String → String → String → Repo → M Store (Unit {0})
  log_in_tx sale_id user_id code item_id id tx = do
    run tx (logged_attempt id sale_id user_id code)
    entry_id ← generate_checkout_id
    run tx (logged_entry entry_id id item_id)

  unfoldable pub log_checkout_attempt : String → String → String → String → M Store (Unit {0})
  unfolding log_in_tx
  log_checkout_attempt sale_id user_id code item_id = do
    id ← generate_checkout_id
    in_own_tx (log_in_tx sale_id user_id code item_id id)
