-- ===== src/Postgres/CheckoutRepository/Listing.antt =====
-- What `GetCheckoutByCode` lists of a code after the other operations.
use flashsale_service.Effect.{Result, ok, err}
use flashsale_service.Postgres.Query.{has_sale, has_item_row}
use flashsale_service.Postgres.OwnTransaction.{in_own_tx_lem}
use flashsale_service.Effect.Triple.{Triple, Triple-bind, Triple-then, weaken, Post}
use flashsale_service.Postgres.Rules.{StatementPost, InTx, Live-InTx, run-Live}
use flashsale_service.Postgres.CheckoutRepository.{
  item_ids, of_code, insert_by_added_at, join_entries, insert_attempt, insert_entry,
  log_checkout_attempt, logged_attempt, logged_entry, has_attempt, has_entry, generate_checkout_id,
  count_entries, log_in_tx,
}
use flashsale_service.Prelude.{
  ◌≡◌, refl, String, Bool, List, ℕ, ◌∷◌, true, if◌then◌else◌, ◌==◌, ◌&&◌, arith, ◌++◌, ◌≤◌, false,
  suc, ◌+◌, [], Bool-cases, ◌⊎◌, ◌||◌, inl, ltb, inr, ap, eq_iff,
}
use flashsale_service.Postgres.Store.{Tables, EntryRow, AttemptRow, Store}

unfoldable occurrences : String → List String → ℕ
occurrences id [] = 0
occurrences id (x ∷ xs) = let rest = occurrences id xs in if x == id then suc rest else rest

-- How often the list of a checkout's items shows an item.
unfoldable pub listed : String → String → Tables → ℕ
unfolding occurrences
listed code id d = occurrences id (item_ids (join_entries code d.attempts d.entries))

abbrev one_if : Bool → ℕ
one_if true = 1
one_if false = 0

insert_by_added_at-occurrences :
    (e : EntryRow) (es : List EntryRow) (id : String)
    → occurrences id (item_ids (insert_by_added_at e es))
      ≡ one_if (e.item_id == id) + occurrences id (item_ids es)
unfolding occurrences item_ids insert_by_added_at
insert_by_added_at-occurrences e [] id = ground arith
insert_by_added_at-occurrences e (f ∷ fs) id =
    ground (arith, insert_by_added_at-occurrences e fs id)

-- A row counts when the join selects it and it is of the item.
unfoldable count_joined : String → String → List AttemptRow → List EntryRow → ℕ
count_joined code id rows [] = 0
count_joined code id rows (e ∷ es) =
    one_if (of_code code rows e && e.item_id == id) + count_joined code id rows es

join_entries-count_joined :
    (code id : String) (rows : List AttemptRow) (es : List EntryRow)
    → occurrences id (item_ids (join_entries code rows es)) ≡ count_joined code id rows es
unfolding occurrences item_ids join_entries count_joined
join_entries-count_joined code id rows [] = refl
join_entries-count_joined code id rows (e ∷ es) = ground (
  arith,
  join_entries-count_joined code id rows es,
  insert_by_added_at-occurrences e (join_entries code rows es) id,
)

of_code_more :
    (code : String) (rows : List AttemptRow) (a : AttemptRow) (e : EntryRow)
    → of_code code rows e ≡ true
    → of_code code (rows ++ a ∷ []) e ≡ true
unfolding of_code
of_code_more code [] a e h = ground arith
of_code_more code (r ∷ rows) a e h = ground (arith, of_code_more code rows a e)

of_code_last :
    (code : String) (rows : List AttemptRow) (a : AttemptRow) (e : EntryRow)
    → (a.id == e.checkout_attempt_id) ≡ true
    → (a.checkout_code == code) ≡ true
    → of_code code (rows ++ a ∷ []) e ≡ true
unfolding of_code
of_code_last code [] a e h k = ground arith
of_code_last code (r ∷ rows) a e h k = ground (arith, of_code_last code rows a e h k)

count_joined_more :
    (code id : String) (rows : List AttemptRow) (a : AttemptRow) (es : List EntryRow)
    → count_joined code id rows es ≤ count_joined code id (rows ++ a ∷ []) es
unfolding count_joined
count_joined_more code id rows a [] = omega arith
count_joined_more code id rows a (e ∷ es) =
    ground (arith, count_joined_more code id rows a es, of_code_more code rows a e)

count_joined-append :
    (code id : String) (rows : List AttemptRow) (es fs : List EntryRow)
    → count_joined code id rows (es ++ fs)
      ≡ count_joined code id rows es + count_joined code id rows fs
unfolding count_joined
count_joined-append code id rows [] fs = omega arith
count_joined-append code id rows (e ∷ es) fs = omega (arith, count_joined-append code id rows es fs)

-- An attempt of the code is in the table, and the rows that were there are still there.
abbrev Attempted : String → String → Tables → Tables → Type 0
Attempted code id t d =
    (a : AttemptRow) × (a.id ≡ id)
    × (a.checkout_code ≡ code)
    × (d.attempts ≡ t.attempts ++ a ∷ [])
    × (d.entries ≡ t.entries)

module _ (draw : ℕ → String) (code item_id : String) (t : Tables) where
  abbrev attempt_row : String → String → String → ℕ → AttemptRow
  attempt_row id sale_id user_id now = record {
    id = id;
    checkout_code = code;
    sale_id = sale_id;
    user_id = user_id;
    created_at = now;
  }

  abbrev entry_row : String → String → ℕ → EntryRow
  entry_row id attempt_id now = record {
    id = id;
    checkout_attempt_id = attempt_id;
    item_id = item_id;
    added_at = now;
  }

  joined_last :
      (rows : List AttemptRow) (a : AttemptRow) (e : EntryRow)
      → a.id ≡ e.checkout_attempt_id
      → a.checkout_code ≡ code
      → e.item_id ≡ item_id
      → count_joined code item_id (rows ++ a ∷ []) (e ∷ []) ≡ 1
  unfolding count_joined
  joined_last rows a e same_id same_code same_item = ground (
    arith,
    of_code_last code rows a e,
    eq_iff a.id e.checkout_attempt_id,
    eq_iff a.checkout_code code,
    eq_iff e.item_id item_id,
  )

  logged_attempt-Attempted :
      (id sale_id user_id : String) (now : ℕ) (d : Tables)
      → d ≡ t
      → StatementPost
          (λ _ d'. Attempted code id t d')
          (logged_attempt draw id sale_id user_id code now d)
  unfolding insert_attempt
  logged_attempt-Attempted id sale_id user_id now d e =
      elim (Bool-cases (has_attempt id d.attempts)) [
        | inl h ↦ rw h tt
        | inr h ↦ rw h (elim (Bool-cases (has_sale sale_id d.sales)) [
          | inl k ↦ rw k (
            attempt_row id sale_id user_id now,
            refl,
            refl,
            ap (λ x. x.attempts ++ attempt_row id sale_id user_id now ∷ []) e,
            ap (λ x. x.entries) e,
          )
          | inr k ↦ rw k tt
        ])
      ]

  abbrev Repeated : Tables → Type 0
  Repeated d = suc (listed code item_id t) ≤ listed code item_id d

  counted :
      (id entry_id : String) (now : ℕ) (d d' : Tables)
      → Attempted code id t d
      → d'.attempts ≡ d.attempts
      → d'.entries
        ≡ d.entries
          ++ (record { id = entry_id; checkout_attempt_id = id; item_id = item_id; added_at = now })
            ∷ []
      → Repeated d'
  unfolding listed
  counted id entry_id now d d' (a, same_id, same_code, grown, kept) ea ee =
      let e = entry_row entry_id id now in
      rw (join_entries-count_joined code item_id t.attempts t.entries) (
        rw (join_entries-count_joined code item_id d'.attempts d'.entries) (
          rw ea (
            rw grown (
              rw ee (
                rw kept (
                  rw (count_joined-append code item_id (t.attempts ++ a ∷ []) t.entries (e ∷ [])) (
                    rw (joined_last t.attempts a e same_id same_code refl)
                      (omega (arith, count_joined_more code item_id t.attempts a t.entries)))))))))

  logged_entry-Repeated :
      (id entry_id : String) (now : ℕ) (d : Tables)
      → Attempted code id t d
      → StatementPost (λ _ d'. Repeated d') (logged_entry draw entry_id id item_id now d)
  unfolding insert_entry
  logged_entry-Repeated id entry_id now d at =
      elim (Bool-cases
        (has_entry entry_id d.entries || ltb 0 (count_entries id item_id d.entries))) [
          | inl h ↦ rw h tt
          | inr h ↦
              rw h (elim (Bool-cases (has_attempt id d.attempts && has_item_row item_id d.items)) [
                | inl k ↦ rw k (counted id entry_id now d _ at refl refl)
                | inr k ↦ rw k tt
              ])
        ]

  log_checkout_attempt-Repeated :
      (sale_id user_id : String)
      → Triple
          (λ s. s.tables ≡ t)
          (log_checkout_attempt draw sale_id user_id code item_id)
          (λ _ (s : Store). Repeated s.tables)
          (λ _ s. (s.tables ≡ t) ⊎ Repeated s.tables)
  unfolding log_checkout_attempt log_in_tx
  log_checkout_attempt-Repeated sale_id user_id =
      Triple-bind (λ _ s. s.tables ≡ t) (generate_checkout_id draw) _ (record { at = λ s h. h })
        (λ id. in_own_tx_lem t Repeated (log_in_tx draw sale_id user_id code item_id id) (λ h.
          Triple-then (InTx t h (Attempted code id t)) _ _
            (weaken (λ s q. q) (λ _ s q. Live-InTx t h _ s q) (λ e s q. q.0)
              (run-Live t h (λ _ d'. Attempted code id t d') (λ d. d ≡ t)
                (logged_attempt draw id sale_id user_id code)
                (λ now d. logged_attempt-Attempted id sale_id user_id now d)))
            (Triple-bind (λ _ s. InTx t h (Attempted code id t) s) (generate_checkout_id draw) _
              (record { at = λ s q. q })
              (λ entry_id.
                weaken (λ s q. q) (λ _ s q. Live-InTx t h _ s q) (λ e s q. q.0)
                  (run-Live t h (λ _ d'. Repeated d') (Attempted code id t)
                    (logged_entry draw entry_id id item_id)
                    (λ now d. logged_entry-Repeated id entry_id now d))))))

  -- The tables after `LogCheckoutAttempt`.
  abbrev pub Logged : Result (Unit {0}) × Store → Type 0
  Logged (ok _, s) = suc (listed code item_id t) ≤ listed code item_id s.tables
  Logged (err _, s) = (s.tables ≡ t) ⊎ (suc (listed code item_id t) ≤ listed code item_id s.tables)

  Post-Logged :
      (x : Result (Unit {0}) × Store)
      → Post {A = Unit {0}}
          (λ _ (s : Store). Repeated s.tables)
          (λ _ s. (s.tables ≡ t) ⊎ Repeated s.tables)
          x
      → Logged x
  Post-Logged (ok _, s) h = h
  Post-Logged (err _, s) h = h

-- Each logged attempt makes the item appear once more in the list of items that a checkout of the
-- code is read with, also when the list shows it already; after an error the tables are as before,
-- or the attempt was logged.
pub log_checkout_attempt-Logged :
    (draw : ℕ → String) (sale_id user_id code item_id : String) (s : Store)
    → Logged draw code item_id s.tables (log_checkout_attempt draw sale_id user_id code item_id s)
log_checkout_attempt-Logged draw sale_id user_id code item_id s =
    Post-Logged draw code item_id s.tables _
      ((log_checkout_attempt-Repeated draw code item_id s.tables sale_id user_id).at s refl)
