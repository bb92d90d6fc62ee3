-- ===== src/Postgres/Migrations/Replay.antt =====
-- What a run of the migrations does, and that a second run does nothing.
pub mod Again
pub mod Order
use flashsale_service.Prelude.{
  ◌∷◌, [], List, String, if◌then◌else◌, ◌++◌, ◌≡◌, ◌∙◌, ◌+◌, ◌⊎◌, ap, sym, refl, inl, Bool-cases,
  inr, ℕ,
}
use flashsale_service.Effect.{M, Result, ok, err, map_err, ◌>>=◌, ◌>>◌}
use flashsale_service.Effect.Answer.{Answer, answered, failed, reply_lost}
use flashsale_service.Effect.Triple.{
  Triple, Post, Triple-bind, Triple-then, Triple-map_err, Triple-fact, weaken,
}
use flashsale_service.Errors.{Error, message}
use flashsale_service.Postgres.Migrations.{
  Directory, Database, File, listed, reached, reached_by, given, exec_in_tx, commit_migration,
  commit_by, apply_migration, migrate, record_migration, apply_all, run_migrations, sort_strings,
  up_files,
}

-- The names that are not among those that were read, in their order.
unfoldable pub pending : List String → List String → List String
pending read [] = []
pending read (name ∷ names) =
    let rest = pending read names in if listed name read then rest else name ∷ rest

++-assoc_one :
    (xs : List String) (x : String) (ys : List String) → (xs ++ x ∷ []) ++ ys ≡ xs ++ x ∷ ys
++-assoc_one [] x ys = refl
++-assoc_one (z ∷ zs) x ys = ap (λ r. z ∷ r) (++-assoc_one zs x ys)

pub ++-nil : (xs : List String) → xs ++ [] ≡ xs
++-nil [] = refl
++-nil (x ∷ xs) = ap (λ r. x ∷ r) (++-nil xs)

-- A request changes nothing that matters.
pub reached-keeps :
    {D : Type 0} (P : Database D → Type 0)
    → ((s : Database D) (n : ℕ) → P s → P (record s { tick = n }))
    → Triple P reached (λ _. P) (λ _. P)
unfolding reached reached_by
reached-keeps {D} P same = record {
  at = λ s h. by (s.answers s.tick) (record s { tick = s.tick + 1 }) (same s (s.tick + 1) h);
}
  where
    by :
        (a : Answer) (s : Database D) → P s → Post {A = Unit {0}} (λ _. P) (λ _. P) (reached_by a s)
    by answered s h = h
    by failed s h = h
    by reply_lost s h = h

module _ {D : Type 0} (exec : String → D → Result D) (dir : Directory) where
  -- The SQL of the files of these names, one after the other.
  abbrev pub Executed : List String → D → D → Type 0
  Executed [] d d' = d ≡ d'
  Executed (name ∷ names) d d' =
      (text : String) × (d1 : D) × (dir.read_file name ≡ ok text)
      × (exec text d ≡ ok d1)
      × Executed names d1 d'

  abbrev pub At : D → List String → Database D → Type 0
  At d names s = (s.schema ≡ d) × (s.applied ≡ names)

  -- Of the names that are to be applied, the first ones have been: their SQL was executed, in this
  -- order, and they were recorded.
  pub record Ran (todo : List String) (d : D) (names : List String) (s : Database D) : Type 0 where
    pub done : List String
    pub left : List String
    pub split : done ++ left ≡ todo
    pub rows : s.applied ≡ names ++ done
    pub executed : Executed done d s.schema

  -- All of them have been.
  pub record RanAll (todo : List String) (d : D) (names : List String) (s : Database D)
      : Type 0 where
    pub rows : s.applied ≡ names ++ todo
    pub executed : Executed todo d s.schema

  pub RanAll-Ran :
      {todo names : List String} {d : D} {s : Database D}
      → RanAll todo d names s
      → Ran todo d names s
  RanAll-Ran {todo} h = record {
    done = todo;
    left = [];
    split = ++-nil todo;
    rows = h.rows;
    executed = h.executed;
  }

  pub none_done :
      (todo names : List String) (d : D) (s : Database D) → At d names s → Ran todo d names s
  none_done todo names d s h = record {
    done = [];
    left = todo;
    split = refl;
    rows = h.1 ∙ sym (++-nil names);
    executed = sym h.0;
  }

  module _ (d : D) (names : List String) where
    reached-At : Triple (At d names) reached (λ _. At d names) (λ _. At d names)
    reached-At = reached-keeps (At d names) (λ s n h. h)

    given-At :
        {A : Type 0} (r : Result A)
        → Triple (At d names) (given r) (λ x s. At d names s × (r ≡ ok x)) (λ _. At d names)
    given-At {A} r = record { at = λ s h. by s r refl h }
      where
        by :
            (s : Database D) (x : Result A)
            → r ≡ x
            → At d names s
            → Post (λ a s. At d names s × (r ≡ ok a)) (λ _. At d names) (x, s)
        by s (ok a) e h = (h, e)
        by s (err _) e h = h

    exec_in_tx-At :
        (text : String)
        → Triple
            (At d names)
            (exec_in_tx exec dir text)
            (λ d' s. At d names s × (exec text d ≡ ok d'))
            (λ _. At d names)
    unfolding exec_in_tx
    exec_in_tx-At text =
        Triple-then (At d names) reached (λ s. (exec text s.schema, s)) reached-At
          (record { at = λ s h. by s (exec text s.schema) refl h })
      where
        by :
            (s : Database D) (x : Result D)
            → exec text s.schema ≡ x
            → At d names s
            → Post (λ d' s. At d names s × (exec text d ≡ ok d')) (λ _. At d names) (x, s)
        by s (ok d') e h = (h, ap (exec text) (sym h.0) ∙ e)
        by s (err _) e h = h

    commit_migration-At :
        (name : String) (d' : D)
        → Triple
            (At d names)
            (commit_migration name d')
            (λ _. At d' (names ++ name ∷ []))
            (λ _ s. At d names s ⊎ At d' (names ++ name ∷ []) s)
    unfolding commit_migration commit_by
    commit_migration-At name d' = record {
      at = λ s h. by (s.answers s.tick) (record s { tick = s.tick + 1 }) h;
    }
      where
        by :
            (a : Answer) (s : Database D)
            → At d names s
            → Post {A = Unit {0}}
                (λ _. At d' (names ++ name ∷ []))
                (λ _ s'. At d names s' ⊎ At d' (names ++ name ∷ []) s')
                (commit_by a name d' s)
        by answered s h = (refl, ap (λ ns. ns ++ name ∷ []) h.1)
        by failed s h = inl h
        by reply_lost s h = inr (refl, ap (λ ns. ns ++ name ∷ []) h.1)

    -- One migration: the file's SQL was executed and its name recorded, or nothing happened.
    abbrev One : String → Database D → Type 0
    One name s =
        (text : String) × (d' : D) × (dir.read_file name ≡ ok text)
        × (exec text d ≡ ok d')
        × At d' (names ++ name ∷ []) s

    -- An action that did nothing when it failed.
    or_nothing :
        {A : Type 0} {Q : A → Database D → Type 0} (name : String) (f : Error → Error)
        (m : M (Database D) A)
        → Triple (At d names) m Q (λ _. At d names)
        → Triple (At d names) (map_err f m) Q (λ _ s. At d names s ⊎ One name s)
    or_nothing {Q} name f m t =
        Triple-map_err f m (weaken (λ s h. h) (λ x s q. q) (λ e s q. inl q) t)

    record_migration-One :
        (name text : String) (d' : D)
        → dir.read_file name ≡ ok text
        → exec text d ≡ ok d'
        → Triple
            (At d names)
            (record_migration exec dir name d')
            (λ _. One name)
            (λ _ s. At d names s ⊎ One name s)
    unfolding record_migration
    record_migration-One name text d' found runs =
        Triple-then (At d names) (map_err (λ _. message "failed to record migration") reached)
          (map_err (λ _. message "failed to commit transaction") (commit_migration name d'))
          (or_nothing name (λ _. message "failed to record migration") reached reached-At)
          (Triple-map_err (λ _. message "failed to commit transaction") (commit_migration name d')
            (weaken (λ s h. h) (λ _ s q. (text, d', found, runs, q))
              (λ e s q. elim q [ inl a ↦ inl a | inr b ↦ inr (text, d', found, runs, b) ])
              (commit_migration-At name d')))

    migrate-One :
        (name text : String)
        → dir.read_file name ≡ ok text
        → Triple
            (At d names)
            (migrate exec dir name text)
            (λ _. One name)
            (λ _ s. At d names s ⊎ One name s)
    unfolding migrate
    migrate-One name text found =
        Triple-then (At d names) (map_err (λ _. message "failed to begin transaction") reached)
          (map_err (λ _. message "error executing migration") (exec_in_tx exec dir text)
            >>= record_migration exec dir name)
          (or_nothing name (λ _. message "failed to begin transaction") reached reached-At)
          (Triple-bind (λ d' s. At d names s × (exec text d ≡ ok d'))
            (map_err (λ _. message "error executing migration") (exec_in_tx exec dir text))
            (record_migration exec dir name)
            (or_nothing name (λ _. message "error executing migration") (exec_in_tx exec dir text)
              (exec_in_tx-At text))
            (λ d'. Triple-fact (λ runs. record_migration-One name text d' found runs)))

    apply_migration-One :
        (name : String)
        → Triple
            (At d names)
            (apply_migration exec dir name)
            (λ _. One name)
            (λ _ s. At d names s ⊎ One name s)
    unfolding apply_migration
    apply_migration-One name =
        Triple-bind (λ text s. At d names s × (dir.read_file name ≡ ok text))
          (map_err (λ _. message "failed to read migration file") (given (dir.read_file name)))
          (migrate exec dir name)
          (or_nothing name (λ _. message "failed to read migration file")
            (given (dir.read_file name)) (given-At (dir.read_file name)))
          (λ text. Triple-fact (λ found. migrate-One name text found))

  first_done :
      (name : String) (todo : List String) (d : D) (names : List String) (s : Database D)
      → One d names name s
      → Ran (name ∷ todo) d names s
  first_done name todo d names s (text, d', found, runs, now) = record {
    done = name ∷ [];
    left = todo;
    split = refl;
    rows = now.1;
    executed = (text, d', found, runs, sym now.0);
  }

  module _ {name : String} {todo names : List String} {d : D} {s : Database D} (text : String)
      (d' : D) (found : dir.read_file name ≡ ok text) (runs : exec text d ≡ ok d') where
    cons-Ran : Ran todo d' (names ++ name ∷ []) s → Ran (name ∷ todo) d names s
    cons-Ran h = record {
      done = name ∷ h.done;
      left = h.left;
      split = ap (λ r. name ∷ r) h.split;
      rows = h.rows ∙ ++-assoc_one names name h.done;
      executed = (text, d', found, runs, h.executed);
    }

    cons-RanAll : RanAll todo d' (names ++ name ∷ []) s → RanAll (name ∷ todo) d names s
    cons-RanAll h = record {
      rows = h.rows ∙ ++-assoc_one names name todo;
      executed = (text, d', found, runs, h.executed);
    }

  pub apply_all-Ran :
      (read todo : List String) (d : D) (names : List String)
      → Triple
          (At d names)
          (apply_all exec dir read todo)
          (λ _. RanAll (pending read todo) d names)
          (λ _. Ran (pending read todo) d names)
  unfolding apply_all pending
  apply_all-Ran read [] d names = record {
    at = λ s h. record { rows = h.1 ∙ sym (++-nil names); executed = sym h.0 };
  }
  apply_all-Ran read (name ∷ todo) d names = elim (Bool-cases (listed name read)) [
    | inl old ↦ rw old (apply_all-Ran read todo d names)
    | inr new ↦ rw new (
        Triple-bind (λ _. One d names name) (apply_migration exec dir name)
          (λ _. apply_all exec dir read todo)
          (weaken (λ s h. h) (λ _ s q. q)
            (λ e s q. elim q [
              | inl a ↦ none_done (name ∷ pending read todo) names d s a
              | inr o ↦ first_done name (pending read todo) d names s o
            ])
            (apply_migration-One d names name))
          (λ _. record {
            at = λ s o.
                let (text, d', found, runs, now) = o in
                (weaken (λ s h. h) (λ _ s q. cons-RanAll text d' found runs q)
                    (λ e s q. cons-Ran text d' found runs q)
                    (apply_all-Ran read todo d' (names ++ name ∷ []))).at
                  s now;
          }))
  ]
