-- ===== src/Postgres/Migrations.antt =====
-- internal/infrastructure/persistence/postgres/migrations.go. `exec` is what the SQL of a file does
-- to the schema, `has_suffix` is `strings.HasSuffix` and `precedes` the order of `sort.Strings`; the
-- directory is what `os.ReadDir` and `os.ReadFile` answer. The text of an error that is put into
-- another one, and what is written to the log, are left out.
pub mod Replay
mod Tests
use flashsale_service.Prelude.{
  String, List, ◌+◌, Bool, ℕ, take, ◌++◌, ◌∷◌, false, if◌then◌else◌, [], ◌==◌, not, ◌||◌, ◌&&◌,
}
use flashsale_service.Effect.{M, Result, ok, err, pure, map_err, ◌>>=◌, ◌>>◌}
use flashsale_service.Effect.Answer.{Answer, answered, failed, reply_lost, connection_lost}
use flashsale_service.Errors.{message}

pub record File : Type 0 where
  pub name : String
  pub is_dir : Bool

pub record Directory : Type 0 where
  pub read_dir : Result (List File)
  pub read_file : String → Result String

-- `applied` are the names in the table migrations, none before the table is there. Of the rows of a
-- query, `arrives` reach the program before the connection breaks.
pub record Database (D : Type 0) : Type 0 where
  pub schema : D
  pub applied : List String
  pub answers : ℕ → Answer
  pub tick : ℕ
  pub arrives : ℕ

-- `appliedMigrations[name]`
unfoldable pub listed : String → List String → Bool
listed name [] = false
listed name (n ∷ ns) = name == n || listed name ns

module _ (precedes : String → String → Bool) where
  unfoldable pub insert_name : String → List String → List String
  insert_name n [] = n ∷ []
  insert_name n (m ∷ ms) =
      let rest = insert_name n ms in if precedes n m then n ∷ m ∷ ms else m ∷ rest

  -- `sort.Strings`
  unfoldable pub sort_strings : List String → List String
  unfolding insert_name
  sort_strings [] = []
  sort_strings (n ∷ ns) = insert_name n (sort_strings ns)

-- The loop over the directory.
unfoldable pub up_files : (String → String → Bool) → List File → List String
up_files has_suffix [] = []
up_files has_suffix (f ∷ fs) =
    let rest = up_files has_suffix fs in
    if not f.is_dir && has_suffix f.name ".up.sql" then f.name ∷ rest else rest

module _ {D : Type 0} where
  -- A request whose answer is all that matters.
  unfoldable pub reached_by : Answer → M (Database D) (Unit {0})
  reached_by answered s = (ok tt, s)
  reached_by failed s = (err connection_lost, s)
  reached_by reply_lost s = (err connection_lost, s)

  unfoldable pub reached : M (Database D) (Unit {0})
  unfolding reached_by
  reached s = reached_by (s.answers s.tick) (record s { tick = s.tick + 1 })

  abbrev pub given : {A : Type 0} → Result A → M (Database D) A
  given r s = (r, s)

  -- `rows.Err()` is not asked for: rows that do not arrive go unnoticed.
  unfoldable pub read_applied : M (Database D) (List String)
  unfolding reached
  read_applied = do reached; λ s. (ok (take s.arrives s.applied), s)

  abbrev pub recorded : String → D → Database D → Database D
  recorded name d s = record s { schema = d; applied = s.applied ++ name ∷ [] }

  unfoldable pub commit_by : Answer → String → D → M (Database D) (Unit {0})
  commit_by answered name d s = (ok tt, recorded name d s)
  commit_by failed name d s = (err connection_lost, s)
  commit_by reply_lost name d s = (err connection_lost, recorded name d s)

  -- `tx.Commit`, of a transaction that made the schema `d` and inserted the name.
  unfoldable pub commit_migration : String → D → M (Database D) (Unit {0})
  unfolding commit_by
  commit_migration name d s = commit_by (s.answers s.tick) name d (record s { tick = s.tick + 1 })

  module _ (exec : String → D → Result D) (dir : Directory) where
    -- The transaction works on a copy, which an error drops.
    unfoldable pub exec_in_tx : String → M (Database D) D
    unfolding reached
    exec_in_tx text = do reached; λ s. (exec text s.schema, s)

    unfoldable pub record_migration : String → D → M (Database D) (Unit {0})
    unfolding reached commit_migration
    record_migration name d =
        map_err (λ _. message "failed to record migration") reached
        >> map_err (λ _. message "failed to commit transaction") (commit_migration name d)

    -- From `db.Begin` to `tx.Commit`.
    unfoldable pub migrate : String → String → M (Database D) (Unit {0})
    unfolding reached exec_in_tx record_migration
    migrate name text =
        map_err (λ _. message "failed to begin transaction") reached
        >> (map_err (λ _. message "error executing migration") (exec_in_tx text)
            >>= record_migration name)

    unfoldable pub apply_migration : String → M (Database D) (Unit {0})
    unfolding migrate
    apply_migration name =
        map_err (λ _. message "failed to read migration file") (given (dir.read_file name))
        >>= migrate name

    unfoldable pub apply_all : List String → List String → M (Database D) (Unit {0})
    unfolding apply_migration listed
    apply_all read [] = pure tt
    apply_all read (name ∷ names) =
        let rest = apply_all read names in
        if listed name read then rest else apply_migration name >> rest

    module _ (has_suffix precedes : String → String → Bool) where
      -- The files of the directory, once the recorded names are read.
      unfoldable pub apply_files : List String → M (Database D) (Unit {0})
      unfolding apply_all up_files sort_strings
      apply_files read =
          map_err (λ _. message "failed to read migrations directory") (given dir.read_dir)
          >>= λ files. apply_all read (sort_strings precedes (up_files has_suffix files))

      unfoldable pub run_migrations : M (Database D) (Unit {0})
      unfolding read_applied apply_files
      run_migrations =
          map_err (λ _. message "failed to ping database") reached
          >> (map_err (λ _. message "failed to create migrations table") reached
              >> (map_err (λ _. message "failed to query migrations table") read_applied
                  >>= apply_files))
