-- ===== src/Postgres/Migrations/Tests.antt =====
-- Two files and a directory, with SQL that adds its text to the schema.
use flashsale_service.Prelude.{
  ◌∷◌, [], String, false, List, take, ◌≡◌, ◌++◌, Bool, true, arith, not, ◌==◌, refl,
}
use flashsale_service.Effect.{Result, ok}
use flashsale_service.Effect.Answer.{answered}
use flashsale_service.Effect.Triple.{Post}
use flashsale_service.Postgres.Migrations.{Directory, Database, File, run_migrations}
use flashsale_service.Postgres.Migrations.Replay.Order.{InOrder, has_suffix, in_order}
use flashsale_service.Postgres.Migrations.Replay.{Ran, RanAll}
use flashsale_service.Postgres.Migrations.Replay.Again.{run_migrations-Ran, run_migrations-again}

abbrev add_text : String → List String → Result (List String)
add_text text d = ok (d ++ text ∷ [])

abbrev file_of : String → Bool → File
file_of name is_dir = record { name = name; is_dir = is_dir }

abbrev directory : Directory
directory = record {
  read_dir = ok (file_of "2.up.sql" false ∷ file_of "old" true ∷ file_of "1.up.sql" false ∷ []);
  read_file = λ name. ok name;
}

abbrev ends_with : String → String → Bool
ends_with name suffix = not (name == "old")

abbrev comes_first : String → String → Bool
comes_first a b = a == "1.up.sql"

abbrev fresh : Database (List String)
fresh = record { schema = []; applied = []; answers = λ _. answered; tick = 0; arrives = 10 }

abbrev migrated : Database (List String)
migrated = record fresh {
  schema = "1.up.sql" ∷ "2.up.sql" ∷ [];
  applied = "1.up.sql" ∷ "2.up.sql" ∷ [];
}

-- With the program's own order of names, and a directory that lists them in another one.
run_migrations-Ran_example :
    (todo : List String) × InOrder (take 10 []) directory todo
    × Post
        (λ _. RanAll add_text directory todo [] [])
        (λ _. Ran add_text directory todo [] [])
        (run_migrations add_text directory has_suffix in_order fresh)
run_migrations-Ran_example = run_migrations-Ran add_text directory fresh

sorted_run :
    run_migrations add_text directory has_suffix in_order fresh
    ≡ (ok tt, record migrated { tick = 11 })
unfolding run_migrations has_suffix in_order
sorted_run = refl

first_run :
    run_migrations add_text directory ends_with comes_first fresh
    ≡ (ok tt, record migrated { tick = 11 })
unfolding run_migrations
first_run = refl

run_migrations-again_example :
    let x = run_migrations add_text directory ends_with comes_first migrated in
    (x.1.schema ≡ migrated.schema) × (x.1.applied ≡ migrated.applied)
run_migrations-again_example =
    run_migrations-again add_text directory ends_with comes_first fresh
      (record migrated { tick = 11 }) migrated first_run (omega arith) (refl, refl) (omega arith)
