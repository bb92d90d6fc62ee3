-- ===== src/Postgres/Migrations/Replay/Again.antt =====
-- A run from start to end, and a run after it.
use text.Mathlib.TextPositions.{eq_refl}
use flashsale_service.Prelude.{
  ◌∷◌, [], String, List, Bool, ℕ, ◌≡◌, ◌++◌, All, length, true, take, ◌≤◌, arith, Bool-cases, refl,
  suc, inl, ap, inr, zero, false, subst, sym, ◌∙◌,
}
use flashsale_service.Errors.{Error, message}
use flashsale_service.Effect.{M, Result, ok, err, map_err, ◌>>=◌, ◌>>◌}
use flashsale_service.Effect.Triple.{
  Triple, Post, Triple-bind, Triple-then, Triple-map_err, Triple-fact, weaken,
}
use flashsale_service.Postgres.Migrations.{
  Directory, Database, File, listed, reached, given, read_applied, apply_files, apply_all,
  run_migrations, sort_strings, up_files,
}
use flashsale_service.Postgres.Migrations.Replay.Order.{
  has_suffix, in_order, InOrder, files_of, todo-InOrder,
}
use flashsale_service.Postgres.Migrations.Replay.{
  pending, Executed, RanAll-Ran, ++-nil, Ran, RanAll, At, none_done, reached-keeps, apply_all-Ran,
}

-- The files that a run looks at, in their order.
abbrev pub migration_names :
    (String → String → Bool) → (String → String → Bool) → Result (List File) → List String
migration_names ends_with precedes (ok files) = sort_strings precedes (up_files ends_with files)
migration_names ends_with precedes (err _) = []

take-all : {A : Type 0} (xs : List A) (n : ℕ) → length xs ≤ n → take n xs ≡ xs
take-all [] zero h = refl
take-all [] (suc n) h = refl
take-all (x ∷ xs) zero h = absurd (omega (arith, h))
take-all (x ∷ xs) (suc n) h = ap (λ r. x ∷ r) (take-all xs n (omega (arith, h)))

listed-append : (n : String) (xs ys : List String) → listed n xs ≡ true → listed n (xs ++ ys) ≡ true
unfolding listed
listed-append n [] ys h = ground arith
listed-append n (x ∷ xs) ys h = ground (arith, listed-append n xs ys)

listed-added : (n : String) (xs ys : List String) → listed n (xs ++ n ∷ ys) ≡ true
unfolding listed
listed-added n [] ys = ground (arith, eq_refl n)
listed-added n (x ∷ xs) ys = ground (arith, listed-added n xs ys)

listed-between :
    (n : String) (xs : List String) (y : String) (ys : List String)
    → listed n (xs ++ ys) ≡ true
    → listed n (xs ++ y ∷ ys) ≡ true
unfolding listed
listed-between n [] y ys h = ground arith
listed-between n (x ∷ xs) y ys h = ground (arith, listed-between n xs y ys)

All-listed-between :
    (names xs : List String) (y : String) (ys : List String)
    → All (λ n. listed n (xs ++ ys) ≡ true) names
    → All (λ n. listed n (xs ++ y ∷ ys) ≡ true) names
All-listed-between [] xs y ys h = tt
All-listed-between (n ∷ names) xs y ys h =
    (listed-between n xs y ys h.0, All-listed-between names xs y ys h.1)

pending-old :
    (xs : List String) (n : String) (names : List String)
    → listed n xs ≡ true
    → pending xs (n ∷ names) ≡ pending xs names
unfolding pending
pending-old xs n names h = rw h refl

pending-new :
    (xs : List String) (n : String) (names : List String)
    → listed n xs ≡ false
    → pending xs (n ∷ names) ≡ n ∷ pending xs names
unfolding pending
pending-new xs n names h = rw h refl

-- Once the pending names are recorded, every name is.
All-listed-pending :
    (xs names : List String) → All (λ n. listed n (xs ++ pending xs names) ≡ true) names
All-listed-pending xs [] = tt
All-listed-pending xs (n ∷ names) = elim (Bool-cases (listed n xs)) [
  | inl old ↦
      subst Recorded (sym (pending-old xs n names old))
        (listed-append n xs (pending xs names) old, All-listed-pending xs names)
  | inr new ↦ subst Recorded (sym (pending-new xs n names new)) (
    listed-added n xs (pending xs names),
    All-listed-between names xs n (pending xs names) (All-listed-pending xs names),
  )
]
  where
    Recorded : List String → Type 0
    Recorded added = All (λ m. listed m (xs ++ added) ≡ true) (n ∷ names)

none_pending :
    (xs names : List String) → All (λ n. listed n xs ≡ true) names → pending xs names ≡ []
unfolding pending
none_pending xs [] h = refl
none_pending xs (n ∷ names) h = rw h.0 (none_pending xs names h.1)

append-Empty : (xs ys : List String) → xs ++ ys ≡ [] → xs ≡ []
append-Empty [] ys h = refl
append-Empty (x ∷ xs) ys h = cc

module _ {D : Type 0} (exec : String → D → Result D) (dir : Directory)
    (ends_with precedes : String → String → Bool) where
  abbrev names_here : List String
  names_here = migration_names ends_with precedes dir.read_dir

  apply_files-Ran :
      (read : List String) (d : D) (names : List String)
      → Triple
          (At exec dir d names)
          (apply_files exec dir ends_with precedes read)
          (λ _. RanAll exec dir (pending read names_here) d names)
          (λ _. Ran exec dir (pending read names_here) d names)
  unfolding apply_files
  apply_files-Ran read d names = by dir.read_dir
    where
      by :
          (x : Result (List File))
          → Triple
              (At exec dir d names)
              (map_err (λ _. message "failed to read migrations directory") (given x) >>= λ files.
                apply_all exec dir read (sort_strings precedes (up_files ends_with files)))
              (λ _. RanAll exec dir (pending read (migration_names ends_with precedes x)) d names)
              (λ _. Ran exec dir (pending read (migration_names ends_with precedes x)) d names)
      by (ok files) = record {
        at = λ s h.
            (apply_all-Ran exec dir read (sort_strings precedes (up_files ends_with files)) d
                names).at
              s h;
      }
      by (err _) = record { at = λ s h. none_done exec dir (pending read []) names d s h }

  module _ (d : D) (names : List String) (arrives : ℕ) where
    abbrev Start : Database D → Type 0
    Start s = At exec dir d names s × (s.arrives ≡ arrives)

    abbrev todo : List String
    todo = pending (take arrives names) names_here

    not_started :
        {A : Type 0} {Q : A → Database D → Type 0} (f : Error → Error) (m : M (Database D) A)
        → Triple Start m Q (λ _. Start)
        → Triple Start (map_err f m) Q (λ _. Ran exec dir todo d names)
    not_started f m t =
        Triple-map_err f m
          (weaken (λ s h. h) (λ x s q. q) (λ e s q. none_done exec dir todo names d s q.0) t)

    reached-Start : Triple Start reached (λ _. Start) (λ _. Start)
    reached-Start = reached-keeps Start (λ s n h. h)

    read_applied-Start :
        Triple Start read_applied
          (λ read s. At exec dir d names s × (take arrives names ≡ read))
          (λ _. Start)
    unfolding read_applied
    read_applied-Start =
        Triple-then Start reached (λ s. (ok (take s.arrives s.applied), s)) reached-Start
          (record { at = λ s h. (h.0, cc (h.1, h.0.1)) })

    run-Ran :
        Triple Start
          (run_migrations exec dir ends_with precedes)
          (λ _. RanAll exec dir todo d names)
          (λ _. Ran exec dir todo d names)
    unfolding run_migrations
    run-Ran =
        Triple-then Start (map_err (λ _. message "failed to ping database") reached)
          (map_err (λ _. message "failed to create migrations table") reached
            >> (map_err (λ _. message "failed to query migrations table") read_applied
                >>= apply_files exec dir ends_with precedes))
          (not_started (λ _. message "failed to ping database") reached reached-Start)
          (Triple-then Start (map_err (λ _. message "failed to create migrations table") reached)
            (map_err (λ _. message "failed to query migrations table") read_applied
              >>= apply_files exec dir ends_with precedes)
            (not_started (λ _. message "failed to create migrations table") reached reached-Start)
            (Triple-bind (λ read s. At exec dir d names s × (take arrives names ≡ read))
              (map_err (λ _. message "failed to query migrations table") read_applied)
              (apply_files exec dir ends_with precedes)
              (not_started (λ _. message "failed to query migrations table") read_applied
                read_applied-Start)
              (λ read. Triple-fact (λ e.
                subst
                  (λ r.
                    Triple (At exec dir d names) (apply_files exec dir ends_with precedes r)
                      (λ _. RanAll exec dir todo d names) (λ _. Ran exec dir todo d names))
                  e (apply_files-Ran (take arrives names) d names)))))

  abbrev todo_of : Database D → List String
  todo_of s = pending (take s.arrives s.applied) (migration_names ends_with precedes dir.read_dir)

  files-Ran :
      (s : Database D)
      → Post
          (λ _. RanAll exec dir (todo_of s) s.schema s.applied)
          (λ _. Ran exec dir (todo_of s) s.schema s.applied)
          (run_migrations exec dir ends_with precedes s)
  files-Ran s = (run-Ran s.schema s.applied s.arrives).at s ((refl, refl), refl)

  quiet :
      {todo : List String} (d : D) (names : List String) (s : Database D)
      → todo ≡ []
      → Ran exec dir todo d names s
      → (s.schema ≡ d) × (s.applied ≡ names)
  quiet d names s none h =
      let nothing = append-Empty h.done h.left (h.split ∙ none) in
      (
        sym (subst (λ ns. Executed exec dir ns d s.schema) nothing h.executed),
        h.rows ∙ (ap (λ ns. names ++ ns) nothing ∙ ++-nil names),
      )

  -- After a run without an error, a second run changes neither the schema nor the recorded names,
  -- whatever the server answers it, if all rows of the recorded names arrive both times and the
  -- directory has not changed.
  pub run_migrations-again :
      (s s1 s2 : Database D)
      → run_migrations exec dir ends_with precedes s ≡ (ok tt, s1)
      → length s.applied ≤ s.arrives
      → (s2.schema ≡ s1.schema) × (s2.applied ≡ s1.applied)
      → length s2.applied ≤ s2.arrives
      → let x = run_migrations exec dir ends_with precedes s2 in
        (x.1.schema ≡ s2.schema) × (x.1.applied ≡ s2.applied)
  run_migrations-again s s1 s2 runs arrived same arrived' =
      by (run_migrations exec dir ends_with precedes s2) (files-Ran s2)
    where
      first : RanAll exec dir (todo_of s) s.schema s.applied s1
      first =
          subst
            (Post (λ _. RanAll exec dir (todo_of s) s.schema s.applied)
              (λ _. Ran exec dir (todo_of s) s.schema s.applied))
            runs (files-Ran s)

      nothing_left : todo_of s2 ≡ []
      nothing_left =
          ap (λ xs. pending xs names_here)
            (take-all s2.applied s2.arrives arrived'
              ∙ (same.1
                  ∙ (first.rows
                      ∙ ap (λ xs. s.applied ++ pending xs names_here)
                          (take-all s.applied s.arrives arrived))))
          ∙ none_pending (s.applied ++ pending s.applied names_here) names_here
              (All-listed-pending s.applied names_here)

      by :
          (x : Result (Unit {0}) × Database D)
          → Post
              (λ _. RanAll exec dir (todo_of s2) s2.schema s2.applied)
              (λ _. Ran exec dir (todo_of s2) s2.schema s2.applied)
              x
          → (x.1.schema ≡ s2.schema) × (x.1.applied ≡ s2.applied)
      by (ok _, s3) h = quiet s2.schema s2.applied s3 nothing_left (RanAll-Ran exec dir h)
      by (err _, s3) h = quiet s2.schema s2.applied s3 nothing_left h

module _ {D : Type 0} (exec : String → D → Result D) (dir : Directory) where
  names_of :
      (x : Result (List File))
      → migration_names has_suffix in_order x
        ≡ sort_strings in_order (up_files has_suffix (files_of x))
  unfolding up_files sort_strings
  names_of (ok _) = refl
  names_of (err _) = refl

  -- Whatever the server answers and whatever the SQL of a file does: there is a list, in the order
  -- of the names, of the directory's files that are no directories, end in ".up.sql" and are not
  -- among the recorded names that arrived, each as often as it is there; the first ones of this list
  -- have had their SQL executed and are recorded, in this order, and all of them when no error is
  -- returned.
  pub run_migrations-Ran :
      (s : Database D)
      → (todo : List String) × InOrder (take s.arrives s.applied) dir todo
        × Post
            (λ _. RanAll exec dir todo s.schema s.applied)
            (λ _. Ran exec dir todo s.schema s.applied)
            (run_migrations exec dir has_suffix in_order s)
  run_migrations-Ran s = (
    todo_of exec dir has_suffix in_order s,
    subst (λ ns. InOrder read dir (pending read ns)) (sym (names_of dir.read_dir))
        (todo-InOrder read dir),
    files-Ran exec dir has_suffix in_order s,
  )
    where
      read : List String
      read = take s.arrives s.applied
