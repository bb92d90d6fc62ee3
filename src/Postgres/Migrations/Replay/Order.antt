-- ===== src/Postgres/Migrations/Replay/Order.antt =====
-- Which files a run of the migrations looks at, and in which order: `strings.HasSuffix` and the order
-- of `sort.Strings`, written out, and the names in the directory counted on their own.
use Prim.Native.Char.{code}
use flashsale_service.Effect.{Result, ok, err}
use flashsale_service.Postgres.Migrations.{
  File, Directory, listed, insert_name, sort_strings, up_files,
}
use flashsale_service.Postgres.Migrations.Replay.{pending}
use flashsale_service.Prelude.{
  ◌∷◌, [], String, List, Bool, ℕ, ◌≡◌, All, true, false, suc, not, ◌&&◌, ◌||◌, ◌==◌, ltb, ◌=ℕ=◌,
  if◌then◌else◌, arith, Bool-cases, refl, inl, inr, eq_iff,
}

-- `strings.HasSuffix(text, suffix)`
unfoldable pub has_suffix : String → String → Bool
has_suffix String.[] suffix = String.[] == suffix
has_suffix (String.◌∷◌ c text) suffix = String.◌∷◌ c text == suffix || has_suffix text suffix

-- The order of `sort.Strings`, by the characters' numbers, which is the order of the bytes of UTF-8.
unfoldable pub in_order : String → String → Bool
in_order String.[] t = true
in_order (String.◌∷◌ c s) String.[] = false
in_order (String.◌∷◌ c s) (String.◌∷◌ d t) =
    let rest = in_order s t in ltb (code c) (code d) || code c =ℕ= code d && rest

in_order_total : (s t : String) → in_order s t ≡ false → in_order t s ≡ true
unfolding in_order
in_order_total String.[] t h = cc
in_order_total (String.◌∷◌ c s) String.[] h = refl
in_order_total (String.◌∷◌ c s) (String.◌∷◌ d t) h = ground (arith, h, in_order_total s t)

in_order_trans : (s t u : String) → in_order s t ≡ true → in_order t u ≡ true → in_order s u ≡ true
unfolding in_order
in_order_trans String.[] t u h k = refl
in_order_trans (String.◌∷◌ c s) String.[] u h k = cc
in_order_trans (String.◌∷◌ c s) (String.◌∷◌ d t) String.[] h k = cc
in_order_trans (String.◌∷◌ c s) (String.◌∷◌ d t) (String.◌∷◌ e u) h k =
    ground (arith, h, k, in_order_trans s t u)

abbrev pub Sorted : List String → Type 0
Sorted [] = Unit
Sorted (n ∷ ns) = All (λ m. in_order n m ≡ true) ns × Sorted ns

-- How often a name is in a list, and how many files of the directory have it and are migrations.
unfoldable pub times : String → List String → ℕ
times name [] = 0
times name (n ∷ ns) = let rest = times name ns in if n == name then suc rest else rest

unfoldable pub migrations_named : String → List File → ℕ
migrations_named name [] = 0
migrations_named name (f ∷ fs) =
    let rest = migrations_named name fs in
    if f.name == name && (not f.is_dir && has_suffix name ".up.sql") then suc rest else rest

abbrev pub files_of : Result (List File) → List File
files_of (ok files) = files
files_of (err _) = []

-- The migrations of the directory that are not among the names that were read, each as often as it
-- is there, in the order of their names.
pub record InOrder (read : List String) (dir : Directory) (todo : List String) : Type 0 where
  pub sorted : Sorted todo
  pub chosen :
      (name : String)
      → times name todo
        ≡ (if listed name read then 0 else migrations_named name (files_of dir.read_dir))

All-insert_name :
    (P : String → Type 0) (n : String) (ms : List String)
    → P n
    → All P ms
    → All P (insert_name in_order n ms)
unfolding insert_name
All-insert_name P n [] p h = (p, tt)
All-insert_name P n (m ∷ ms) p h = elim (Bool-cases (in_order n m)) [
  | inl before ↦ rw before (p, h)
  | inr after ↦ rw after (h.0, All-insert_name P n ms p h.1)
]

All-in_order :
    (n m : String) (ms : List String)
    → in_order n m ≡ true
    → All (λ x. in_order m x ≡ true) ms
    → All (λ x. in_order n x ≡ true) ms
All-in_order n m [] h k = tt
All-in_order n m (x ∷ xs) h k = (in_order_trans n m x h k.0, All-in_order n m xs h k.1)

insert_name-Sorted :
    (n : String) (ms : List String) → Sorted ms → Sorted (insert_name in_order n ms)
unfolding insert_name
insert_name-Sorted n [] h = (tt, tt)
insert_name-Sorted n (m ∷ ms) h = elim (Bool-cases (in_order n m)) [
  | inl before ↦ rw before ((before, All-in_order n m ms before h.0), h)
  | inr after ↦ rw after (
    All-insert_name (λ x. in_order m x ≡ true) n ms (in_order_total n m after) h.0,
    insert_name-Sorted n ms h.1,
  )
]

sort_strings-Sorted : (ns : List String) → Sorted (sort_strings in_order ns)
unfolding sort_strings
sort_strings-Sorted [] = tt
sort_strings-Sorted (n ∷ ns) =
    insert_name-Sorted n (sort_strings in_order ns) (sort_strings-Sorted ns)

All-pending : (P : String → Type 0) (read ns : List String) → All P ns → All P (pending read ns)
unfolding pending
All-pending P read [] h = tt
All-pending P read (n ∷ ns) h = elim (Bool-cases (listed n read)) [
  | inl old ↦ rw old (All-pending P read ns h.1)
  | inr new ↦ rw new (h.0, All-pending P read ns h.1)
]

pub pending-Sorted : (read ns : List String) → Sorted ns → Sorted (pending read ns)
unfolding pending
pending-Sorted read [] h = tt
pending-Sorted read (n ∷ ns) h = elim (Bool-cases (listed n read)) [
  | inl old ↦ rw old (pending-Sorted read ns h.1)
  | inr new ↦
      rw new (All-pending (λ x. in_order n x ≡ true) read ns h.0, pending-Sorted read ns h.1)
]

times-insert_name :
    (name n : String) (ms : List String)
    → times name (insert_name in_order n ms) ≡ times name (n ∷ ms)
unfolding times insert_name
times-insert_name name n [] = refl
times-insert_name name n (m ∷ ms) = ground (arith, times-insert_name name n ms)

times-sort_strings :
    (name : String) (ns : List String) → times name (sort_strings in_order ns) ≡ times name ns
unfolding sort_strings times
times-sort_strings name [] = refl
times-sort_strings name (n ∷ ns) =
    ground (arith, times-insert_name name n (sort_strings in_order ns), times-sort_strings name ns)

times-up_files :
    (name : String) (fs : List File)
    → times name (up_files has_suffix fs) ≡ migrations_named name fs
unfolding times up_files migrations_named
times-up_files name [] = refl
times-up_files name (f ∷ fs) = elim (Bool-cases (f.name == name)) [
  | inl same ↦ rw ((eq_iff f.name name).0 same) (ground (arith, times-up_files name fs))
  | inr other ↦ rw other (ground (arith, other, times-up_files name fs))
]

times-pending :
    (name : String) (read ns : List String)
    → times name (pending read ns) ≡ (if listed name read then 0 else times name ns)
unfolding times pending
times-pending name read [] = ground arith
times-pending name read (n ∷ ns) = elim (Bool-cases (n == name)) [
  | inl same ↦ rw ((eq_iff n name).0 same) (ground (arith, times-pending name read ns))
  | inr other ↦ ground (arith, other, times-pending name read ns)
]

-- What is left of the sorted names of a directory once those that were read are left out.
pub todo-InOrder :
    (read : List String) (dir : Directory)
    → InOrder read dir
        (pending read (sort_strings in_order (up_files has_suffix (files_of dir.read_dir))))
todo-InOrder read dir = record {
  sorted = pending-Sorted read (sort_strings in_order names) (sort_strings-Sorted names);
  chosen = λ name.
      rw
        (
          times-pending name read (sort_strings in_order names),
          times-sort_strings name names,
          times-up_files name (files_of dir.read_dir),
        )
        refl;
}
  where
    names : List String
    names = up_files has_suffix (files_of dir.read_dir)
