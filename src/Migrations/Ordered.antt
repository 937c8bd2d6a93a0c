-- ===== src/Migrations/Ordered.antt =====
-- loadMigrationsPG: which files it reads, and the order that it puts their migrations in.
use mathlib.Core.List.{Perm}
use mathlib.Core.List.Perm
use pauli.Common.{
  ◌≡◌, refl, ap, inl, inr, Bool, true, false, not, ◌||◌, List, [], ◌∷◌, ◌++◌, subst, arith,
  Bool-cases,
}
use pauli.Common.Orders.{IsSorted, order_by, insert_row, order_by-IsSorted}
use pauli.Text.{Text, text}
use pauli.Text.Cut.{has_suffix, text_lt}
use pauli.Text.Order.{text_lt-flip, text_lt-between}
use pauli.Exec.{Result, ok, err, and_then, annotated}
use pauli.Migrations.{Migration, Entry, migration_of, walk, load_migrations_pg, earlier}

-- The migrations of the SQL files among the entries, file by file.
pub data Reads (checksum : Text → Text) : List Entry → List Migration → Type 0 where
  nothing : Reads checksum [] []
  skipped :
      {e : Entry} {es : List Entry} {ms : List Migration}
      → (e.is_dir || not (has_suffix e.path (text ".sql"))) ≡ true
      → Reads checksum es ms
      → Reads checksum (e ∷ es) ms
  found :
      {e : Entry} {es : List Entry} {ms : List Migration} {content : Text}
      → (e.is_dir || not (has_suffix e.path (text ".sql"))) ≡ false
      → e.content ≡ ok content
      → Reads checksum es ms
      → Reads checksum (e ∷ es) (migration_of checksum e.path content ∷ ms)

-- No version is smaller than one in front of it.
abbrev pub in_order : Migration → Migration → Bool
in_order a b = not (text_lt b.version a.version)

-- The migrations are those of the SQL files, each once, in the order of their versions.
abbrev pub Loaded : (Text → Text) → List Entry → List Migration → Type 0
Loaded checksum files ms =
    (unsorted : List Migration) × Reads checksum files unsorted
    × Perm unsorted ms
    × IsSorted in_order ms

insert_row-Perm :
    {A : Type 0} (before : A → A → Bool) (x : A) (xs : List A)
    → Perm (x ∷ xs) (insert_row before x xs)
unfolding insert_row
insert_row-Perm before x [] = Perm.refl (x ∷ [])
insert_row-Perm before x (y ∷ ys) = elim (Bool-cases (before x y)) [
  | inl hit ↦ rw hit (Perm.refl (x ∷ (y ∷ ys)))
  | inr miss ↦ rw miss (Perm.trans (Perm.swap y x ys) (Perm.cons y (insert_row-Perm before x ys)))
]

order_by-Perm : {A : Type 0} (before : A → A → Bool) (xs : List A) → Perm xs (order_by before xs)
unfolding order_by
order_by-Perm before [] = Perm.refl []
order_by-Perm before (x ∷ xs) =
    Perm.trans (Perm.cons x (order_by-Perm before xs))
      (insert_row-Perm before x (order_by before xs))

order_by-in_order : (ms : List Migration) → IsSorted in_order (order_by earlier ms)
order_by-in_order =
    order_by-IsSorted in_order
      (λ a b h. ap not (text_lt-flip b.version a.version (ground (arith, h))))
      (λ a b c h k.
        ap not
          (text_lt-between a.version b.version c.version (ground (arith, h)) (ground (arith, k))))

walk-Reads :
    (checksum : Text → Text) (files : List Entry) (ms : List Migration)
    → walk checksum files ≡ ok ms
    → Reads checksum files ms
unfolding walk
walk-Reads checksum [] ms e =
    let same : [] ≡ ms = cc e in subst (Reads checksum []) same Reads.nothing
walk-Reads checksum (e ∷ es) ms h =
    elim (Bool-cases (e.is_dir || not (has_suffix e.path (text ".sql")))) [
      | inl skip ↦
          let k : walk checksum es ≡ ok ms = rw skip at h in
          Reads.skipped skip (walk-Reads checksum es ms k)
      | inr sql ↦
          readable sql e.content refl (walk checksum es) (λ more. walk-Reads checksum es more)
            (rw sql at h)
    ]
  where
    readable :
        (e.is_dir || not (has_suffix e.path (text ".sql"))) ≡ false
        → (x : Result Text) → e.content ≡ x
        → (rest : Result (List Migration))
        → ((more : List Migration) → rest ≡ ok more → Reads checksum es more)
        → and_then
            (annotated (text "failed to read " ++ e.path) x)
            (λ content. and_then rest (λ ms. ok (migration_of checksum e.path content ∷ ms)))
          ≡ ok ms
        → Reads checksum (e ∷ es) ms
    readable sql (ok content) got (ok more) later q =
        let same : migration_of checksum e.path content ∷ more ≡ ms = cc q in
        subst (Reads checksum (e ∷ es)) same (Reads.found sql got (later more refl))
    readable sql (ok content) got (err er) later q = absurd cc
    readable sql (err er) got rest later q = absurd cc

pub load_migrations_pg-Loaded :
    (checksum : Text → Text) (files : List Entry) (ms : List Migration)
    → load_migrations_pg checksum files ≡ ok ms
    → Loaded checksum files ms
unfolding load_migrations_pg
load_migrations_pg-Loaded checksum files ms e = go (walk checksum files) refl e
  where
    go :
        (x : Result (List Migration))
        → walk checksum files ≡ x
        → and_then x (λ ms. ok (order_by earlier ms)) ≡ ok ms
        → Loaded checksum files ms
    go (ok unsorted) w q =
        let same : order_by earlier unsorted ≡ ms = cc q in
        (
          unsorted,
          walk-Reads checksum files unsorted w,
          subst (Perm unsorted) same (order_by-Perm earlier unsorted),
          subst (IsSorted in_order) same (order_by-in_order unsorted),
        )
    go (err er) w q = absurd cc
