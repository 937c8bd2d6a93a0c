-- ===== src/Migrations.antt =====
-- internal/storage/postgres/migrations.go. The embedded files, the checksum of a file and what a
-- statement of SQL does to the schema are given.
pub mod Statements
pub mod Names
pub mod Runs
pub mod Records
pub mod Ordered
pub mod Blocks
pub mod Again
use pauli.Common.{
  ℕ, ◌+◌, Bool, true, false, ◌&&◌, ◌||◌, not, Option, none, some, List, [], ◌∷◌, ◌++◌, ◌==◌,
  if◌then◌else◌,
}
use pauli.Common.Orders.{order_by}
use pauli.Text.{Text, is_empty, text, text_eq, has_prefix, contains}
use pauli.Text.Cut.{
  trim_space, has_suffix, trim_suffix, split_lines, split_first, base_name, text_lt,
}
use pauli.Exec.{
  Error, plain, Result, ok, err, annotated, and_then, Exec, pure, raise, annotate, lift, ◌>>=◌,
  ◌>>◌,
}
use pauli.Storage.{Fate, answered, refused, reply_lost}

pub record Migration : Type 0 where
  pub version : Text
  pub name : Text
  pub sql : Text
  pub checksum : Text

-- A row of schema_migrations.
pub record MigrationRecord : Type 0 where
  pub version : Text
  pub name : Text
  pub applied_at : ℕ
  pub checksum : Text

-- What fs.WalkDir visits, in its order.
pub record Entry : Type 0 where
  pub path : Text
  pub is_dir : Bool
  pub content : Result Text

abbrev pub named_parts : Text → Option (Text × Text) → Text × Text
named_parts base (some (version, name)) = (version, name)
named_parts base none = (base, base)

unfoldable pub parse_migration_filename : Text → Text × Text
parse_migration_filename filename =
    let base = trim_suffix filename (text ".sql") in named_parts base (split_first b'_' base)

abbrev pub migration_of : (Text → Text) → Text → Text → Migration
migration_of checksum path content =
    let (version, name) = parse_migration_filename (base_name path) in
    record { version = version; name = name; sql = content; checksum = checksum content }

-- The visit of each entry, until one returns an error.
unfoldable pub walk : (Text → Text) → List Entry → Result (List Migration)
walk checksum [] = ok []
walk checksum (entry ∷ entries) =
    let rest = walk checksum entries in
    if entry.is_dir || not (has_suffix entry.path (text ".sql"))
    then rest
    else and_then (annotated (text "failed to read " ++ entry.path) entry.content)
        (λ content. and_then rest (λ ms. ok (migration_of checksum entry.path content ∷ ms)))

-- a stands in front of b unless b's version is smaller.
abbrev pub earlier : Migration → Migration → Bool
earlier a b = not (text_lt b.version a.version)

unfoldable pub load_migrations_pg : (Text → Text) → List Entry → Result (List Migration)
load_migrations_pg checksum files = and_then (walk checksum files) (λ ms. ok (order_by earlier ms))

-- The loop over the lines: what is collected, whether a block comment is open, and the statements.
abbrev pub finished : Text → List Text → List Text
finished stmt rest = if is_empty stmt then rest else stmt ∷ rest

unfoldable pub split_from : Text → Bool → List Text → List Text
split_from current in_comment [] = finished (trim_space current) []
split_from current in_comment (line ∷ lines) =
    let trimmed = trim_space line in
    let opened = in_comment || contains line (text "/*") in
    let collected = current ++ (line ++ (10 ∷ [])) in
    let skipped = split_from current in_comment lines in
    let closed = split_from current false lines in
    let inside = split_from current true lines in
    let ended = split_from [] false lines in
    let going = split_from collected false lines in
    if has_prefix trimmed (text "--")
    then skipped
    else (if contains line (text "*/")
        then closed
        else (if opened
            then inside
            else (if has_suffix trimmed (text ";")
                then finished (trim_suffix (trim_space collected) (text ";")) ended
                else going)))

unfoldable pub split_statements : Text → List Text
split_statements sql_text = split_from [] false (split_lines sql_text)

-- The schema that the migrations build, and schema_migrations, which may not be there yet.
pub record Tables (S : Type 0) : Type 0 where
  pub schema : S
  pub migrations : Option (List MigrationRecord)

pub record State (S : Type 0) : Type 0 where
  pub calls : ℕ
  pub tables : Tables S

-- postgres.Client: the fate of each exchange with the server, what a statement does, the clock.
pub record Client (S : Type 0) : Type 0 where
  pub fate : ℕ → Fate
  pub run : Text → S → Result S
  pub clock : ℕ → ℕ

abbrev pub rows_of : Option (List MigrationRecord) → List MigrationRecord
rows_of none = []
rows_of (some rows) = rows

-- A version is a key of the map of applied migrations.
unfoldable pub exists_version : Text → List MigrationRecord → Bool
exists_version v [] = false
exists_version v (row ∷ rows) = text_eq v row.version || exists_version v rows

abbrev lost : Error
lost = plain (text "connection lost")

abbrev duplicate_key : Error
duplicate_key = plain (text "duplicate key value violates unique constraint")

abbrev missing_table : Error
missing_table = plain (text "relation schema_migrations does not exist")

-- INSERT INTO schema_migrations: the version is the primary key.
abbrev pub insert_into :
    MigrationRecord → Option (List MigrationRecord) → Result (Option (List MigrationRecord))
insert_into new none = err missing_table
insert_into new (some rows) =
    if exists_version new.version rows then err duplicate_key else ok (some (rows ++ (new ∷ [])))

abbrev pub read_rows : Option (List MigrationRecord) → Result (List MigrationRecord)
read_rows none = err missing_table
read_rows (some rows) = ok rows

-- The statements of the file that applyMigration sends.
unfoldable pub sent : List Text → List Text
sent [] = []
sent (stmt ∷ stmts) =
    let trimmed = trim_space stmt in
    let rest = sent stmts in
    if is_empty trimmed || has_prefix trimmed (text "--") then rest else trimmed ∷ rest

abbrev pub record_of : Migration → ℕ → MigrationRecord
record_of m now = record {
  version = m.version;
  name = m.name;
  applied_at = now;
  checksum = m.checksum;
}

module _ {S : Type 0} where
  abbrev pub counted : State S → State S
  counted w = record w { calls = w.calls + 1 }

  abbrev pub with_tables : Tables S → State S → State S
  with_tables t w = record w { tables = t }

  -- One exchange that reads.
  unfoldable pub ask : {A : Type 0} → Client S → (Tables S → Result A) → Exec (State S) A
  ask c read w = elim (c.fate w.calls) [
    | answered ↦ (read w.tables, counted w)
    | _ ↦ (err lost, counted w)
  ]

  -- One exchange that leaves these tables: a statement that cannot fail, or a commit.
  unfoldable pub put : Client S → (Tables S → Tables S) → Exec (State S) (Unit {0})
  put c change w = elim (c.fate w.calls) [
    | answered ↦ (ok tt, with_tables (change w.tables) (counted w))
    | refused ↦ (err lost, counted w)
    | reply_lost ↦ (err lost, with_tables (change w.tables) (counted w))
  ]

  abbrev pub create_if_missing : Tables S → Tables S
  create_if_missing t = record t { migrations = some (rows_of t.migrations) }

  -- One statement of an open transaction, on the tables as the transaction sees them.
  abbrev pub run_statement : Client S → Text → Tables S → Result (Tables S)
  run_statement c stmt t =
      and_then (c.run stmt t.schema) (λ schema. ok (record t { schema = schema }))

  abbrev pub insert_record : MigrationRecord → Tables S → Result (Tables S)
  insert_record new t =
      and_then (insert_into new t.migrations) (λ rows. ok (record t { migrations = rows }))

module _ {S : Type 0} (c : Client S) where
  unfoldable pub ensure_migrations_table : Exec (State S) (Unit {0})
  ensure_migrations_table =
      annotate (text "failed to create schema_migrations table") (put c create_if_missing)

  unfoldable pub get_applied_migrations : Exec (State S) (List MigrationRecord)
  get_applied_migrations =
      annotate (text "failed to get applied migrations") (ask c (λ t. read_rows t.migrations))

  unfoldable pub exec_statements : Text → List Text → Tables S → Exec (State S) (Tables S)
  exec_statements version [] t = pure t
  exec_statements version (stmt ∷ stmts) t =
      annotate (text "migration " ++ (version ++ text " failed"))
        (ask c (λ _. run_statement c stmt t))
      >>= λ t'. exec_statements version stmts t'

  -- Begin, the statements, the record, and the commit; on an error the transaction is rolled back.
  unfoldable pub apply_migration : Migration → Exec (State S) (Unit {0})
  apply_migration m = do
    begun ← annotate (text "failed to begin migration transaction") (ask c ok)
    built ← exec_statements m.version (sent (split_statements m.sql)) begun
    now ← λ w. (ok (c.clock w.calls), w)
    recorded ←
        annotate (text "failed to record migration " ++ m.version)
          (ask c (λ _. insert_record (record_of m now) built))
    annotate (text "failed to commit migration " ++ m.version) (put c (λ _. recorded))

  -- The loop over the migrations; `applied` was read before it.
  unfoldable pub apply_pending : List MigrationRecord → List Migration → Exec (State S) (Unit {0})
  apply_pending applied [] = pure tt
  apply_pending applied (m ∷ ms) =
      let skip = apply_pending applied ms in
      let run = apply_migration m >> apply_pending applied ms in
      if exists_version m.version applied then skip else run

  unfoldable pub run_migrations : (Text → Text) → List Entry → Exec (State S) (Unit {0})
  run_migrations checksum files = do
    ms ←
        annotate (text "failed to load postgres migrations")
          (lift (load_migrations_pg checksum files))
    ensure_migrations_table
    applied ← get_applied_migrations
    apply_pending applied ms
