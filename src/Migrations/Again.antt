-- ===== src/Migrations/Again.antt =====
-- A run of the migrations after one that succeeded.
use pauli.Common.{ℕ, ◌+◌, ◌≡◌, refl, sym, ap, ◌∙◌, subst, true, some, List, [], ◌∷◌, All}
use pauli.Text.{Text, text}
use pauli.Exec.{Result, ok, annotated, annotate, lift, bind-ok}
use pauli.Exec.Post.{IfOk, Post-weaken}
use pauli.Storage.{answered}
use pauli.Migrations.{
  Client, State, Tables, Migration, MigrationRecord, Entry, exists_version, rows_of, read_rows,
  create_if_missing, load_migrations_pg, apply_pending, ensure_migrations_table,
  get_applied_migrations, run_migrations,
}
use pauli.Migrations.Statements.{put-ok, ask-ok}
use pauli.Migrations.Runs.{Ran, run_migrations-Ran}
use pauli.Migrations.Records.{Steps-records, table_stays}

module _ {S : Type 0} (c : Client S) where
  apply_pending-none :
      (applied : List MigrationRecord) (ms : List Migration) (w : State S)
      → All (λ (m : Migration). exists_version m.version applied ≡ true) ms
      → apply_pending c applied ms w ≡ (ok tt, w)
  unfolding apply_pending
  apply_pending-none applied [] w h = refl
  apply_pending-none applied (m ∷ ms) w h = rw (h.0) (apply_pending-none applied ms w h.1)

  -- The tables have schema_migrations, with the version of every file.
  abbrev pub UpToDate : (Text → Text) → List Entry → Tables S → Type 0
  UpToDate checksum files t =
      (ms : List Migration) × (rows : List MigrationRecord) × (load_migrations_pg checksum files
        ≡ ok ms)
      × (t.migrations ≡ some rows)
      × All (λ (m : Migration). exists_version m.version rows ≡ true) ms

  abbrev placed : ℕ → S → List MigrationRecord → State S
  placed n schema rows = record {
    calls = n;
    tables = record { schema = schema; migrations = some rows };
  }

  ensured :
      (n : ℕ) (schema : S) (rows : List MigrationRecord)
      → c.fate n ≡ answered
      → ensure_migrations_table c (placed n schema rows) ≡ (ok tt, placed (n + 1) schema rows)
  unfolding ensure_migrations_table
  ensured n schema rows live =
      ap
        (λ (x : Result (Unit {0}) × State S).
          (annotated (text "failed to create schema_migrations table") x.0, x.1))
        (put-ok c create_if_missing (placed n schema rows) live)

  got :
      (n : ℕ) (schema : S) (rows : List MigrationRecord)
      → c.fate n ≡ answered
      → get_applied_migrations c (placed n schema rows) ≡ (ok rows, placed (n + 1) schema rows)
  unfolding get_applied_migrations
  got n schema rows live =
      ap
        (λ (x : Result (List MigrationRecord) × State S).
          (annotated (text "failed to get applied migrations") x.0, x.1))
        (ask-ok c (λ t. read_rows t.migrations) (placed n schema rows) live)

  again_placed :
      (checksum : Text → Text) (files : List Entry) (n : ℕ) (schema : S) (ms : List Migration)
      (rows : List MigrationRecord)
      → load_migrations_pg checksum files ≡ ok ms
      → All (λ (m : Migration). exists_version m.version rows ≡ true) ms
      → ((n : ℕ) → c.fate n ≡ answered)
      → run_migrations c checksum files (placed n schema rows)
        ≡ (ok tt, placed (n + 1 + 1) schema rows)
  unfolding run_migrations
  again_placed checksum files n schema ms rows e known live =
      bind-ok (annotate _ (lift (load_migrations_pg checksum files))) _ ms _ (placed n schema rows)
        (rw e refl)
      ∙ (bind-ok (ensure_migrations_table c) _ tt _ (placed n schema rows)
            (ensured n schema rows (live n))
          ∙ (bind-ok (get_applied_migrations c) _ rows _ (placed (n + 1) schema rows)
                (got (n + 1) schema rows (live (n + 1)))
              ∙ apply_pending-none rows ms (placed (n + 1 + 1) schema rows) known))

  -- A run over tables that are up to date, with a server that answers, returns no error and changes
  -- nothing.
  again :
      (checksum : Text → Text) (files : List Entry) (w : State S)
      → UpToDate checksum files w.tables
      → ((n : ℕ) → c.fate n ≡ answered)
      → ((run_migrations c checksum files w).0 ≡ ok tt)
        × ((run_migrations c checksum files w).1.tables ≡ w.tables)
  again checksum files w (ms, rows, e, there, known) live =
      let made : w ≡ placed w.calls w.tables.schema rows =
        ap
          (λ o. record {
            calls = w.calls;
            tables = record { schema = w.tables.schema; migrations = o };
          })
          there in
      subst
        (λ u.
          ((run_migrations c checksum files u).0 ≡ ok tt)
          × ((run_migrations c checksum files u).1.tables ≡ u.tables))
        (sym made)
        (let run = again_placed checksum files w.calls w.tables.schema ms rows e known live in
          (
            ap (λ (x : Result (Unit {0}) × State S). x.0) run,
            ap (λ (x : Result (Unit {0}) × State S). x.1.tables) run,
          ))

  Ran-UpToDate :
      (checksum : Text → Text) (files : List Entry) (w w' : State S)
      → Ran c checksum files w true w'
      → UpToDate checksum files w'.tables
  Ran-UpToDate checksum files w w' (ms, e, ordered, steps) =
      let h =
        Steps-records c (rows_of w.tables.migrations) ms (create_if_missing w.tables) w'.tables
          (λ v q. q) steps in
      let (rows, there) =
        table_stays c (rows_of w.tables.migrations) ms (create_if_missing w.tables) w'.tables
          (rows_of w.tables.migrations) refl steps in
      (
        ms,
        rows,
        e,
        there,
        subst (λ o. All (λ (m : Migration). exists_version m.version (rows_of o) ≡ true) ms) there
            h.0,
      )

module _ {S : Type 0} (c d : Client S) where
  -- After a run of the migrations that returns no error a further run of the same files, with a
  -- server that answers, returns no error and changes nothing.
  pub run_migrations-again :
      (checksum : Text → Text) (files : List Entry) (w : State S)
      → ((n : ℕ) → d.fate n ≡ answered)
      → IfOk
          (λ _ w'.
            ((run_migrations d checksum files w').0 ≡ ok tt)
            × ((run_migrations d checksum files w').1.tables ≡ w'.tables))
          (run_migrations c checksum files w)
  run_migrations-again checksum files w live =
      Post-weaken (run_migrations c checksum files w)
        (λ _ w' h. again d checksum files w' (Ran-UpToDate c checksum files w w' h) live)
        (λ _ _. tt) (run_migrations-Ran c checksum files w)
