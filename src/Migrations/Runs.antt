-- ===== src/Migrations/Runs.antt =====
-- RunMigrations: the tables that a run can leave, and a second run.
use pauli.Common.{
  ◌≡◌, refl, sym, ap, ◌∙◌, subst, ◌⊎◌, inl, inr, Bool, true, false, List, [], ◌∷◌, Bool-cases,
}
use pauli.Text.{Text}
use pauli.Exec.{Result, ok, err, annotate, lift, ◌>>=◌}
use pauli.Exec.Post.{Post, Post-bind, Post-annotate, Post-weaken}
use pauli.Migrations.{
  Client, State, Tables, Migration, MigrationRecord, Entry, put, ask, exists_version, rows_of,
  read_rows, create_if_missing, load_migrations_pg, apply_migration, apply_pending,
  ensure_migrations_table, get_applied_migrations, run_migrations,
}
use pauli.Migrations.Ordered.{Loaded, load_migrations_pg-Loaded}
use pauli.Migrations.Statements.{
  Applied, Same, Done, Left, apply_migration-Applied, put-Post, Untouched, annotated-Untouched,
  after_ask,
}

module _ {S : Type 0} (c : Client S) where
  -- From some tables to others by the pending migrations of a list, in its order: all of them, or,
  -- where the first index is false, those up to some point.
  pub data Steps (applied : List MigrationRecord)
      : Bool → List Migration → Tables S → Tables S → Type 0 where
    end : {b : Bool} {t : Tables S} → Steps applied b [] t t
    stop : {ms : List Migration} {t : Tables S} → Steps applied false ms t t
    known :
        {b : Bool} {m : Migration} {ms : List Migration} {t t' : Tables S}
        → exists_version m.version applied ≡ true
        → Steps applied b ms t t'
        → Steps applied b (m ∷ ms) t t'
    pending :
        {b : Bool} {m : Migration} {ms : List Migration} {t t' t'' : Tables S}
        → exists_version m.version applied ≡ false
        → Applied c m t t'
        → Steps applied b ms t' t''
        → Steps applied b (m ∷ ms) t t''

  apply_pending-Steps :
      (applied : List MigrationRecord) (ms : List Migration) (w : State S)
      → Post
          (λ _ w'. Steps applied true ms w.tables w'.tables)
          (λ w'. Steps applied false ms w.tables w'.tables)
          (apply_pending c applied ms w)
  unfolding apply_pending
  apply_pending-Steps applied [] w = Steps.end
  apply_pending-Steps applied (m ∷ ms) w = elim (Bool-cases (exists_version m.version applied)) [
    | inl old ↦ rw old (
        Post-weaken (apply_pending c applied ms w) (λ _ w' h. Steps.known old h)
          (λ w' h. Steps.known old h) (apply_pending-Steps applied ms w))
    | inr new ↦ rw new (
        Post-bind (Done c m w) (λ _ w'. Steps applied true (m ∷ ms) w.tables w'.tables)
          (λ w'. Steps applied false (m ∷ ms) w.tables w'.tables) (apply_migration c m)
          (λ _. apply_pending c applied ms) w
          (Post-weaken (apply_migration c m w) (λ _ w' h. h) (λ w' o. left new w' o)
            (apply_migration-Applied c m w))
          (λ _ w' h.
            Post-weaken (apply_pending c applied ms w') (λ _ w'' k. Steps.pending new h k)
              (λ w'' k. Steps.pending new h k) (apply_pending-Steps applied ms w')))
  ]
    where
      left :
          exists_version m.version applied ≡ false
          → (w' : State S) → Left c m w w'
          → Steps applied false (m ∷ ms) w.tables w'.tables
      left new w' (inl same) = subst (Steps applied false (m ∷ ms) w.tables) (sym same) Steps.stop
      left new w' (inr all) = Steps.pending new all Steps.stop

  module _ (checksum : Text → Text) (files : List Entry) (w : State S) where
    -- The migrations of the files, in the order of their versions, are applied to the tables: all,
    -- or some.
    abbrev pub Ran : Bool → State S → Type 0
    Ran b w' =
        (ms : List Migration) × (load_migrations_pg checksum files ≡ ok ms)
        × Loaded checksum files ms
        × Steps (rows_of w.tables.migrations) b ms (create_if_missing w.tables) w'.tables

    loaded :
        (context : Text) (x : Result (List Migration))
        → load_migrations_pg checksum files ≡ x
        → Untouched
            (λ ms. load_migrations_pg checksum files ≡ ok ms)
            w
            (annotate context (lift x) w)
    loaded context (ok ms) e = (e, refl)
    loaded context (err er) e = refl

    after_table :
        (ms : List Migration) (w1 : State S)
        → load_migrations_pg checksum files ≡ ok ms
        → w1.tables ≡ create_if_missing w.tables
        → Post
            (λ _. Ran true)
            (Ran false)
            ((get_applied_migrations c >>= λ applied. apply_pending c applied ms) w1)
    unfolding get_applied_migrations
    after_table ms w1 e made =
        after_ask (λ rows. read_rows w1.tables.migrations ≡ ok rows) (λ _. Ran true) (Ran false)
          (annotate _ (ask c (λ t. read_rows t.migrations))) _ w1
          (annotated-Untouched c _ (λ t. read_rows t.migrations) w1)
          (λ rows w2 read same.
            let there : rows ≡ rows_of w.tables.migrations =
              ok_injective (sym read ∙ ap (λ (t : Tables S). read_rows t.migrations) made) in
            Post-weaken (apply_pending c rows ms w2)
              (λ _ w3 h. (
                ms,
                e,
                load_migrations_pg-Loaded checksum files ms e,
                moved rows w2 w3 true (same ∙ made) there h,
              ))
              (λ w3 h. (
                ms,
                e,
                load_migrations_pg-Loaded checksum files ms e,
                moved rows w2 w3 false (same ∙ made) there h,
              ))
              (apply_pending-Steps rows ms w2))
          (λ w2 same. (
            ms,
            e,
            load_migrations_pg-Loaded checksum files ms e,
            subst (Steps _ false ms _) (sym (same ∙ made)) Steps.stop,
          ))
      where
        ok_injective : {A : Type 0} {a b : A} → ok a ≡ ok b → a ≡ b
        ok_injective q = cc q

        moved :
            (rows : List MigrationRecord) (w2 w3 : State S) (b : Bool)
            → w2.tables ≡ create_if_missing w.tables
            → rows ≡ rows_of w.tables.migrations
            → Steps rows b ms w2.tables w3.tables
            → Steps (rows_of w.tables.migrations) b ms (create_if_missing w.tables) w3.tables
        moved rows w2 w3 b q there h =
            subst (λ r. Steps r b ms (create_if_missing w.tables) w3.tables) there
              (subst (λ t. Steps rows b ms t w3.tables) q h)

    -- Whatever the server answers, a run leaves the tables alone, or creates schema_migrations where
    -- it is missing and applies migrations of the SQL files that were not applied before it, in
    -- the order of their versions, each of them with its record and with what the splitting of its
    -- text gives to run: all of them if it returns no error.
    pub run_migrations-Ran :
        Post
          (λ _. Ran true)
          (λ w'. (w'.tables ≡ w.tables) ⊎ Ran false w')
          (run_migrations c checksum files w)
    unfolding run_migrations ensure_migrations_table
    run_migrations-Ran =
        after_ask (λ ms. load_migrations_pg checksum files ≡ ok ms) (λ _. Ran true) Out
          (annotate _ (lift (load_migrations_pg checksum files))) _ w
          (loaded _ (load_migrations_pg checksum files) refl)
          (λ ms w1 e same.
            Post-bind (λ _ w2. w2.tables ≡ create_if_missing w.tables) (λ _. Ran true) Out
              (annotate _ (put c create_if_missing)) _ w1
              (Post-annotate (λ _ w2. w2.tables ≡ create_if_missing w.tables) Out _
                (put c create_if_missing) w1
                (Post-weaken (put c create_if_missing w1) (λ _ w2 q. q ∙ ap create_if_missing same)
                  (created ms w1 e same) (put-Post c create_if_missing w1)))
              (λ _ w2 made.
                Post-weaken {R = λ _. Ran true} {F = Out}
                  ((get_applied_migrations c >>= λ applied. apply_pending c applied ms) w2)
                  (λ _ _ h. h) (λ w3 h. inr h) (after_table ms w2 e made)))
          (λ w1 same. inl same)
      where
        Out : State S → Type 0
        Out w' = (w'.tables ≡ w.tables) ⊎ Ran false w'

        created :
            (ms : List Migration) (w1 : State S)
            → load_migrations_pg checksum files ≡ ok ms
            → Same w w1
            → (w2 : State S) → (w2.tables ≡ w1.tables) ⊎ (w2.tables ≡ create_if_missing w1.tables)
            → Out w2
        created ms w1 e same w2 (inl q) = inl (q ∙ same)
        created ms w1 e same w2 (inr q) = inr (
          ms,
          e,
          load_migrations_pg-Loaded checksum files ms e,
          subst (Steps (rows_of w.tables.migrations) false ms (create_if_missing w.tables))
              (sym (q ∙ ap create_if_missing same)) Steps.stop,
        )
