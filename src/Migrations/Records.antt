-- ===== src/Migrations/Records.antt =====
-- Which versions schema_migrations has after some migrations.
use pauli.Common.{
  ◌≡◌, ◌≢◌, refl, sym, ap, ◌∙◌, subst, inl, inr, true, Option, none, some, List, [], ◌∷◌, ◌++◌, All,
  Bool-cases, Option-cases,
}
use pauli.Text.{Text, text_eq}
use pauli.Text.Laws.{text_eq_refl}
use pauli.Exec.{Result, ok, err, and_then}
use pauli.Migrations.{
  Client, Tables, Migration, MigrationRecord, exists_version, rows_of, insert_into, insert_record,
  record_of, sent, split_statements,
}
use pauli.Migrations.Statements.{Applied, run_all}
use pauli.Migrations.Runs.{Steps}

exists-nil : (v : Text) → exists_version v [] ≢ true
unfolding exists_version
exists-nil v h = cc

exists-append :
    (v : Text) (rows more : List MigrationRecord)
    → exists_version v rows ≡ true
    → exists_version v (rows ++ more) ≡ true
unfolding exists_version
exists-append v [] more h = absurd cc
exists-append v (row ∷ rows) more h = elim (Bool-cases (text_eq v row.version)) [
  | inl here ↦ rw here refl
  | inr later ↦ rw later (exists-append v rows more (rw later at h))
]

exists-last :
    (new : MigrationRecord) (rows : List MigrationRecord)
    → exists_version new.version (rows ++ (new ∷ [])) ≡ true
unfolding exists_version
exists-last new [] = rw (text_eq_refl new.version) refl
exists-last new (row ∷ rows) = elim (Bool-cases (text_eq new.version row.version)) [
  | inl here ↦ rw here refl
  | inr later ↦ rw later (exists-last new rows)
]

-- What was recorded is still recorded.
abbrev Kept : Option (List MigrationRecord) → Option (List MigrationRecord) → Type 0
Kept o o' = (v : Text) → exists_version v (rows_of o) ≡ true → exists_version v (rows_of o') ≡ true

insert_into-records :
    (new : MigrationRecord) (o o' : Option (List MigrationRecord))
    → insert_into new o ≡ ok o'
    → (exists_version new.version (rows_of o') ≡ true) × Kept o o'
insert_into-records new none o' e = absurd cc
insert_into-records new (some rows) o' e = elim (Bool-cases (exists_version new.version rows)) [
  | inl old ↦ let f : err _ ≡ ok o' = rw old at e in absurd cc
  | inr fresh ↦
      let f : ok (some (rows ++ (new ∷ []))) ≡ ok o' = rw fresh at e in
      let g : some (rows ++ (new ∷ [])) ≡ o' = cc f in
      (
        subst (λ o. exists_version new.version (rows_of o) ≡ true) g (exists-last new rows),
        λ v h.
            subst (λ o. exists_version v (rows_of o) ≡ true) g (exists-append v rows (new ∷ []) h),
      )
]

module _ {S : Type 0} (c : Client S) where
  insert_record-records :
      (new : MigrationRecord) (t t' : Tables S)
      → insert_record new t ≡ ok t'
      → (exists_version new.version (rows_of t'.migrations) ≡ true)
        × Kept t.migrations t'.migrations
  insert_record-records new t t' e = go (insert_into new t.migrations) refl
    where
      go :
          (x : Result (Option (List MigrationRecord)))
          → insert_into new t.migrations ≡ x
          → (exists_version new.version (rows_of t'.migrations) ≡ true)
            × Kept t.migrations t'.migrations
      go (err er) q = let f : err er ≡ ok t' = rw q at e in absurd cc
      go (ok o) q =
          let f : ok (record t { migrations = o }) ≡ ok t' = rw q at e in
          let g : o ≡ t'.migrations = ap migrations_of f in
          subst (λ p. (exists_version new.version (rows_of p) ≡ true) × Kept t.migrations p) g
            (insert_into-records new t.migrations o q)
        where
          migrations_of : Result (Tables S) → Option (List MigrationRecord)
          migrations_of (ok t) = t.migrations
          migrations_of (err er) = none

  run_all-migrations :
      (stmts : List Text) (t t' : Tables S)
      → run_all c stmts t ≡ ok t'
      → t'.migrations ≡ t.migrations
  unfolding run_all
  run_all-migrations [] t t' e = ap migrations_of (sym e)
    where
      migrations_of : Result (Tables S) → Option (List MigrationRecord)
      migrations_of (ok t) = t.migrations
      migrations_of (err er) = none
  run_all-migrations (stmt ∷ stmts) t t' e =
      go (c.run stmt t.schema) (λ s f. run_all-migrations stmts (record t { schema = s }) t' f) e
    where
      go :
          (x : Result S)
          → ((s : S)
              → run_all c stmts (record t { schema = s }) ≡ ok t'
              → t'.migrations ≡ t.migrations)
          → and_then (and_then x (λ schema. ok (record t { schema = schema }))) (run_all c stmts)
            ≡ ok t'
          → t'.migrations ≡ t.migrations
      go (ok s) rest f = rest s f
      go (err er) rest f = absurd cc

  Applied-records :
      (m : Migration) (t t' : Tables S)
      → Applied c m t t'
      → (exists_version m.version (rows_of t'.migrations) ≡ true) × Kept t.migrations t'.migrations
  Applied-records m t t' (built, now, ran, kept) =
      let h = insert_record-records (record_of m now) built t' kept in
      let same = run_all-migrations (sent (split_statements m.sql)) t built ran in
      (h.0, λ v k. h.1 v (subst (λ o. exists_version v (rows_of o) ≡ true) (sym same) k))

  -- After all steps the versions of the list are recorded.
  pub Steps-records :
      (applied : List MigrationRecord) (ms : List Migration) (t t' : Tables S)
      → ((v : Text)
          → exists_version v applied ≡ true
          → exists_version v (rows_of t.migrations) ≡ true)
      → Steps c applied true ms t t'
      → All (λ (m : Migration). exists_version m.version (rows_of t'.migrations) ≡ true) ms
        × Kept t.migrations t'.migrations
  Steps-records applied [] t t' from Steps.end = (tt, λ v h. h)
  Steps-records applied (m ∷ ms) t t' from (Steps.known old rest) =
      let h = Steps-records applied ms t t' from rest in
      ((h.1 m.version (from m.version old), h.0), h.1)
  Steps-records applied (m ∷ ms) t t' from (Steps.pending {t' = t1} new one rest) =
      let k = Applied-records m t t1 one in
      let h = Steps-records applied ms t1 t' (λ v q. k.1 v (from v q)) rest in
      ((h.1 m.version k.0, h.0), λ v q. h.1 v (k.1 v q))

  -- The table of migrations stays there.
  pub table_stays :
      (applied : List MigrationRecord) (ms : List Migration) (t t' : Tables S)
      (rows : List MigrationRecord)
      → t.migrations ≡ some rows
      → Steps c applied true ms t t'
      → (more : List MigrationRecord) × (t'.migrations ≡ some more)
  table_stays applied [] t t' rows h Steps.end = (rows, h)
  table_stays applied (m ∷ ms) t t' rows h (Steps.known old rest) =
      table_stays applied ms t t' rows h rest
  table_stays applied (m ∷ ms) t t' rows h (Steps.pending {t' = t1} new one rest) =
      elim (Option-cases t1.migrations) [
        | inl gone ↦ absurd (
            exists-nil m.version (
              ap (λ o. exists_version m.version (rows_of o)) (sym gone)
              ∙ (Applied-records m t t1 one).0))
        | inr (some_rows, there) ↦ table_stays applied ms t1 t' some_rows there rest
      ]
