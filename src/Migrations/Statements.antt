-- ===== src/Migrations/Statements.antt =====
-- Exchanges with the server during a migration, and the transaction that one migration is.
use pauli.Common.{ℕ, ◌≡◌, refl, sym, ap, ◌∙◌, subst, ◌⊎◌, inl, inr, List, [], ◌∷◌}
use pauli.Text.{Text}
use pauli.Exec.{Result, ok, err, and_then, Exec, annotate, ◌>>=◌}
use pauli.Exec.Post.{Post, Post-bind, Post-annotate, Post-weaken}
use pauli.Storage.{Fate, answered, refused, reply_lost}
use pauli.Migrations.{
  Client, State, Tables, Migration, ask, put, counted, with_tables, run_statement, insert_record,
  exec_statements, sent, split_statements, record_of, apply_migration,
}

module _ {S : Type 0} where
  abbrev pub Same : State S → State S → Type 0
  Same w w' = w'.tables ≡ w.tables

  -- A call that leaves the tables alone, and what holds of its value.
  abbrev pub Untouched : {A : Type 0} → (A → Type 0) → State S → Result A × State S → Type 0
  Untouched Q w = Post (λ a w'. Q a × Same w w') (Same w)

  pub after_ask :
      {A B : Type 0} (Q : A → Type 0) (R : B → State S → Type 0) (E : State S → Type 0)
      (m : Exec (State S) A) (f : A → Exec (State S) B) (w : State S)
      → Untouched Q w (m w)
      → ((a : A) (w' : State S) → Q a → Same w w' → Post R E (f a w'))
      → ((w' : State S) → Same w w' → E w')
      → Post R E ((m >>= f) w)
  after_ask Q R E m f w h k e =
      Post-bind (λ a w'. Q a × Same w w') R E m f w (Post-weaken (m w) (λ a w' q. q) e h)
        (λ a w' q. k a w' q.0 q.1)

module _ {S : Type 0} (c : Client S) where
  reply-Untouched :
      {A : Type 0} (read : Tables S → Result A) (w w' : State S) (x : Result A)
      → read w.tables ≡ x
      → Same w w'
      → Untouched (λ a. read w.tables ≡ ok a) w (x, w')
  reply-Untouched read w w' (ok a) e s = (e, s)
  reply-Untouched read w w' (err er) e s = s

  ask-Untouched :
      {A : Type 0} (read : Tables S → Result A) (w : State S)
      → Untouched (λ a. read w.tables ≡ ok a) w (ask c read w)
  unfolding ask
  ask-Untouched {A} read w = go (c.fate w.calls)
    where
      go :
          (f : Fate)
          → Untouched (λ a. read w.tables ≡ ok a) w (ask (record c { fate = λ _. f }) read w)
      go answered = reply-Untouched read w (counted w) (read w.tables) refl refl
      go refused = refl
      go reply_lost = refl

  pub annotated-Untouched :
      {A : Type 0} (context : Text) (read : Tables S → Result A) (w : State S)
      → Untouched (λ a. read w.tables ≡ ok a) w (annotate context (ask c read) w)
  annotated-Untouched context read w =
      Post-annotate (λ a w'. (read w.tables ≡ ok a) × Same w w') (Same w) context (ask c read) w
        (ask-Untouched read w)

  pub put-Post :
      (change : Tables S → Tables S) (w : State S)
      → Post
          (λ _ w'. w'.tables ≡ change w.tables)
          (λ w'. (w'.tables ≡ w.tables) ⊎ (w'.tables ≡ change w.tables))
          (put c change w)
  unfolding put
  put-Post change w = go (c.fate w.calls)
    where
      go :
          (f : Fate)
          → Post
              (λ _ w'. w'.tables ≡ change w.tables)
              (λ w'. (w'.tables ≡ w.tables) ⊎ (w'.tables ≡ change w.tables))
              (put (record c { fate = λ _. f }) change w)
      go answered = refl
      go refused = inl refl
      go reply_lost = inr refl

  pub put-ok :
      (change : Tables S → Tables S) (w : State S)
      → c.fate w.calls ≡ answered
      → put c change w ≡ (ok tt, with_tables (change w.tables) (counted w))
  unfolding put
  put-ok change w live = rw (live, put) refl

  pub ask-ok :
      {A : Type 0} (read : Tables S → Result A) (w : State S)
      → c.fate w.calls ≡ answered
      → ask c read w ≡ (read w.tables, counted w)
  unfolding ask
  ask-ok read w live = rw (live, ask) refl

  -- What the statements make of the tables, one after the other.
  unfoldable pub run_all : List Text → Tables S → Result (Tables S)
  run_all [] t = ok t
  run_all (stmt ∷ stmts) t = and_then (run_statement c stmt t) (run_all stmts)

  exec_statements-Untouched :
      (version : Text) (stmts : List Text) (t : Tables S) (w : State S)
      → Untouched (λ t'. run_all stmts t ≡ ok t') w (exec_statements c version stmts t w)
  unfolding exec_statements run_all
  exec_statements-Untouched version [] t w = (refl, refl)
  exec_statements-Untouched version (stmt ∷ stmts) t w =
      after_ask (λ t'. run_statement c stmt t ≡ ok t')
        (λ t' w'. (run_all (stmt ∷ stmts) t ≡ ok t') × Same w w') (Same w)
        (annotate _ (ask c (λ _. run_statement c stmt t))) (exec_statements c version stmts) w
        (annotated-Untouched _ (λ _. run_statement c stmt t) w)
        (λ t' w' e same.
          Post-weaken (exec_statements c version stmts t' w')
            (λ t'' w'' k. (ap (λ x. and_then x (run_all stmts)) e ∙ k.0, k.1 ∙ same))
            (λ w'' k. k ∙ same) (exec_statements-Untouched version stmts t' w'))
        (λ w' same. same)

  -- The tables after the whole of a migration: all its statements, and its record.
  abbrev pub Applied : Migration → Tables S → Tables S → Type 0
  Applied m t t' =
      (built : Tables S) × (now : ℕ) × (run_all (sent (split_statements m.sql)) t ≡ ok built)
      × (insert_record (record_of m now) built ≡ ok t')

  abbrev pub Done : Migration → State S → Unit {0} → State S → Type 0
  Done m w _ w' = Applied m w.tables w'.tables

  abbrev pub Left : Migration → State S → State S → Type 0
  Left m w w' = (w'.tables ≡ w.tables) ⊎ Applied m w.tables w'.tables

  committed :
      (m : Migration) (w w' : State S) (t : Tables S) (context : Text)
      → Same w w'
      → Applied m w.tables t
      → Post (Done m w) (Left m w) (annotate context (put c (λ _. t)) w')
  committed m w w' t context same h = Post-annotate (Done m w) (Left m w) _ (put c (λ _. t)) w' (
      Post-weaken (put c (λ _. t) w') (λ _ w'' e. subst (Applied m w.tables) (sym e) h)
        (λ w'' o. elim o [
          | inl e ↦ inl (e ∙ same)
          | inr e ↦ inr (subst (Applied m w.tables) (sym e) h)
        ])
        (put-Post (λ _. t) w'))

  ok_injective : {A : Type 0} {a b : A} → ok a ≡ ok b → a ≡ b
  ok_injective e = cc e

  -- Applying a migration is all or nothing: without an error all of its statements and its record
  -- are in the tables, and with an error the tables are as before, or the answer to the commit was
  -- lost and all of it is in them.
  pub apply_migration-Applied :
      (m : Migration) (w : State S)
      → Post
          (λ _ w'. Applied m w.tables w'.tables)
          (λ w'. (w'.tables ≡ w.tables) ⊎ Applied m w.tables w'.tables)
          (apply_migration c m w)
  unfolding apply_migration
  apply_migration-Applied m w =
      after_ask (λ t. w.tables ≡ t) (Done m w) (Left m w) (annotate _ (ask c ok)) _ w
        (Post-weaken (annotate _ (ask c ok) w) (λ t w' h. (ok_injective h.0, h.1)) (λ w' h. h)
          (annotated-Untouched _ ok w))
        (λ begun w1 e1 same1.
          after_ask (λ t. run_all (sent (split_statements m.sql)) begun ≡ ok t) (Done m w)
            (Left m w) (exec_statements c m.version (sent (split_statements m.sql)) begun) _ w1
            (exec_statements-Untouched m.version (sent (split_statements m.sql)) begun w1)
            (λ built w2 e2 same2.
              after_ask (λ t. insert_record (record_of m (c.clock w2.calls)) built ≡ ok t)
                (Done m w) (Left m w)
                (annotate _ (ask c (λ _. insert_record (record_of m (c.clock w2.calls)) built))) _
                w2
                (annotated-Untouched _ (λ _. insert_record (record_of m (c.clock w2.calls)) built)
                  w2)
                (λ recorded w3 e3 same3. committed m w w3 recorded _ (same3 ∙ (same2 ∙ same1)) (
                  built,
                  c.clock w2.calls,
                  ap (run_all (sent (split_statements m.sql))) e1 ∙ e2,
                  e3,
                ))
                (λ w3 same3. inl (same3 ∙ (same2 ∙ same1))))
            (λ w2 same2. inl (same2 ∙ same1)))
        (λ w1 same1. inl same1)
