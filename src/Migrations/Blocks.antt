-- ===== src/Migrations/Blocks.antt =====
-- applyMigration on a file of statements without comments.
use pauli.Common.{
  ℕ, ◌≡◌, refl, sym, ap, ◌∙◌, subst, ◌⊎◌, inl, inr, Bool, true, false, List, [], ◌∷◌, ◌++◌, ◌==◌,
  map, All, arith, Bool-cases,
}
use mathlib.Core.List.{append_assoc}
use pauli.Text.{Text, text, is_empty, has_prefix, contains}
use pauli.Text.Cut.{
  trim_space, trim_left, trim_right, trim_suffix, has_suffix, has_char, split_lines, onto_first,
}
use pauli.Exec.{ok}
use pauli.Exec.Post.{Post, Post-weaken}
use pauli.Migrations.{
  Client, State, Tables, Migration, record_of, insert_record, sent, split_from, split_statements,
  finished, apply_migration,
}
use pauli.Migrations.Statements.{run_all, Applied, apply_migration-Applied}

-- A statement over some lines, the last of which ends it.
pub record Block : Type 0 where
  pub body : List Text
  pub last : Text

-- The lines as they are written, each with its newline.
abbrev pub written : List Text → Text
written [] = []
written (line ∷ lines) = line ++ (10 ∷ written lines)

abbrev pub text_of : Block → Text
text_of b = written b.body ++ (b.last ++ (10 ∷ []))

abbrev pub file_of : List Block → Text
file_of [] = []
file_of (b ∷ bs) = text_of b ++ file_of bs

-- What is to be run: the text without its semicolon and the space around it.
abbrev pub command_of : Block → Text
command_of b = trim_space (trim_suffix (trim_space (text_of b)) (text ";"))

-- A line without comments, with or without a semicolon at its end.
abbrev pub IsPlain : Bool → Text → Type 0
IsPlain ends line =
    (has_char 10 line ≡ false)
    × (has_prefix (trim_space line) (text "--") ≡ false)
    × (contains line (text "*/") ≡ false)
    × (contains line (text "/*") ≡ false)
    × (has_suffix (trim_space line) (text ";") ≡ ends)

-- Only the last line ends in a semicolon, and there is something to run.
abbrev pub IsBlock : Block → Type 0
IsBlock b =
    All (IsPlain false) b.body
    × IsPlain true b.last
    × (is_empty (command_of b) ≡ false)
    × (has_prefix (command_of b) (text "--") ≡ false)

split_lines-line :
    (line rest : Text)
    → has_char 10 line ≡ false
    → split_lines (line ++ (10 ∷ rest)) ≡ line ∷ split_lines rest
unfolding split_lines has_char
split_lines-line [] rest h = refl
split_lines-line (c ∷ line) rest h = elim (Bool-cases (c == 10)) [
  | inl newline ↦ absurd (ground (arith, h, newline))
  | inr other ↦ rw other (ap (onto_first c) (split_lines-line line rest (ground (arith, h, other))))
]

-- A line without a semicolon is collected.
split_from-body :
    (current line : Text) (lines : List Text)
    → IsPlain false line
    → split_from current false (line ∷ lines)
      ≡ split_from (current ++ (line ++ (10 ∷ []))) false lines
unfolding split_from
split_from-body current line lines h = rw (h.1, h.2, h.3, h.4) refl

split_from-last :
    (current line : Text) (lines : List Text)
    → IsPlain true line
    → split_from current false (line ∷ lines)
      ≡ finished
          (trim_suffix (trim_space (current ++ (line ++ (10 ∷ [])))) (text ";"))
          (split_from [] false lines)
unfolding split_from
split_from-last current line lines h = rw (h.1, h.2, h.3, h.4) refl

-- The lines of a block and what follows them.
split_from-block :
    (current : Text) (body : List Text) (last rest : Text)
    → All (IsPlain false) body
    → IsPlain true last
    → split_from current false (split_lines ((written body ++ (last ++ (10 ∷ []))) ++ rest))
      ≡ finished
          (trim_suffix (trim_space (current ++ (written body ++ (last ++ (10 ∷ []))))) (text ";"))
          (split_from [] false (split_lines rest))
split_from-block current [] last rest h k =
    ap (λ t. split_from current false (split_lines t)) (append_assoc last (10 ∷ []) rest)
    ∙ (ap (split_from current false) (split_lines-line last rest k.0)
        ∙ split_from-last current last (split_lines rest) k)
split_from-block current (line ∷ body) last rest h k =
    ap (λ t. split_from current false (split_lines (t ++ rest))) front
    ∙ (ap (λ t. split_from current false (split_lines t)) (append_assoc line (10 ∷ left) rest)
        ∙ (ap (split_from current false) (split_lines-line line (left ++ rest) h.0.0)
            ∙ (split_from-body current line (split_lines (left ++ rest)) h.0
                ∙ (split_from-block (current ++ (line ++ (10 ∷ []))) body last rest h.1 k
                    ∙ ap
                        (λ t.
                          finished (trim_suffix (trim_space t) (text ";"))
                            (split_from [] false (split_lines rest)))
                        collected))))
  where
    left : Text
    left = written body ++ (last ++ (10 ∷ []))

    front : written (line ∷ body) ++ (last ++ (10 ∷ [])) ≡ line ++ (10 ∷ left)
    front = append_assoc line (10 ∷ written body) (last ++ (10 ∷ []))

    collected :
        (current ++ (line ++ (10 ∷ []))) ++ left
        ≡ current ++ (written (line ∷ body) ++ (last ++ (10 ∷ [])))
    collected =
        append_assoc current (line ++ (10 ∷ [])) left
        ∙ ap (λ t. current ++ t) (append_assoc line (10 ∷ []) left ∙ sym front)

-- Something that is run is not dropped where it is cut out of the file.
sent-finished :
    (stmt : Text) (rest : List Text)
    → is_empty (trim_space stmt) ≡ false
    → has_prefix (trim_space stmt) (text "--") ≡ false
    → sent (finished stmt rest) ≡ trim_space stmt ∷ sent rest
unfolding sent trim_left trim_right
sent-finished [] rest h k = absurd cc
sent-finished (c ∷ stmt) rest h k = rw (h, k) refl

sent-blocks :
    (bs : List Block)
    → All IsBlock bs
    → sent (split_from [] false (split_lines (file_of bs))) ≡ map command_of bs
unfolding sent split_from split_lines trim_left trim_right has_prefix contains has_suffix text
sent-blocks [] h = refl
sent-blocks (b ∷ bs) h =
    ap sent (split_from-block [] b.body b.last (file_of bs) h.0.0 h.0.1)
    ∙ (sent-finished (trim_suffix (trim_space (text_of b)) (text ";"))
          (split_from [] false (split_lines (file_of bs))) h.0.2 h.0.3
        ∙ ap (λ rest. command_of b ∷ rest) (sent-blocks bs h.1))

module _ {S : Type 0} (c : Client S) where
  -- The tables after the commands of all the blocks, in order, and the migration's record.
  abbrev pub AppliedBlocks : Migration → List Block → Tables S → Tables S → Type 0
  AppliedBlocks m bs t t' =
      (built : Tables S) × (now : ℕ) × (run_all c (map command_of bs) t ≡ ok built)
      × (insert_record (record_of m now) built ≡ ok t')

  Applied-blocks :
      (m : Migration) (bs : List Block) (t t' : Tables S)
      → m.sql ≡ file_of bs
      → All IsBlock bs
      → Applied c m t t'
      → AppliedBlocks m bs t t'
  unfolding split_statements
  Applied-blocks m bs t t' e h (built, now, ran, kept) =
      let same : sent (split_statements m.sql) ≡ map command_of bs =
        ap (λ s. sent (split_statements s)) e ∙ sent-blocks bs h in
      (built, now, subst (λ stmts. run_all c stmts t ≡ ok built) same ran, kept)

  -- Applying a migration whose file is a list of statements without comments, each ended by a
  -- semicolon at the end of a line, is all or nothing: without an error every one of its statements
  -- has run, in order, and its record is in the tables; with an error the tables are as before, or
  -- the answer to the commit was lost and all of it is in them.
  pub apply_migration-AppliedBlocks :
      (m : Migration) (bs : List Block) (w : State S)
      → m.sql ≡ file_of bs
      → All IsBlock bs
      → Post
          (λ _ w'. AppliedBlocks m bs w.tables w'.tables)
          (λ w'. (w'.tables ≡ w.tables) ⊎ AppliedBlocks m bs w.tables w'.tables)
          (apply_migration c m w)
  apply_migration-AppliedBlocks m bs w e h =
      Post-weaken (apply_migration c m w) (λ _ w' k. Applied-blocks m bs w.tables w'.tables e h k)
        (λ w' o. elim o [
          | inl same ↦ inl same
          | inr k ↦ inr (Applied-blocks m bs w.tables w'.tables e h k)
        ])
        (apply_migration-Applied c m w)
