-- ===== src/Migrations/Names.antt =====
-- parseMigrationFilename and splitStatements: what a file's name and its lines stand for.
use pauli.Common.{
  ℕ, ◌≡◌, ◌≢◌, refl, ap, inl, inr, Bool, true, false, ◌||◌, some, List, [], ◌∷◌, ◌++◌, ◌==◌, arith,
  Bool-cases,
}
use mathlib.Core.List.{append_assoc}
use pauli.Text.{Text, text, has_prefix, contains}
use pauli.Text.Suffixes.{trim_suffix-append}
use pauli.Text.Cut.{trim_space, has_suffix, split_first, has_char, onto_head}
use pauli.Migrations.{parse_migration_filename, named_parts, split_from, finished}

split_first-append :
    (sep : ℕ) (a b : Text) → has_char sep a ≡ false → split_first sep (a ++ (sep ∷ b)) ≡ some (a, b)
unfolding split_first has_char
split_first-append sep [] b h = ground arith
split_first-append sep (c ∷ a) b h = elim (Bool-cases (c == sep)) [
  | inl same ↦ absurd (ground (arith, h, same))
  | inr other ↦ rw other (ap (onto_head c) (split_first-append sep a b (ground (arith, h, other))))
]

sql-nonempty : text ".sql" ≢ []
unfolding text
sql-nonempty e = cc

-- A file that is named by a version without an underscore, an underscore, a name and `.sql` is read
-- back as that version and that name.
pub parse_migration_filename-parts :
    (version name : Text)
    → has_char b'_' version ≡ false
    → parse_migration_filename (version ++ (b'_' ∷ (name ++ text ".sql"))) ≡ (version, name)
unfolding parse_migration_filename
parse_migration_filename-parts version name h =
    rw (← append_assoc version (b'_' ∷ name) (text ".sql")) (
      rw (trim_suffix-append (version ++ (b'_' ∷ name)) (text ".sql") sql-nonempty)
        (ap (named_parts (version ++ (b'_' ∷ name))) (split_first-append b'_' version name h)))

-- A line that ends a block comment and is no line comment.
abbrev pub EndsComment : Text → Type 0
EndsComment line =
    (has_prefix (trim_space line) (text "--") ≡ false) × (contains line (text "*/") ≡ true)

-- The statements are the same whatever else stands on a line that ends a block comment, so a
-- statement on such a line is lost.
pub split_from-comment :
    (before after : List Text) (line line' current : Text) (in_comment : Bool)
    → EndsComment line
    → EndsComment line'
    → split_from current in_comment (before ++ (line ∷ after))
      ≡ split_from current in_comment (before ++ (line' ∷ after))
unfolding split_from
split_from-comment [] after line line' current b h h' = rw (h.0, h.1, h'.0, h'.1) refl
split_from-comment (l ∷ before) after line line' current b h h' =
    elim (Bool-cases (has_prefix (trim_space l) (text "--"))) [
      | inl comment ↦ rw comment (split_from-comment before after line line' current b h h')
      | inr code ↦ rw code (elim (Bool-cases (contains l (text "*/"))) [
        | inl closing ↦ rw closing (split_from-comment before after line line' current false h h')
        | inr other ↦ rw other (elim (Bool-cases (b || contains l (text "/*"))) [
          | inl inside ↦ rw inside (split_from-comment before after line line' current true h h')
          | inr outside ↦ rw outside (elim (Bool-cases (has_suffix (trim_space l) (text ";"))) [
            | inl ended ↦
                rw ended
                  (ap (finished _) (split_from-comment before after line line' [] false h h'))
            | inr going ↦ rw going (split_from-comment before after line line' _ false h h')
          ])
        ])
      ])
    ]
