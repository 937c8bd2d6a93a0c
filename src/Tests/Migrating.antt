-- ===== src/Tests/Migrating.antt =====
-- The theorems on migrations, at concrete inputs.
use pauli.Common.{ℕ, suc, ◌≡◌, ◌⊎◌, refl, true, false, none, List, [], ◌∷◌, ◌++◌, All}
use pauli.Text.{Text, text, has_prefix, contains}
use pauli.Text.Cut.{has_suffix, trim_suffix, has_char, trim_left, trim_right}
use pauli.Exec.{Result, ok}
use pauli.Exec.Post.{Post, IfOk}
use pauli.Storage.{answered, reply_lost}
use pauli.Migrations.{Client, State, Migration, Entry, split_from, apply_migration, run_migrations}
use pauli.Migrations.Blocks.{Block, file_of, IsBlock, AppliedBlocks, apply_migration-AppliedBlocks}
use pauli.Migrations.Runs.{Ran, run_migrations-Ran}
use pauli.Migrations.Again.{run_migrations-again}
use pauli.Migrations.Names.{EndsComment, split_from-comment}

-- A server whose schema counts the statements.
abbrev count : Text → ℕ → Result ℕ
count stmt n = ok (suc n)

abbrev pub server : Client ℕ
server = record { fate = λ n. answered; run = count; clock = λ n. 9 }

abbrev flaky : Client ℕ
flaky = record server { fate = λ n. reply_lost }

abbrev pub empty : State ℕ
empty = record { calls = 0; tables = record { schema = 0; migrations = none } }

abbrev pub two_files : List Entry
two_files =
    record {
      path = text "migrations_pg/002_b.sql";
      is_dir = false;
      content = ok (text "CREATE TABLE b (x TEXT);");
    }
    ∷ record {
      path = text "migrations_pg/001_a.sql";
      is_dir = false;
      content = ok (text "CREATE TABLE a (x TEXT);");
    }
    ∷ []

abbrev pub sum : Text → Text
sum content = text "c0ffee"

abbrev first : Migration
first = record {
  version = text "001";
  name = text "a";
  sql = text "CREATE TABLE a (x TEXT);";
  checksum = text "c0ffee";
}

-- A statement over two lines and one on a line of its own.
abbrev blocks : List Block
blocks =
    record { body = text "CREATE TABLE a (" ∷ []; last = text "  x TEXT);" }
    ∷ record { body = []; last = text "DROP TABLE b;" }
    ∷ []

abbrev by_blocks : Migration
by_blocks = record first { sql = file_of blocks }

blocks-IsBlock : All IsBlock blocks
unfolding has_char has_prefix contains has_suffix trim_suffix trim_left trim_right text
blocks-IsBlock = (
  (((refl, refl, refl, refl, refl), tt), (refl, refl, refl, refl, refl), refl, refl),
  ((tt, (refl, refl, refl, refl, refl), refl, refl), tt),
)

apply_migration-AppliedBlocks_example :
    Post
      (λ _ w'. AppliedBlocks flaky by_blocks blocks empty.tables w'.tables)
      (λ w'.
        (w'.tables ≡ empty.tables) ⊎ AppliedBlocks flaky by_blocks blocks empty.tables w'.tables)
      (apply_migration flaky by_blocks empty)
apply_migration-AppliedBlocks_example =
    apply_migration-AppliedBlocks flaky by_blocks blocks empty refl blocks-IsBlock

run_migrations-Ran_example :
    Post
      (λ _. Ran server sum two_files empty true)
      (λ w'. (w'.tables ≡ empty.tables) ⊎ Ran server sum two_files empty false w')
      (run_migrations server sum two_files empty)
run_migrations-Ran_example = run_migrations-Ran server sum two_files empty

run_migrations-again_example :
    IfOk
      (λ _ w'.
        ((run_migrations server sum two_files w').0 ≡ ok tt)
        × ((run_migrations server sum two_files w').1.tables ≡ w'.tables))
      (run_migrations server sum two_files empty)
run_migrations-again_example = run_migrations-again server server sum two_files empty (λ n. refl)

plain : has_char b'_' (text "001") ≡ false
unfolding has_char text
plain = refl

-- A line with a statement on it, and one without.
with_statement : EndsComment (text "DROP TABLE a; /* old */")
unfolding has_prefix contains trim_left trim_right text
with_statement = (refl, refl)

without_statement : EndsComment (text "/* old */")
unfolding has_prefix contains trim_left trim_right text
without_statement = (refl, refl)

split_from-comment_example :
    split_from [] false ([] ++ (text "DROP TABLE a; /* old */" ∷ text "SELECT 1;" ∷ []))
    ≡ split_from [] false ([] ++ (text "/* old */" ∷ text "SELECT 1;" ∷ []))
split_from-comment_example =
    split_from-comment [] (text "SELECT 1;" ∷ []) (text "DROP TABLE a; /* old */")
      (text "/* old */") [] false with_statement without_statement
