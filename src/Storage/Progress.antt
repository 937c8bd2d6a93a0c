-- ===== src/Storage/Progress.antt =====
-- indexer_progress.go: which slots and epochs have been indexed.
pub mod Marks
pub mod Gaps
pub mod Highest
use pauli.Common.{
  ℕ, zero, suc, ◌+◌, ◌-◌, ◌/◌, ◌%◌, ◌^◌, Bool, true, false, ◌&&◌, Option, none, some, List, [], ◌∷◌,
  ◌++◌, ltb, ◌==◌, if◌then◌else◌,
}
use pauli.Text.{Text, text, format_uint}
use pauli.Exec.{Exec, pure, annotate, ◌>>=◌}
use pauli.Storage.{Kind, slot, epoch, ProgressRow, Db, World, Repository, encodes, execute, query}

abbrev pub unindexed_slot_chunk_size : ℕ
unindexed_slot_chunk_size = 8192

abbrev kind_text : Kind → Text
kind_text slot = text "slot"
kind_text epoch = text "epoch"

abbrev pub same_kind : Kind → Kind → Bool
same_kind slot slot = true
same_kind epoch epoch = true
same_kind _ _ = false

abbrev pub is_row : Kind → ℕ → ProgressRow → Bool
is_row k p row = same_kind k row.kind && p == row.position

-- Whether the table has a row for the position.
unfoldable pub marked : Kind → ℕ → List ProgressRow → Bool
marked k p [] = false
marked k p (row ∷ rows) = if is_row k p row then true else marked k p rows

-- INSERT … ON CONFLICT (kind, position) DO UPDATE SET completed_at = EXCLUDED.completed_at
unfoldable pub upsert_progress : Kind → ℕ → ℕ → List ProgressRow → List ProgressRow
upsert_progress k p now [] = record { kind = k; position = p; completed_at = now } ∷ []
upsert_progress k p now (row ∷ rows) =
    if is_row k p row
    then record row { completed_at = now } ∷ rows
    else row ∷ upsert_progress k p now rows

-- SELECT MAX(position) … WHERE kind = $1
unfoldable pub max_position : Kind → List ProgressRow → Option ℕ
max_position k [] = none
max_position k (row ∷ rows) = elim (max_position k rows) [
  | none ↦ if same_kind k row.kind then some row.position else none
  | some m ↦ if same_kind k row.kind && ltb m row.position then some row.position else some m
]

-- SELECT MIN(g) FROM generate_series(start, start + n - 1) … WHERE p.position IS NULL
unfoldable pub min_unmarked : Kind → ℕ → ℕ → List ProgressRow → Option ℕ
min_unmarked k zero start rows = none
min_unmarked k (suc n) start rows =
    let later = min_unmarked k n (start + 1) rows in
    if marked k start rows then later else some start

module _ (r : Repository) where
  unfoldable pub mark_progress : Kind → ℕ → Exec World (Unit {0})
  mark_progress k p =
      annotate (text "mark indexer progress " ++ (kind_text k ++ (text " " ++ format_uint p))) (
        execute r (encodes p)
          (λ now db. record db { progress = upsert_progress k p now db.progress }))

  unfoldable pub mark_slot_indexed : ℕ → Exec World (Unit {0})
  mark_slot_indexed = mark_progress slot

  unfoldable pub mark_epoch_indexed : ℕ → Exec World (Unit {0})
  mark_epoch_indexed = mark_progress epoch

  unfoldable pub max_progress : Kind → Exec World (Option ℕ)
  max_progress k =
      annotate (text "max indexer progress " ++ kind_text k)
        (query r true (λ db. max_position k db.progress))

  unfoldable pub max_indexed_slot : Exec World (Option ℕ)
  max_indexed_slot = max_progress slot

  unfoldable pub max_indexed_epoch : Exec World (Option ℕ)
  max_indexed_epoch = max_progress epoch

  unfoldable pub is_progress : Kind → ℕ → Exec World Bool
  is_progress k p =
      annotate (text "is indexer progress " ++ (kind_text k ++ (text " " ++ format_uint p)))
        (query r (encodes p) (λ db. marked k p db.progress))

  unfoldable pub is_slot_indexed : ℕ → Exec World Bool
  is_slot_indexed = is_progress slot

  unfoldable pub is_epoch_indexed : ℕ → Exec World Bool
  is_epoch_indexed = is_progress epoch

  -- The last position of the chunk that begins at `start`; uint64 sums wrap.
  abbrev pub chunk_end : ℕ → ℕ → ℕ
  chunk_end start to =
      let e = (start + unindexed_slot_chunk_size + 2 ^ 64 - 1) % 2 ^ 64 in
      if ltb to e then to else e

  -- One query of the loop, for the positions from `start` to `end`.
  abbrev pub chunk_query : Kind → ℕ → ℕ → Exec World (Option ℕ)
  chunk_query k start end =
      annotate
        (text "first unindexed ["
          ++ (format_uint start ++ (text "," ++ (format_uint end ++ text "]"))))
        (query r (encodes start && encodes end)
          (λ db. min_unmarked k (end + 1 - start) start db.progress))

  -- `for start := from; start <= to;`, on fuel; a loop that ends returns `none`.
  unfoldable pub chunk_loop : ℕ → Kind → ℕ → ℕ → Exec World (Option ℕ)
  chunk_loop zero k start to = pure none
  chunk_loop (suc fuel) k start to =
      if ltb to start
      then pure none
      else (chunk_query k start (chunk_end start to) >>= λ found. elim found [
        | some p ↦ pure (some p)
        | none ↦ chunk_loop fuel k ((chunk_end start to + 1) % 2 ^ 64) to
      ])

  -- FirstUnindexedSlot and FirstUnindexedEpoch, which differ in the kind.
  unfoldable pub first_unindexed : Kind → ℕ → ℕ → Exec World (Option ℕ)
  first_unindexed k from to =
      if ltb to from then pure none else chunk_loop (to / unindexed_slot_chunk_size + 1) k from to

  unfoldable pub first_unindexed_slot : ℕ → ℕ → Exec World (Option ℕ)
  first_unindexed_slot = first_unindexed slot

  unfoldable pub first_unindexed_epoch : ℕ → ℕ → Exec World (Option ℕ)
  first_unindexed_epoch = first_unindexed epoch
