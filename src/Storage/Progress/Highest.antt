-- ===== src/Storage/Progress/Highest.antt =====
-- indexer_progress.go: MaxIndexedSlot and MaxIndexedEpoch.
use pauli.Common.{
  ℕ, ◌<◌, ◌≡◌, refl, Bool, true, false, ◌&&◌, ◌==◌, Option, none, some, List, [], ◌∷◌, arith,
  if◌then◌else◌, ltb, Bool-cases, inl, inr,
}
use pauli.Storage.{Kind, ProgressRow}
use pauli.Storage.Progress.{same_kind, marked, max_position}

-- The position is marked and none above it is; `none` if no position is marked.
abbrev pub IsHighest : Kind → List ProgressRow → Option ℕ → Type 0
IsHighest k rows none = (p : ℕ) → marked k p rows ≡ false
IsHighest k rows (some q) = (marked k q rows ≡ true) × ((p : ℕ) → q < p → marked k p rows ≡ false)

module _ (k : Kind) (position : ℕ) (rows : List ProgressRow) where
  -- A row in front, which is of the kind if `same`.
  abbrev found_at : Bool → ℕ → Bool
  found_at same p = if same && p == position then true else marked k p rows

  abbrev Holds : Bool → Option ℕ → Type 0
  Holds same none = (p : ℕ) → found_at same p ≡ false
  Holds same (some q) = (found_at same q ≡ true) × ((p : ℕ) → q < p → found_at same p ≡ false)

  front_row :
      (o : Option ℕ) (same : Bool)
      → IsHighest k rows o
      → Holds same (elim o [
        | none ↦ if same then some position else none
        | some m ↦ if same && ltb m position then some position else some m
      ])
  front_row none true h = (ground arith, λ p above. ground (arith, h p))
  front_row none false h = h
  front_row (some m) false h = h
  front_row (some m) true h = elim (Bool-cases (ltb m position)) [
    | inl higher ↦ rw higher (ground arith, λ p above. ground (arith, h.1 p))
    | inr lower ↦ rw lower (ground (arith, h.0), λ p above. ground (arith, h.1 p))
  ]

pub max_position-IsHighest :
    (k : Kind) (rows : List ProgressRow) → IsHighest k rows (max_position k rows)
unfolding max_position marked
max_position-IsHighest k [] = λ p. refl
max_position-IsHighest k (row ∷ rows) =
    front_row k row.position rows (max_position k rows) (same_kind k row.kind)
      (max_position-IsHighest k rows)
