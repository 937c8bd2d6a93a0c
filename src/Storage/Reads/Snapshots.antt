-- ===== src/Storage/Reads/Snapshots.antt =====
-- The queries of balance snapshots: their pages, and the latest one.
use pauli.Common.{
  ℕ, zero, suc, ◌≤◌, ◌+◌, ◌*◌, ◌≡◌, refl, sym, ap, Bool, true, ◌&&◌, List, [], ◌∷◌, ◌++◌, All, map,
  length, arith, ◌≢◌, ◌==◌,
}
use pauli.Common.Orders.{cut, In, pages, pages-all}
use pauli.Text.{text}
use pauli.Exec.{no_rows, wrap, Result, ok, err, Exec, pure, ◌>>=◌}
use pauli.Storage.{ValidatorEpochRecord, Db, World, Repository, answered, encodes, at}
use pauli.Storage.Statements.{read-ok}
use pauli.Storage.Reads.{
  ValidatorSnapshot, snapshot_of, snapshot_rows, get_validator_snapshots, list_validator_snapshots,
}

-- The first `n` pages of a list query, one request after the other.
unfoldable pub list_pages :
    (ℕ → ℕ → Exec World (List ValidatorSnapshot)) → ℕ → ℕ → Exec World (List ValidatorSnapshot)
list_pages list size zero = pure []
list_pages list size (suc n) =
    list_pages list size n >>= λ rows. list size (n * size) >>= λ more. pure (rows ++ more)

map-append : {A B : Type 0} (f : A → B) (xs ys : List A) → map f (xs ++ ys) ≡ map f xs ++ map f ys
map-append f [] ys = refl
map-append f (x ∷ xs) ys = ap (◌∷◌ (f x)) (map-append f xs ys)

module _ (r : Repository) (v from to : ℕ) (db : Db)
    (fits : (encodes v && (encodes from && encodes to)) ≡ true)
    (live : (n : ℕ) → r.fate n ≡ answered) where
  list_page :
      (size offset n : ℕ)
      → list_validator_snapshots r v (from, to) size offset (at n db)
        ≡ (ok (map snapshot_of (cut size offset (snapshot_rows v from to db))), at (n + 1) db)
  unfolding list_validator_snapshots
  list_page size offset n = read-ok r _ _ _ (at n db) fits (live n)

  list_pages-pages :
      (size m n : ℕ)
      → list_pages (list_validator_snapshots r v (from, to)) size m (at n db)
        ≡ (ok (map snapshot_of (pages size m (snapshot_rows v from to db))), at (n + m) db)
  unfolding list_pages pages
  list_pages-pages size zero n = ap (λ k. (ok [], at k db)) (omega arith)
  list_pages-pages size (suc m) n = rw (list_pages-pages size m n) (
      rw (list_page size (m * size) (n + m)) (
        rw (map-append snapshot_of (pages size m (snapshot_rows v from to db)) _) (
          ap
            (λ k. (
              ok (
                  map snapshot_of (pages size m (snapshot_rows v from to db))
                  ++ map snapshot_of (cut size (m * size) (snapshot_rows v from to db))),
              at k db,
            ))
            (omega arith))))

  -- Where the server answers and the arguments fit their columns, enough pages of
  -- ListValidatorSnapshots, put together, are what GetValidatorSnapshots returns.
  pub list_pages-all :
      (size m n k : ℕ)
      → length (snapshot_rows v from to db) ≤ m * size
      → (list_pages (list_validator_snapshots r v (from, to)) size m (at n db)).0
        ≡ (get_validator_snapshots r v from to (at k db)).0
  unfolding get_validator_snapshots
  list_pages-all size m n k enough = rw (list_pages-pages size m n) (
      rw (pages-all size m (snapshot_rows v from to db) enough) (
        ap (λ (x : Result (List ValidatorSnapshot) × World). x.0)
          (sym (
            read-ok r _ _ (λ d. map snapshot_of (snapshot_rows v from to d)) (at k db) fits
              (live k)))))

-- The snapshot is of a row of the validator that no other row of it is later than; there is an
-- error only if the validator has no row.
abbrev pub IsLatest : ℕ → List ValidatorEpochRecord → Result ValidatorSnapshot → Type 0
IsLatest v records (ok s) =
    (row : ValidatorEpochRecord) × (s ≡ snapshot_of row)
    × In row records
    × (row.validator_index ≡ v)
    × All (λ (other : ValidatorEpochRecord). other.validator_index ≡ v → other.epoch ≤ row.epoch)
        records
IsLatest v records (err e) =
    (e ≡ wrap (text "failed to get latest snapshot") no_rows)
    × All (λ (other : ValidatorEpochRecord). other.validator_index ≢ v) records

abbrev of_validator : ℕ → ValidatorEpochRecord → Bool
of_validator v row = row.validator_index == v
