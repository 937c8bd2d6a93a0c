-- ===== src/Storage/Reads/Scan.antt =====
-- What reading the rows of a query makes of them.
use pauli.Common.{◌≡◌, refl, Bool, true, List, [], ◌∷◌, All, length, ap, suc}
use pauli.Common.Orders.{IsSorted}
use pauli.Exec.{Result, ok, err, and_then}
use pauli.Exec.Accepts.{Accepts, and_then-Accepts}
use pauli.Storage.Reads.{scan_rows}

module _ {A B : Type 0} (scan : A → Result B) where
  -- Each value comes from its row.
  abbrev pub Scanned : List A → List B → Type 0
  Scanned [] [] = Unit
  Scanned [] (b ∷ bs) = ⊥
  Scanned (x ∷ xs) [] = ⊥
  Scanned (x ∷ xs) (b ∷ bs) = (scan x ≡ ok b) × Scanned xs bs

  same : (x : Result B) → Accepts (λ b. x ≡ ok b) x
  same (ok b) = refl
  same (err e) = tt

  pub scan_rows-Scanned : (xs : List A) → Accepts (Scanned xs) (scan_rows scan xs)
  unfolding scan_rows
  scan_rows-Scanned [] = tt
  scan_rows-Scanned (x ∷ xs) =
      and_then-Accepts (λ b. scan x ≡ ok b) (Scanned (x ∷ xs)) (scan x) _ (same (scan x))
        (λ b e. go b e (scan_rows scan xs) (scan_rows-Scanned xs))
    where
      go :
          (b : B)
          → scan x ≡ ok b
          → (y : Result (List B)) → Accepts (Scanned xs) y
          → Accepts (Scanned (x ∷ xs)) (and_then y (λ bs. ok (b ∷ bs)))
      go b e (ok bs) h = (e, h)
      go b e (err er) h = tt

  -- Rows that all can be read are read.
  pub scan_rows-ok :
      (xs : List A)
      → All (λ x. (b : B) × (scan x ≡ ok b)) xs
      → (bs : List B) × (scan_rows scan xs ≡ ok bs)
  unfolding scan_rows
  scan_rows-ok [] h = ([], refl)
  scan_rows-ok (x ∷ xs) h =
      let (bs, e) = scan_rows-ok xs h.1 in (h.0.0 ∷ bs, rw (h.0.1) (rw e refl))

  pub Scanned-length : (xs : List A) (bs : List B) → Scanned xs bs → length bs ≡ length xs
  Scanned-length [] [] h = refl
  Scanned-length [] (b ∷ bs) h = absurd h
  Scanned-length (x ∷ xs) [] h = absurd h
  Scanned-length (x ∷ xs) (b ∷ bs) h = ap suc (Scanned-length xs bs h.1)

  pub Scanned-All :
      (P : A → Type 0) (Q : B → Type 0)
      → ((x : A) (b : B) → scan x ≡ ok b → P x → Q b)
      → (xs : List A) (bs : List B) → Scanned xs bs
      → All P xs
      → All Q bs
  Scanned-All P Q f [] [] h p = tt
  Scanned-All P Q f [] (b ∷ bs) h p = absurd h
  Scanned-All P Q f (x ∷ xs) [] h p = absurd h
  Scanned-All P Q f (x ∷ xs) (b ∷ bs) h p = (f x b h.0 p.0, Scanned-All P Q f xs bs h.1 p.1)

  pub Scanned-IsSorted :
      (before : A → A → Bool) (before' : B → B → Bool)
      → ((x y : A) (b c : B)
          → scan x ≡ ok b
          → scan y ≡ ok c
          → before x y ≡ true
          → before' b c ≡ true)
      → (xs : List A) (bs : List B) → Scanned xs bs
      → IsSorted before xs
      → IsSorted before' bs
  Scanned-IsSorted before before' f [] [] h s = tt
  Scanned-IsSorted before before' f [] (b ∷ bs) h s = absurd h
  Scanned-IsSorted before before' f (x ∷ xs) [] h s = absurd h
  Scanned-IsSorted before before' f (x ∷ xs) (b ∷ bs) h s = (
    Scanned-All (λ y. before x y ≡ true) (λ c. before' b c ≡ true) (λ y c e. f x y b c h.0 e) xs bs
        h.1 s.0,
    Scanned-IsSorted before before' f xs bs h.1 s.1,
  )
