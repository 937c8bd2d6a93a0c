-- ===== src/Common/Orders.antt =====
-- Lists filtered by a test, put in order by a comparison, and cut into pages.
use Prim.Native.Nat.{ℕ, zero, suc, ◌+◌, ◌*◌, ◌≤◌}
use mathlib.Core.Path.{subst, ◌≡◌, refl, ap, sym, ◌∙◌}
use mathlib.Core.Logic.{◌⊎◌, inl, inr}
use mathlib.Core.Bool.{Bool, true, false}
use mathlib.Core.List.{List, [], ◌∷◌, ◌++◌}
use native.Mathlib.Omega.{arith}
use native.Mathlib.Numerals.{unary_clauses}
use pauli.Common.Tests.{if◌then◌else◌, Bool-cases}
use pauli.Common.Lists.{length, take, drop, All}

module _ {A : Type 0} where
  unfoldable pub select_rows : (A → Bool) → List A → List A
  select_rows test [] = []
  select_rows test (x ∷ xs) = let rest = select_rows test xs in if test x then x ∷ rest else rest

  -- `before a b`: a may stand in front of b.
  unfoldable pub insert_row : (A → A → Bool) → A → List A → List A
  insert_row before x [] = x ∷ []
  insert_row before x (y ∷ ys) =
      let rest = insert_row before x ys in if before x y then x ∷ (y ∷ ys) else y ∷ rest

  unfoldable pub order_by : (A → A → Bool) → List A → List A
  order_by before [] = []
  order_by before (x ∷ xs) = insert_row before x (order_by before xs)

  abbrev pub cut : ℕ → ℕ → List A → List A
  cut limit offset xs = take limit (drop offset xs)

  -- The first `n` pages of a size, one after the other.
  unfoldable pub pages : ℕ → ℕ → List A → List A
  pages size zero xs = []
  pages size (suc n) xs = pages size n xs ++ cut size (n * size) xs

  abbrev pub IsSorted : (A → A → Bool) → List A → Type 0
  IsSorted before [] = Unit
  IsSorted before (x ∷ xs) = All (λ y. before x y ≡ true) xs × IsSorted before xs

  -- What is chosen passes the test.
  pub select_rows-All :
      (test : A → Bool) (xs : List A) → All (λ x. test x ≡ true) (select_rows test xs)
  unfolding select_rows
  select_rows-All test [] = tt
  select_rows-All test (x ∷ xs) = elim (Bool-cases (test x)) [
    | inl hit ↦ rw hit (hit, select_rows-All test xs)
    | inr miss ↦ rw miss (select_rows-All test xs)
  ]

  module _ (P : A → Type 0) where
    pub All-select_rows : (test : A → Bool) (xs : List A) → All P xs → All P (select_rows test xs)
    unfolding select_rows
    All-select_rows test [] h = tt
    All-select_rows test (x ∷ xs) h = elim (Bool-cases (test x)) [
      | inl hit ↦ rw hit (h.0, All-select_rows test xs h.1)
      | inr miss ↦ rw miss (All-select_rows test xs h.1)
    ]

    All-insert_row :
        (before : A → A → Bool) (x : A) (xs : List A)
        → P x
        → All P xs
        → All P (insert_row before x xs)
    unfolding insert_row
    All-insert_row before x [] p h = (p, tt)
    All-insert_row before x (y ∷ ys) p h = elim (Bool-cases (before x y)) [
      | inl hit ↦ rw hit (p, h)
      | inr miss ↦ rw miss (h.0, All-insert_row before x ys p h.1)
    ]

    pub All-order_by : (before : A → A → Bool) (xs : List A) → All P xs → All P (order_by before xs)
    unfolding order_by
    All-order_by before [] h = tt
    All-order_by before (x ∷ xs) h = All-insert_row before x _ h.0 (All-order_by before xs h.1)

    pub All-take : (n : ℕ) (xs : List A) → All P xs → All P (take n xs)
    All-take zero xs h = tt
    All-take (suc n) [] h = tt
    All-take (suc n) (x ∷ xs) h = (h.0, All-take n xs h.1)

    pub All-drop : (n : ℕ) (xs : List A) → All P xs → All P (drop n xs)
    All-drop zero xs h = h
    All-drop (suc n) [] h = tt
    All-drop (suc n) (x ∷ xs) h = All-drop n xs h.1

    pub All-cut : (limit offset : ℕ) (xs : List A) → All P xs → All P (cut limit offset xs)
    All-cut limit offset xs h = All-take limit (drop offset xs) (All-drop offset xs h)

    pub All-weaken : {Q : A → Type 0} (xs : List A) → ((x : A) → Q x → P x) → All Q xs → All P xs
    All-weaken [] f h = tt
    All-weaken (x ∷ xs) f h = (f x h.0, All-weaken xs f h.1)

  abbrev pub In : A → List A → Type 0
  In x [] = ⊥
  In x (y ∷ ys) = (x ≡ y) ⊎ In x ys

  pub All-at_In : (P : A → Type 0) (x : A) (xs : List A) → In x xs → All P xs → P x
  All-at_In P x [] found h = absurd found
  All-at_In P x (y ∷ ys) (inl e) h = subst P (sym e) h.0
  All-at_In P x (y ∷ ys) (inr later) h = All-at_In P x ys later h.1

  pub All-In : (xs : List A) → All (λ x. In x xs) xs
  All-In [] = tt
  All-In (x ∷ xs) = (inl refl, All-weaken _ xs (λ y h. inr h) (All-In xs))

  module _ (P : A → Type 0) where
    -- What holds of every chosen entry holds of every entry that passes the test.
    pub All-of_select_rows :
        (test : A → Bool) (xs : List A)
        → All P (select_rows test xs)
        → All (λ x. test x ≡ true → P x) xs
    unfolding select_rows
    All-of_select_rows test [] h = tt
    All-of_select_rows test (x ∷ xs) h = elim (Bool-cases (test x)) [
      | inl hit ↦
          let k : All P (x ∷ select_rows test xs) = rw hit at h in
          (λ _. k.0, All-of_select_rows test xs k.1)
      | inr miss ↦
          let k : All P (select_rows test xs) = rw miss at h in
          (λ hit. absurd cc, All-of_select_rows test xs k)
    ]

    All-of_insert_row :
        (before : A → A → Bool) (x : A) (xs : List A)
        → All P (insert_row before x xs)
        → All P (x ∷ xs)
    unfolding insert_row
    All-of_insert_row before x [] h = h
    All-of_insert_row before x (y ∷ ys) h = elim (Bool-cases (before x y)) [
      | inl hit ↦ rw hit at h
      | inr miss ↦
          let k : All P (y ∷ insert_row before x ys) = rw miss at h in
          let rest = All-of_insert_row before x ys k.1 in (rest.0, (k.0, rest.1))
    ]

    pub All-of_order_by :
        (before : A → A → Bool) (xs : List A) → All P (order_by before xs) → All P xs
    unfolding order_by
    All-of_order_by before [] h = tt
    All-of_order_by before (x ∷ xs) h =
        let k = All-of_insert_row before x (order_by before xs) h in
        (k.0, All-of_order_by before xs k.1)

  pub IsSorted-take :
      (before : A → A → Bool) (n : ℕ) (xs : List A)
      → IsSorted before xs
      → IsSorted before (take n xs)
  IsSorted-take before zero xs h = tt
  IsSorted-take before (suc n) [] h = tt
  IsSorted-take before (suc n) (x ∷ xs) h = (All-take _ n xs h.0, IsSorted-take before n xs h.1)

  pub IsSorted-drop :
      (before : A → A → Bool) (n : ℕ) (xs : List A)
      → IsSorted before xs
      → IsSorted before (drop n xs)
  IsSorted-drop before zero xs h = h
  IsSorted-drop before (suc n) [] h = tt
  IsSorted-drop before (suc n) (x ∷ xs) h = IsSorted-drop before n xs h.1

  pub IsSorted-cut :
      (before : A → A → Bool) (limit offset : ℕ) (xs : List A)
      → IsSorted before xs
      → IsSorted before (cut limit offset xs)
  IsSorted-cut before limit offset xs h =
      IsSorted-take before limit (drop offset xs) (IsSorted-drop before offset xs h)

  module _ (before : A → A → Bool) (total : (a b : A) → before a b ≡ false → before b a ≡ true)
      (trans : (a b c : A) → before a b ≡ true → before b c ≡ true → before a c ≡ true) where
    insert_row-IsSorted :
        (x : A) (xs : List A) → IsSorted before xs → IsSorted before (insert_row before x xs)
    unfolding insert_row
    insert_row-IsSorted x [] h = (tt, tt)
    insert_row-IsSorted x (y ∷ ys) h = elim (Bool-cases (before x y)) [
      | inl hit ↦ rw hit ((hit, All-weaken _ ys (λ z q. trans x y z hit q) h.0), h)
      | inr miss ↦ rw miss (
        All-insert_row (λ z. before y z ≡ true) before x ys (total x y miss) h.0,
        insert_row-IsSorted x ys h.1,
      )
    ]

    pub order_by-IsSorted : (xs : List A) → IsSorted before (order_by before xs)
    unfolding order_by
    order_by-IsSorted [] = tt
    order_by-IsSorted (x ∷ xs) = insert_row-IsSorted x _ (order_by-IsSorted xs)

  take_add : (m n : ℕ) (xs : List A) → take (m + n) xs ≡ take m xs ++ take n (drop m xs)
  take_add zero n xs = ap (λ k. take k xs) (omega arith)
  take_add (suc m) zero [] = simp unary_clauses refl
  take_add (suc m) (suc n) [] = simp unary_clauses refl
  take_add (suc m) n (x ∷ xs) =
      let e : suc m + n ≡ suc (m + n) = omega arith in
      ap (λ k. take k (x ∷ xs)) e ∙ ap (◌∷◌ x) (take_add m n xs)

  pages-take : (size n : ℕ) (xs : List A) → pages size n xs ≡ take (n * size) xs
  unfolding pages
  pages-take size zero xs = ap (λ k. take k xs) (let e : 0 ≡ 0 * size = omega arith in e)
  pages-take size (suc n) xs =
      rw (pages-take size n xs)
        (sym (take_add (n * size) size xs) ∙ ap (λ k. take k xs) (omega arith))

  take_all : (n : ℕ) (xs : List A) → length xs ≤ n → take n xs ≡ xs
  take_all zero [] h = refl
  take_all zero (x ∷ xs) h = absurd (omega arith)
  take_all (suc n) [] h = refl
  take_all (suc n) (x ∷ xs) h = ap (◌∷◌ x) (take_all n xs (omega arith))

  -- Enough pages have every entry, in order and once.
  pub pages-all : (size n : ℕ) (xs : List A) → length xs ≤ n * size → pages size n xs ≡ xs
  pages-all size n xs h = pages-take size n xs ∙ take_all (n * size) xs h
