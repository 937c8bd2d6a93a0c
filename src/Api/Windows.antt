-- ===== src/Api/Windows.antt =====
-- What the request's parameters are once they have been accepted.
use pauli.Common.{
  ℕ, ◌≤◌, ◌<◌, ◌^◌, ◌≡◌, refl, Option, none, some, [], ◌∷◌, ◌==◌, not, ◌||◌, arith, Bool-cases, inl,
  inr,
}
use pauli.Common.Int.{ℤ, pos, negsuc}
use pauli.Text.Ints.{atoi}
use pauli.Text.{is_empty, Text, text, digits_value, parse_uint, below_u64}
use pauli.Exec.{Result, ok, err}
use pauli.Exec.Accepts.{Accepts, and_then-Accepts}
use pauli.Api.{
  Request, uint_or, limit_of, read_limit, read_offset, parse_limit_offset, ordered, window,
  parse_epoch_window, parse_slot_window, agree, optional_validator_query, merge_validator_scope,
  max_list_limit,
}

abbrev pub PageSize : ℕ → Type 0
PageSize limit = (1 ≤ limit) × (limit ≤ max_list_limit)

limit_of-PageSize : (o : Option ℤ) → Accepts PageSize (limit_of o)
limit_of-PageSize none = tt
limit_of-PageSize (some (negsuc n)) = tt
limit_of-PageSize (some (pos n)) = ground arith

limit-PageSize : (t : Text) → Accepts PageSize (read_limit t)
limit-PageSize t = elim (Bool-cases (is_empty t)) [
  | inl absent ↦ rw absent (omega arith, omega arith)
  | inr given ↦ rw given (limit_of-PageSize (atoi t))
]

any : {A : Type 0} (x : Result A) → Accepts (λ _. Unit) x
any (ok a) = tt
any (err e) = tt

-- A limit that is accepted is between 1 and 1000, whatever the request says.
pub parse_limit_offset-PageSize :
    (c : Request) → Accepts (λ (page : ℕ × ℕ). PageSize page.0) (parse_limit_offset c)
unfolding parse_limit_offset
parse_limit_offset-PageSize c =
    and_then-Accepts PageSize (λ (page : ℕ × ℕ). PageSize page.0)
      (read_limit (c.query (text "limit"))) _ (limit-PageSize (c.query (text "limit")))
      (λ limit h.
        and_then-Accepts (λ _. Unit) (λ (page : ℕ × ℕ). PageSize page.0)
          (read_offset (c.query (text "offset"))) _ (any (read_offset (c.query (text "offset"))))
          (λ offset _. h))

-- An inclusive range of uint64s.
abbrev pub Range : ℕ × ℕ → Type 0
Range (from, to) = (from ≤ to) × (to < 2 ^ 64)

below_u64-bound : (m : Text) (o : Option ℕ) → Accepts (λ n. n < 2 ^ 64) (uint_or m (below_u64 o))
below_u64-bound m none = tt
below_u64-bound m (some n) = ground arith

uint-bound : (m t : Text) → Accepts (λ n. n < 2 ^ 64) (uint_or m (parse_uint t))
unfolding parse_uint
uint-bound m [] = tt
uint-bound m (c ∷ s) = below_u64-bound m (digits_value 0 (c ∷ s))

ordered-Range : (name : Text) (a b : ℕ) → b < 2 ^ 64 → Accepts Range (ordered name a b)
ordered-Range name a b h = ground arith

pub window-Range : (name one from to : Text) → Accepts Range (window name one from to)
window-Range name one from to = elim (Bool-cases (is_empty one)) [
  | inr given ↦ rw given (elim (Bool-cases (not (is_empty from) || not (is_empty to))) [
    | inl both ↦ rw both tt
    | inr single ↦ rw single (
        and_then-Accepts (λ n. n < 2 ^ 64) Range (uint_or _ (parse_uint one)) _ (uint-bound _ one)
          (λ v h. (omega arith, h)))
  ])
  | inl absent ↦ rw absent (elim (Bool-cases (is_empty from || is_empty to)) [
    | inl missing ↦ rw missing tt
    | inr range ↦ rw range (
        and_then-Accepts (λ n. n < 2 ^ 64) Range (uint_or _ (parse_uint from)) _ (uint-bound _ from)
          (λ a ha.
            and_then-Accepts (λ n. n < 2 ^ 64) Range (uint_or _ (parse_uint to)) _ (uint-bound _ to)
              (λ b hb. ordered-Range name a b hb)))
  ])
]

-- An epoch window that is accepted is a range of uint64s whose lower end is not above its upper
-- end.
pub parse_epoch_window-Range : (c : Request) → Accepts Range (parse_epoch_window c)
unfolding parse_epoch_window
parse_epoch_window-Range c = window-Range (text "epoch") _ _ _

-- With a validator in the path, an accepted scope is that validator.
agree-path : (idx : ℕ) (q : Option ℕ) → Accepts (λ scope. scope ≡ some idx) (agree (some idx) q)
agree-path idx none = refl
agree-path idx (some q) = elim (Bool-cases (q == idx)) [
  | inl same ↦ rw same refl
  | inr other ↦ rw other tt
]

pub merge_validator_scope-path :
    (c : Request) (idx : ℕ)
    → Accepts (λ scope. scope ≡ some idx) (merge_validator_scope c (some idx))
unfolding merge_validator_scope
merge_validator_scope-path c idx =
    and_then-Accepts (λ _. Unit) (λ scope. scope ≡ some idx) (optional_validator_query c) _
      (any (optional_validator_query c)) (λ q _. agree-path idx q)

pub parse_slot_window-Range : (c : Request) → Accepts Range (parse_slot_window c)
unfolding parse_slot_window
parse_slot_window-Range c = window-Range (text "slot") _ _ _
