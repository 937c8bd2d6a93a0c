-- ===== src/Api/Answers.antt =====
-- What the list handlers answer.
use pauli.Common.{ℕ, ◌≡◌, refl, Option, some, List, length, All}
use pauli.Text.{text}
use pauli.Exec.{Result, ok, err, Exec}
use pauli.Exec.Post.{Post, IfOk}
use pauli.Storage.{World}
use pauli.Api.{
  Request, Response, bad_request, not_found, internal, page, value, or_bad, as_page,
  parse_limit_offset, parse_uint_path, merge_validator_scope, list_rewards, list_rewards_scoped,
}
use pauli.Exec.Accepts.{Accepts}
use pauli.Api.Windows.{PageSize, Range, parse_limit_offset-PageSize, merge_validator_scope-path}

module _ {A : Type 0} (P : ℕ → A → Type 0) where
  -- A page has rows of the validator only, counts them, and keeps to the limit.
  abbrev pub PageOf : ℕ → Response A → Type 0
  PageOf idx (page rows limit offset count) =
      All (P idx) rows × (count ≡ length rows) × PageSize limit
  PageOf idx (bad_request message) = Unit
  PageOf idx (not_found message) = Unit
  PageOf idx internal = Unit
  PageOf idx (value a) = ⊥

  -- The handler has answered, with such a page or with an error's status.
  abbrev pub Answers : ℕ → Result (Response A) × World → Type 0
  Answers idx x = Post (λ response _. PageOf idx response) (λ _. ⊥) x

  or_bad-Answers :
      {B : Type 0} (idx : ℕ) (Q : B → Type 0) (x : Result B) (f : B → Exec World (Response A))
      (w : World)
      → Accepts Q x
      → ((b : B) → Q b → Answers idx (f b w))
      → Answers idx (or_bad x f w)
  or_bad-Answers idx Q (ok b) f w h k = k b h
  or_bad-Answers idx Q (err e) f w h k = tt

  as_page-Answers :
      (idx limit offset : ℕ) (x : Result (List A) × World)
      → PageSize limit
      → IfOk (λ rows _. All (P idx) rows) x
      → Answers idx (as_page limit offset x)
  as_page-Answers idx limit offset (ok rows, w) size h = (h, refl, size)
  as_page-Answers idx limit offset (err e, w) size h = tt

  module _ (parse_window : Request → Result (ℕ × ℕ))
      (ranges : (c : Request) → Accepts Range (parse_window c))
      (list : Option ℕ → ℕ × ℕ → ℕ → ℕ → Exec World (List A))
      (lists : (idx limit offset : ℕ) (bounds : ℕ × ℕ) (w : World)
        → Range bounds
        → PageSize limit
        → IfOk (λ rows _. All (P idx) rows) (list (some idx) bounds limit offset w)) where
    scoped :
        (c : Request) (idx : ℕ) (w : World)
        → Answers idx (list_rewards parse_window list c (some idx) w)
    unfolding list_rewards
    scoped c idx w =
        or_bad-Answers idx (λ scope. scope ≡ some idx) (merge_validator_scope c (some idx)) _ w
          (merge_validator_scope-path c idx)
          (λ scope same. rw same (
            or_bad-Answers idx Range (parse_window c) _ w (ranges c) (λ bounds range.
              or_bad-Answers idx (λ (pg : ℕ × ℕ). PageSize pg.0) (parse_limit_offset c) _ w
                (parse_limit_offset-PageSize c)
                (λ pg size.
                  as_page-Answers idx pg.0 pg.1 (list (some idx) bounds pg.0 pg.1 w) size
                    (lists idx pg.0 pg.1 bounds w range size)))))

    -- Let the repository's query for one validator, when it is asked for a range of uint64s and for
    -- 1 to 1000 rows, return rows of that validator only. Then the handler of the validator's path
    -- answers every request whose path names a validator, and never with a row of another one; a
    -- page counts its rows and has a limit from 1 to 1000.
    pub list_rewards_scoped-Answers :
        (c : Request) (idx : ℕ) (w : World)
        → parse_uint_path c (text "validatorIndex") ≡ ok idx
        → Answers idx (list_rewards_scoped parse_window list c w)
    unfolding list_rewards_scoped
    list_rewards_scoped-Answers c idx w named = rw named (scoped c idx w)
