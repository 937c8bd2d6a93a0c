-- ===== src/Api.antt =====
-- internal/api/handlers: how a request's parameters are read, and what each handler answers.
pub mod Windows
pub mod Answers
pub mod Rewards
pub mod Router
use pauli.Common.{
  ℕ, ◌-◌, ◌^◌, Bool, true, false, ◌&&◌, ◌||◌, not, Option, none, some, List, [], ◌∷◌, ◌++◌, length,
  ltb, ◌==◌, if◌then◌else◌,
}
use pauli.Common.Int.{ℤ, pos, negsuc}
use pauli.Text.Ints.{atoi}
use pauli.Text.{is_empty, Text, text, digits_value, parse_uint}
use pauli.Exec.{
  Error, http_response, retryable, canceled, pool_stopped, plain, no_rows, wrap, error_text, Result,
  ok, err, and_then, Exec, pure,
}
use pauli.Storage.{World}

abbrev pub default_list_limit : ℕ
default_list_limit = 100

abbrev pub max_list_limit : ℕ
max_list_limit = 1000

-- gin.Context: the path's and the query's parameters; a missing one is empty.
pub record Request : Type 0 where
  pub param : Text → Text
  pub query : Text → Text

abbrev pub refuse : {A : Type 0} → Text → Result A
refuse message = err (plain message)

-- strconv.ParseUint, with the message of its caller.
abbrev pub uint_or : Text → Option ℕ → Result ℕ
uint_or message none = refuse message
uint_or message (some n) = ok n

unfoldable pub parse_uint_path : Request → Text → Result ℕ
parse_uint_path c name =
    if is_empty (c.param name)
    then refuse (text "missing path parameter \"" ++ (name ++ text "\""))
    else uint_or (text "invalid \"" ++ (name ++ text "\"")) (parse_uint (c.param name))

-- A limit has to be positive, and is cut at the maximum.
abbrev pub limit_of : Option ℤ → Result ℕ
limit_of (some (pos n)) =
    if n == 0
    then refuse (text "invalid limit")
    else ok (if ltb max_list_limit n then max_list_limit else n)
limit_of (some (negsuc n)) = refuse (text "invalid limit")
limit_of none = refuse (text "invalid limit")

abbrev pub offset_of : Option ℤ → Result ℕ
offset_of (some (pos n)) = ok n
offset_of (some (negsuc n)) = refuse (text "invalid offset")
offset_of none = refuse (text "invalid offset")

abbrev pub read_limit : Text → Result ℕ
read_limit s = if is_empty s then ok default_list_limit else limit_of (atoi s)

abbrev pub read_offset : Text → Result ℕ
read_offset s = if is_empty s then ok 0 else offset_of (atoi s)

unfoldable pub parse_limit_offset : Request → Result (ℕ × ℕ)
parse_limit_offset c =
    and_then (read_limit (c.query (text "limit")))
      (λ limit. and_then (read_offset (c.query (text "offset"))) (λ offset. ok (limit, offset)))

abbrev from_to : Text → Text
from_to name = text "from_" ++ (name ++ (text " and to_" ++ name))

abbrev pub ordered : Text → ℕ → ℕ → Result (ℕ × ℕ)
ordered name from to =
    if ltb to from
    then refuse (text "from_" ++ (name ++ (text " must be less than or equal to to_" ++ name)))
    else ok (from, to)

-- parseEpochWindow and parseSlotWindow: they differ in the parameter's name.
abbrev pub window : Text → Text → Text → Text → Result (ℕ × ℕ)
window name one from to =
    if not (is_empty one)
    then (if not (is_empty from) || not (is_empty to)
        then refuse
            (text "use either " ++ (name ++ (text " or " ++ (from_to name ++ text ", not both"))))
        else and_then (uint_or (text "invalid " ++ name) (parse_uint one)) (λ v. ok (v, v)))
    else (if is_empty from || is_empty to
        then refuse (
            from_to name
            ++ (text " are required, or pass " ++ (name ++ (text " for a single " ++ name))))
        else and_then (uint_or (text "invalid from_" ++ name) (parse_uint from)) (λ a.
          and_then (uint_or (text "invalid to_" ++ name) (parse_uint to)) (λ b. ordered name a b)))

unfoldable pub parse_epoch_window : Request → Result (ℕ × ℕ)
parse_epoch_window c =
    window (text "epoch") (c.query (text "epoch")) (c.query (text "from_epoch"))
      (c.query (text "to_epoch"))

unfoldable pub parse_slot_window : Request → Result (ℕ × ℕ)
parse_slot_window c =
    window (text "slot") (c.query (text "slot")) (c.query (text "from_slot"))
      (c.query (text "to_slot"))

unfoldable pub optional_validator_query : Request → Result (Option ℕ)
optional_validator_query c =
    let s = c.query (text "validator_index") in
    if is_empty s
    then ok none
    else and_then (uint_or (text "invalid validator_index") (parse_uint s)) (λ v. ok (some v))

abbrev pub agree : Option ℕ → Option ℕ → Result (Option ℕ)
agree none q = ok q
agree (some p) none = ok (some p)
agree (some p) (some q) =
    if q == p
    then ok (some p)
    else refuse (text "validator_index query does not match path validator")

unfoldable pub merge_validator_scope : Request → Option ℕ → Result (Option ℕ)
merge_validator_scope c path_validator =
    and_then (optional_validator_query c) (λ q. agree path_validator q)

-- What is written: an error's status and message, or a page of a list.
pub data Response (A : Type 0) : Type 0 where
  bad_request : Text → Response A
  not_found : Text → Response A
  internal : Response A
  page : (rows : List A) → (limit offset count : ℕ) → Response A
  value : A → Response A

-- errors.Is(err, pgx.ErrNoRows)
abbrev pub is_no_rows : Error → Bool
is_no_rows no_rows = true
is_no_rows (wrap context e) = is_no_rows e
is_no_rows (http_response s p b) = false
is_no_rows (retryable s m) = false
is_no_rows (plain m) = false
is_no_rows canceled = false
is_no_rows pool_stopped = false

-- ListSnapshots, whose window has no shorthand.
abbrev pub snapshot_window : Text → Text → Result (ℕ × ℕ)
snapshot_window from to =
    if is_empty from || is_empty to
    then refuse (text "from_slot and to_slot are required")
    else and_then (uint_or (text "invalid from_slot") (parse_uint from)) (λ a.
      and_then (uint_or (text "invalid to_slot") (parse_uint to)) (λ b. ordered (text "slot") a b))

module _ {A : Type 0} where
  abbrev pub bad : Error → Exec World (Response A)
  bad e = pure (bad_request (error_text e))

  abbrev pub or_bad :
      {B : Type 0} → Result B → (B → Exec World (Response A)) → Exec World (Response A)
  or_bad (ok b) f = f b
  or_bad (err e) f = bad e

  abbrev pub as_page : ℕ → ℕ → Result (List A) × World → Result (Response A) × World
  as_page limit offset (ok rows, w) = (ok (page rows limit offset (length rows)), w)
  as_page limit offset (err e, w) = (ok internal, w)

  -- listAttestationRewards, listBlockProposerRewards and listSyncCommitteeRewards: they differ in
  -- the window and in the query.
  unfoldable pub list_rewards :
      (Request → Result (ℕ × ℕ))
      → (Option ℕ → ℕ × ℕ → ℕ → ℕ → Exec World (List A))
      → Request
      → Option ℕ
      → Exec World (Response A)
  list_rewards parse_window list c path_validator =
      or_bad (merge_validator_scope c path_validator) (λ scope. or_bad (parse_window c) (λ bounds.
        or_bad (parse_limit_offset c)
          (λ (limit, offset) w. as_page limit offset (list scope bounds limit offset w))))

  -- The handlers of a validator's path.
  unfoldable pub list_rewards_scoped :
      (Request → Result (ℕ × ℕ))
      → (Option ℕ → ℕ × ℕ → ℕ → ℕ → Exec World (List A))
      → Request
      → Exec World (Response A)
  list_rewards_scoped parse_window list c =
      or_bad (parse_uint_path c (text "validatorIndex"))
        (λ idx. list_rewards parse_window list c (some idx))

  abbrev pub as_value : Result A × World → Result (Response A) × World
  as_value (ok a, w) = (ok (value a), w)
  as_value (err e, w) = (ok internal, w)

  abbrev pub as_found : Result A × World → Result (Response A) × World
  as_found (ok a, w) = (ok (value a), w)
  as_found (err e, w) = (
    ok (if is_no_rows e then not_found (text "no snapshot found for this validator") else internal),
    w,
  )

  unfoldable pub latest_snapshot : (ℕ → Exec World A) → Request → Exec World (Response A)
  latest_snapshot get c =
      or_bad (parse_uint_path c (text "validatorIndex")) (λ idx w. as_found (get idx w))

  unfoldable pub list_snapshots :
      (ℕ → ℕ × ℕ → ℕ → ℕ → Exec World (List A)) → Request → Exec World (Response A)
  list_snapshots list c = or_bad (parse_uint_path c (text "validatorIndex")) (λ idx.
      or_bad (snapshot_window (c.query (text "from_slot")) (c.query (text "to_slot"))) (λ bounds.
        or_bad (parse_limit_offset c)
          (λ (limit, offset) w. as_page limit offset (list idx bounds limit offset w))))

  unfoldable pub count_snapshots : (ℕ → Exec World A) → Request → Exec World (Response A)
  count_snapshots count c =
      or_bad (parse_uint_path c (text "validatorIndex")) (λ idx w. as_value (count idx w))

  unfoldable pub list_validators : (ℕ → ℕ → Exec World (List A)) → Request → Exec World (Response A)
  list_validators list c =
      or_bad (parse_limit_offset c)
        (λ (limit, offset) w. as_page limit offset (list limit offset w))
