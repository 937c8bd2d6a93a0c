-- ===== src/Api/Router/Scoped.antt =====
-- internal/api/router.go: whose rows the routes of a validator's path answer with.
use pauli.Common.{
  Bool-cases, inl, inr, ℕ, ◌==◌, ==_iff, ◌≡◌, ◌&&◌, Bool, List, [], ◌∷◌, All, map, arith,
}
use pauli.Common.Orders.{
  In, All-at_In, select_rows, order_by, cut, All-weaken, All-cut, All-order_by, select_rows-All,
}
use pauli.Text.{text}
use pauli.Exec.{Result, ok, err, Exec, lift, ◌>>=◌}
use pauli.Exec.Post.{Post, IfOk, Post-annotate, Post-bind}
use pauli.Exec.Accepts.{Accepts}
use pauli.Storage.{ValidatorEpochRecord, encodes, Db, World, Repository, query}
use pauli.Storage.Statements.{read-IfOk, query-Post}
use pauli.Storage.Reads.{
  ValidatorSnapshot, AttestationReward, SyncCommitteeReward, snapshot_of, snapshot_rows, within,
  list_validator_snapshots, get_latest_snapshot, list_attestation_rewards, list_blocks, later_slot,
  later_epoch, first_row,
}
use pauli.Storage.Reads
use pauli.Storage.Reads.SyncCommittee.{list_sync_committee_rewards}
use pauli.Api.{
  Request, Response, bad_request, not_found, internal, page, value, or_bad, as_page, as_found,
  as_value, is_no_rows, parse_uint_path, parse_epoch_window, parse_slot_window, parse_limit_offset,
  snapshot_window, list_rewards_scoped, latest_snapshot, list_snapshots, count_snapshots,
}
use pauli.Api.Answers.{Answers}
use pauli.Api.Rewards.{AttestationOf, BlockOf, SyncRewardOf, handlers-Answers, All-map}
use pauli.Api.Router.{Row, Answer, json, status_only, raw, Route, as_json, validator_routes}

-- The row is the validator's; a count of rows names none.
abbrev pub Belongs : ℕ → Row → Type 0
Belongs idx (Row.attestation a) = a.validator_index ≡ idx
Belongs idx (Row.block b) = b.validator_index ≡ idx
Belongs idx (Row.sync_reward s) = s.validator_index ≡ idx
Belongs idx (Row.snapshot s) = s.validator_index ≡ idx
Belongs idx (Row.validator v) = v ≡ idx
Belongs idx (Row.row_count n) = Unit

abbrev pub RowsOf : {A : Type 0} → (A → Type 0) → Response A → Type 0
RowsOf P (page rows limit offset count) = All P rows
RowsOf P (value a) = P a
RowsOf P (bad_request message) = Unit
RowsOf P (not_found message) = Unit
RowsOf P internal = Unit

abbrev pub AnswerOf : ℕ → Answer → Type 0
AnswerOf idx (json response) = RowsOf (Belongs idx) response
AnswerOf idx (status_only code) = ⊥
AnswerOf idx (raw code content_type body) = ⊥

-- The route has answered, with rows of the validator only.
abbrev pub ServesOf : ℕ → Result Answer × World → Type 0
ServesOf idx = Post (λ answer w. AnswerOf idx answer) (λ w. ⊥)

-- What is shown of each route's handler.
abbrev IsScoped : Route → Type 0
IsScoped route =
    (c : Request) (idx : ℕ) (w : World)
    → parse_uint_path c (text "validatorIndex") ≡ ok idx
    → ServesOf idx (route.handler c w)

abbrev AllScoped : List Route → Type 0
AllScoped routes = All IsScoped routes

module _ {A : Type 0} (P : A → Type 0) where
  abbrev Gives : Result (Response A) × World → Type 0
  Gives = Post (λ response w. RowsOf P response) (λ w. ⊥)

  as_page-Gives :
      (limit offset : ℕ) (x : Result (List A) × World)
      → IfOk (λ rows w. All P rows) x
      → Gives (as_page limit offset x)
  as_page-Gives limit offset (ok rows, w) h = h
  as_page-Gives limit offset (err e, w) h = tt

  as_found-Gives : (x : Result A × World) → IfOk (λ a w. P a) x → Gives (as_found x)
  as_found-Gives (ok a, w) h = h
  as_found-Gives (err e, w) h = elim (Bool-cases (is_no_rows e)) [
    | inl missing ↦ rw missing tt
    | inr broken ↦ rw broken tt
  ]

  as_value-Gives : (x : Result A × World) → ((a : A) → P a) → Gives (as_value x)
  as_value-Gives (ok a, w) h = h a
  as_value-Gives (err e, w) h = tt

  or_bad-Gives :
      {B : Type 0} (x : Result B) (f : B → Exec World (Response A)) (w : World)
      → ((b : B) → Gives (f b w))
      → Gives (or_bad x f w)
  or_bad-Gives (ok b) f w k = k b
  or_bad-Gives (err e) f w k = tt

  as_json-ServesOf :
      (idx : ℕ) (f : A → Row)
      → ((a : A) → P a → Belongs idx (f a))
      → (m : Exec World (Response A)) (w : World) → Gives (m w)
      → ServesOf idx (as_json f m w)
  as_json-ServesOf idx f sound m w = go (m w)
    where
      go : (x : Result (Response A) × World) → Gives x → ServesOf idx (as_json f (λ _. x) w)
      go (ok (bad_request message), v) h = tt
      go (ok (not_found message), v) h = tt
      go (ok internal, v) h = tt
      go (ok (page rows limit offset count), v) h =
          All-map (Belongs idx) f rows (All-weaken (λ a. Belongs idx (f a)) rows sound h)
      go (ok (value a), v) h = sound a h
      go (err e, v) h = h

Answers-Gives :
    {A : Type 0} (P : ℕ → A → Type 0) (idx : ℕ) (x : Result (Response A) × World)
    → Answers P idx x
    → Gives (P idx) x
Answers-Gives P idx (ok (bad_request message), w) h = tt
Answers-Gives P idx (ok (not_found message), w) h = tt
Answers-Gives P idx (ok internal, w) h = tt
Answers-Gives P idx (ok (page rows limit offset count), w) h = h.0
Answers-Gives P idx (ok (value a), w) h = absurd h
Answers-Gives P idx (err e, w) h = h

abbrev pub SnapshotOf : ℕ → ValidatorSnapshot → Type 0
SnapshotOf idx s = s.validator_index ≡ idx

abbrev RecordOf : ℕ → ValidatorEpochRecord → Type 0
RecordOf idx row = row.validator_index ≡ idx

module _ (r : Repository) (idx : ℕ) (w : World) where
  snapshots-scoped :
      (bounds : ℕ × ℕ) (limit offset : ℕ)
      → IfOk
          (λ rows _. All (SnapshotOf idx) rows)
          (list_validator_snapshots r idx bounds limit offset w)
  unfolding list_validator_snapshots
  snapshots-scoped bounds limit offset =
      read-IfOk r (encodes idx && (encodes bounds.0 && encodes bounds.1))
        (text "failed to list validator snapshots")
        (λ db. map snapshot_of (cut limit offset (snapshot_rows idx bounds.0 bounds.1 db)))
        (All (SnapshotOf idx)) w
        (All-map (SnapshotOf idx) snapshot_of _ (
          All-cut (RecordOf idx) limit offset _ (
            All-order_by (RecordOf idx) later_slot _ (
              All-weaken (RecordOf idx) _
                (λ row h. (==_iff row.validator_index idx).0 (ground (arith, h)))
                (select_rows-All
                  (λ (row : ValidatorEpochRecord).
                    row.validator_index == idx && within bounds.0 bounds.1 row.epoch_start_slot)
                  w.db.records)))))

  first_row-SnapshotOf :
      (rows : List ValidatorSnapshot)
      → All (SnapshotOf idx) rows
      → Accepts (SnapshotOf idx) (first_row rows)
  first_row-SnapshotOf [] h = tt
  first_row-SnapshotOf (row ∷ rows) h = h.0

  latest-scoped : IfOk (λ s _. SnapshotOf idx s) (get_latest_snapshot r idx w)
  unfolding get_latest_snapshot
  latest-scoped =
      let mine : ValidatorEpochRecord → Bool = λ row. row.validator_index == idx in
      let read : Db → List ValidatorSnapshot =
        λ db. map snapshot_of (cut 1 0 (order_by later_epoch (select_rows mine db.records))) in
      let rest : List ValidatorSnapshot → Exec World ValidatorSnapshot =
        λ rows. lift (first_row rows) in
      Post-annotate (λ s _. SnapshotOf idx s) (λ _. Unit) (text "failed to get latest snapshot")
        (query r (encodes idx) read >>= rest) w
        (Post-bind (λ rows _. All (SnapshotOf idx) rows) (λ s _. SnapshotOf idx s) (λ _. Unit)
          (query r (encodes idx) read) rest w
          (query-Post r (encodes idx) read (λ rows _. All (SnapshotOf idx) rows) (λ _. Unit) w
            (λ n e. All-map (SnapshotOf idx) snapshot_of _ (
              All-cut (RecordOf idx) 1 0 _ (
                All-order_by (RecordOf idx) later_epoch _ (
                  All-weaken (RecordOf idx) _
                    (λ row h. (==_iff row.validator_index idx).0 (ground (arith, h)))
                    (select_rows-All mine w.db.records)))))
            (λ n. tt))
          (λ rows v h. go (first_row rows) v (first_row-SnapshotOf rows h)))
    where
      go :
          (x : Result ValidatorSnapshot) (v : World)
          → Accepts (SnapshotOf idx) x
          → IfOk (λ s _. SnapshotOf idx s) (lift x v)
      go (ok s) v h = h
      go (err e) v h = tt

module _ (r : Repository) (c : Request) (idx : ℕ) (w : World)
    (named : parse_uint_path c (text "validatorIndex") ≡ ok idx) where
  latest_snapshot-Gives : Gives (SnapshotOf idx) (latest_snapshot (get_latest_snapshot r) c w)
  unfolding latest_snapshot
  latest_snapshot-Gives =
      rw named
        (as_found-Gives (SnapshotOf idx) (get_latest_snapshot r idx w) (latest-scoped r idx w))

  list_snapshots-Gives : Gives (SnapshotOf idx) (list_snapshots (list_validator_snapshots r) c w)
  unfolding list_snapshots
  list_snapshots-Gives = rw named (
      or_bad-Gives (SnapshotOf idx)
        (snapshot_window (c.query (text "from_slot")) (c.query (text "to_slot"))) _ w
        (λ bounds. or_bad-Gives (SnapshotOf idx) (parse_limit_offset c) _ w (λ pg.
          as_page-Gives (SnapshotOf idx) pg.0 pg.1
            (list_validator_snapshots r idx bounds pg.0 pg.1 w)
            (snapshots-scoped r idx w bounds pg.0 pg.1))))

  count_snapshots-Gives : Gives (λ _. Unit) (count_snapshots (Reads.count_snapshots r) c w)
  unfolding count_snapshots
  count_snapshots-Gives =
      rw named (as_value-Gives (λ _. Unit) (Reads.count_snapshots r idx w) (λ _. tt))

validator_routes-AllScoped : (r : Repository) → AllScoped (validator_routes r)
validator_routes-AllScoped r = (
  (λ c idx w named.
      as_json-ServesOf (SnapshotOf idx) idx Row.snapshot (λ s h. h)
        (latest_snapshot (get_latest_snapshot r) c) w (latest_snapshot-Gives r c idx w named)),
  (
    (λ c idx w named.
        as_json-ServesOf (SnapshotOf idx) idx Row.snapshot (λ s h. h)
          (list_snapshots (list_validator_snapshots r) c) w (list_snapshots-Gives r c idx w named)),
    (
      (λ c idx w named.
          as_json-ServesOf (λ _. Unit) idx Row.row_count (λ n h. tt)
            (count_snapshots (Reads.count_snapshots r) c) w
            (count_snapshots-Gives r c idx w named)),
      (
        (λ c idx w named.
            as_json-ServesOf (AttestationOf idx) idx Row.attestation (λ a h. h)
              (list_rewards_scoped parse_epoch_window (list_attestation_rewards r) c) w
              (Answers-Gives AttestationOf idx _ (handlers-Answers r c idx w named).0)),
        (
          (λ c idx w named.
              as_json-ServesOf (BlockOf idx) idx Row.block (λ b h. h)
                (list_rewards_scoped parse_slot_window (list_blocks r) c) w
                (Answers-Gives BlockOf idx _ (handlers-Answers r c idx w named).1)),
          (
            (λ c idx w named.
                as_json-ServesOf (SyncRewardOf idx) idx Row.sync_reward (λ s h. h)
                  (list_rewards_scoped parse_slot_window (list_sync_committee_rewards r) c) w
                  (Answers-Gives SyncRewardOf idx _ (handlers-Answers r c idx w named).2)),
            tt,
          ),
        ),
      ),
    ),
  ),
)

-- Every route of a validator's path answers each request whose path names a validator with an
-- error's status or with rows of that validator only: balance snapshots, the latest one, the
-- rewards and the blocks (a count of rows names no validator).
pub validator_routes-ServesOf :
    (r : Repository) (route : Route) (c : Request) (idx : ℕ) (w : World)
    → In route (validator_routes r)
    → parse_uint_path c (text "validatorIndex") ≡ ok idx
    → ServesOf idx (route.handler c w)
validator_routes-ServesOf r route c idx w found named =
    All-at_In IsScoped route (validator_routes r) found (validator_routes-AllScoped r) c idx w named
