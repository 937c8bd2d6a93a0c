-- ===== src/Api/Router/Pages.antt =====
-- internal/storage/postgres/repository.go: the size of what the list queries of the API return.
use pauli.Common.{
  ◌&&◌, Bool, Bool-cases, inl, inr, leb, length-map, ℕ, ◌≤◌, ◌≡◌, refl, true, Option, none, some,
  List, length, length-take, map, arith, drop,
}
use pauli.Common.Orders.{cut, order_by}
use pauli.Text.{Text, text}
use pauli.Exec.{and_then, Result, ok, err, Exec, annotate, lift, ◌>>=◌}
use pauli.Exec.Post.{Post, Post-bind, Post-annotate}
use pauli.Exec.Accepts.{Accepts}
use pauli.Storage.{encodes, ValidatorEpochRecord, World, Db, Repository, query}
use pauli.Storage.Statements.{query-Post}
use pauli.Storage.Reads
use pauli.Storage.Reads.SyncCommittee.{
  global_rows, scoped_rows, later_reward, newer_reward, window_blocks, list_sync_committee_rewards,
  list_sync_committee_rewards_scoped, list_sync_committee_rewards_global,
}
use pauli.Storage.Reads.{
  ValidatorSnapshot, later_epoch, first_row, get_latest_snapshot, scope_encodes,
  list_validator_snapshots, snapshot_of, snapshot_rows, distinct_validators, AttestationReward,
  SyncCommitteeReward, list_attestation_rewards, list_blocks, listed_block, block_rows, scan_rows,
  scan_attestation, attestation_rows,
}
use pauli.Storage.Reads.Scan.{Scanned, scan_rows-Scanned, Scanned-length}
use pauli.Api.{
  as_value, as_found, is_no_rows, Request, Response, bad_request, not_found, internal, page, value,
  or_bad, as_page, parse_limit_offset,
}
use pauli.Api.Windows.{PageSize, parse_limit_offset-PageSize}

-- A page counts its rows, which are no more than its limit of 1 to 1000.
abbrev pub Fits : {A : Type 0} → Response A → Type 0
Fits (page rows limit offset count) = (count ≡ length rows) × (length rows ≤ limit) × PageSize limit
Fits (bad_request message) = Unit
Fits (not_found message) = Unit
Fits internal = Unit
Fits (value a) = Unit

-- A query has at most `limit` rows, and leaves the tables as they were.
abbrev pub Lists : {A : Type 0} → ℕ → Db → Result (List A) × World → Type 0
Lists limit db = Post (λ rows w. (length rows ≤ limit) × (w.db ≡ db)) (λ w. w.db ≡ db)

-- The handler has answered, and the tables are as they were.
abbrev pub Handles : {A : Type 0} → Db → Result (Response A) × World → Type 0
Handles db = Post (λ response w. Fits response × (w.db ≡ db)) (λ w. ⊥)

module _ {A : Type 0} (db : Db) where
  pub or_bad-Handles :
      {B : Type 0} (Q : B → Type 0) (x : Result B) (f : B → Exec World (Response A)) (w : World)
      → Accepts Q x
      → w.db ≡ db
      → ((b : B) → Q b → Handles db (f b w))
      → Handles db (or_bad x f w)
  or_bad-Handles Q (ok b) f w h e k = k b h
  or_bad-Handles Q (err er) f w h e k = (tt, e)

  pub as_page-Handles :
      (limit offset : ℕ) (x : Result (List A) × World)
      → PageSize limit
      → Lists limit db x
      → Handles db (as_page limit offset x)
  as_page-Handles limit offset (ok rows, w) size h = ((refl, h.0, size), h.1)
  as_page-Handles limit offset (err e, w) size h = (tt, h)

pub any : {A : Type 0} (x : Result A) → Accepts (λ _. Unit) x
any (ok a) = tt
any (err e) = tt

-- A page behind `parse_limit_offset`.
pub paged :
    {A : Type 0} (list : ℕ → ℕ → Exec World (List A))
    → ((limit offset : ℕ) (w : World) → Lists limit w.db (list limit offset w))
    → (c : Request) (w : World)
    → Handles w.db (
        or_bad
          (parse_limit_offset c)
          (λ (limit, offset) w. as_page limit offset (list limit offset w))
          w)
paged list lists c w =
    or_bad-Handles w.db (λ (pg : ℕ × ℕ). PageSize pg.0) (parse_limit_offset c) _ w
      (parse_limit_offset-PageSize c) refl
      (λ pg size. as_page-Handles w.db pg.0 pg.1 (list pg.0 pg.1 w) size (lists pg.0 pg.1 w))

module _ {A : Type 0} (db : Db) where
  -- What a read of one value leaves: the tables as they were.
  abbrev pub Untouched : Result A × World → Type 0
  Untouched = Post (λ a w. w.db ≡ db) (λ w. w.db ≡ db)

  pub as_value-Handles : (x : Result A × World) → Untouched x → Handles db (as_value x)
  as_value-Handles (ok a, w) h = (tt, h)
  as_value-Handles (err e, w) h = (tt, h)

  pub as_found-Handles : (x : Result A × World) → Untouched x → Handles db (as_found x)
  as_found-Handles (ok a, w) h = (tt, h)
  as_found-Handles (err e, w) h = elim (Bool-cases (is_no_rows e)) [
    | inl missing ↦ rw missing (tt, h)
    | inr broken ↦ rw broken (tt, h)
  ]

module _ {A : Type 0} (r : Repository) (fits : Bool) (context : Text) (w : World) where
  pub query-Untouched : (read : Db → A) → Untouched w.db (annotate context (query r fits read) w)
  query-Untouched read =
      Post-annotate (λ a v. v.db ≡ w.db) (λ v. v.db ≡ w.db) context (query r fits read) w
        (query-Post r fits read _ _ w (λ n e. refl) (λ n. refl))

  pub query-Lists :
      (limit : ℕ) (read : Db → List A)
      → length (read w.db) ≤ limit
      → Lists limit w.db (annotate context (query r fits read) w)
  query-Lists limit read h =
      Post-annotate (λ rows v. (length rows ≤ limit) × (v.db ≡ w.db)) (λ v. v.db ≡ w.db) context
        (query r fits read) w (query-Post r fits read _ _ w (λ n e. (h, refl)) (λ n. refl))

pub length-cut :
    {A : Type 0} (limit offset : ℕ) (xs : List A) → length (cut limit offset xs) ≤ limit
length-cut limit offset xs = omega (arith, length-take limit (drop offset xs))

pub length-map-cut :
    {A B : Type 0} (f : A → B) (limit offset : ℕ) (xs : List A)
    → length (map f (cut limit offset xs)) ≤ limit
length-map-cut f limit offset xs =
    omega (arith, length-map (cut limit offset xs) f, length-cut limit offset xs)

module _ {A B : Type 0} (scan : A → Result B) (limit : ℕ) (db : Db) where
  pub scanned-Lists :
      (context : Text) (rows : List A) (w : World)
      → length rows ≤ limit
      → w.db ≡ db
      → Lists limit db (annotate context (lift (scan_rows scan rows)) w)
  scanned-Lists context rows w few e = go (scan_rows scan rows) (scan_rows-Scanned scan rows)
    where
      go :
          (x : Result (List B))
          → Accepts (Scanned scan rows) x
          → Lists limit db (annotate context (lift x) w)
      go (ok bs) h = (omega (arith, Scanned-length scan rows bs h), e)
      go (err er) h = e

module _ (r : Repository) where
  pub list_attestation_rewards-Lists :
      (scope : Option ℕ) (bounds : ℕ × ℕ) (limit offset : ℕ) (w : World)
      → Lists limit w.db (list_attestation_rewards r scope bounds limit offset w)
  unfolding list_attestation_rewards
  list_attestation_rewards-Lists scope bounds limit offset w =
      let fits : Bool = scope_encodes scope && (encodes bounds.0 && encodes bounds.1) in
      let read : Db → List ValidatorEpochRecord =
        λ db. cut limit offset (attestation_rows scope bounds.0 bounds.1 db) in
      Post-bind (λ rows v. (length rows ≤ limit) × (v.db ≡ w.db))
        (λ rows v. (length rows ≤ limit) × (v.db ≡ w.db)) (λ v. v.db ≡ w.db)
        (annotate (text "failed to list attestation rewards") (query r fits read))
        (λ rows.
          annotate (text "failed to scan attestation reward")
            (lift (scan_rows scan_attestation rows)))
        w
        (query-Lists r fits (text "failed to list attestation rewards") w limit read
          (length-cut limit offset (attestation_rows scope bounds.0 bounds.1 w.db)))
        (λ rows v h.
          scanned-Lists scan_attestation limit w.db (text "failed to scan attestation reward") rows
            v h.0 h.1)

  pub list_blocks-Lists :
      (scope : Option ℕ) (bounds : ℕ × ℕ) (limit offset : ℕ) (w : World)
      → Lists limit w.db (list_blocks r scope bounds limit offset w)
  unfolding list_blocks
  list_blocks-Lists scope bounds limit offset w =
      query-Lists r (scope_encodes scope && (encodes bounds.0 && encodes bounds.1))
        (text "failed to list blocks") w limit
        (λ db. map listed_block (cut limit offset (block_rows scope bounds.0 bounds.1 db)))
        (length-map-cut listed_block limit offset (block_rows scope bounds.0 bounds.1 w.db))

  pub list_sync_committee_rewards-Lists :
      (scope : Option ℕ) (bounds : ℕ × ℕ) (limit offset : ℕ) (w : World)
      → Lists limit w.db (list_sync_committee_rewards r scope bounds limit offset w)
  unfolding list_sync_committee_rewards list_sync_committee_rewards_scoped
      list_sync_committee_rewards_global
  list_sync_committee_rewards-Lists (some v) bounds limit offset w =
      query-Lists r (encodes bounds.0 && encodes bounds.1)
        (text "failed to list sync committee rewards") w limit
        (λ db.
          cut limit offset
            (order_by later_reward (scoped_rows v (window_blocks bounds.0 bounds.1 db))))
        (length-cut limit offset
          (order_by later_reward (scoped_rows v (window_blocks bounds.0 bounds.1 w.db))))
  list_sync_committee_rewards-Lists none bounds limit offset w =
      let read : Db → Result (List SyncCommitteeReward) =
        λ db. global_rows (window_blocks bounds.0 bounds.1 db) in
      let fits : Bool = encodes bounds.0 && encodes bounds.1 in
      let rest : Result (List SyncCommitteeReward) → Exec World (List SyncCommitteeReward) =
        λ x. lift (and_then x (λ found. ok (cut limit offset (order_by newer_reward found)))) in
      Post-annotate (λ rows v. (length rows ≤ limit) × (v.db ≡ w.db)) (λ v. v.db ≡ w.db)
        (text "failed to list sync committee rewards") (query r fits read >>= rest) w
        (Post-bind (λ x v. v.db ≡ w.db) (λ rows v. (length rows ≤ limit) × (v.db ≡ w.db))
          (λ v. v.db ≡ w.db) (query r fits read) rest w
          (query-Post r fits read (λ x v. v.db ≡ w.db) (λ v. v.db ≡ w.db) w (λ n e. refl)
            (λ n. refl))
          go)
    where
      go :
          (x : Result (List SyncCommitteeReward)) (v : World)
          → v.db ≡ w.db
          → Lists limit w.db
              (lift (and_then x (λ found. ok (cut limit offset (order_by newer_reward found)))) v)
      go (ok found) v e = (length-cut limit offset (order_by newer_reward found), e)
      go (err er) v e = e

  pub list_validator_snapshots-Lists :
      (v : ℕ) (bounds : ℕ × ℕ) (limit offset : ℕ) (w : World)
      → Lists limit w.db (list_validator_snapshots r v bounds limit offset w)
  unfolding list_validator_snapshots
  list_validator_snapshots-Lists v bounds limit offset w =
      query-Lists r (encodes v && (encodes bounds.0 && encodes bounds.1))
        (text "failed to list validator snapshots") w limit
        (λ db. map snapshot_of (cut limit offset (snapshot_rows v bounds.0 bounds.1 db)))
        (length-map-cut snapshot_of limit offset (snapshot_rows v bounds.0 bounds.1 w.db))

  pub list_validators-Lists :
      (limit offset : ℕ) (w : World) → Lists limit w.db (Reads.list_validators r limit offset w)
  unfolding Reads.list_validators
  list_validators-Lists limit offset w =
      query-Lists r true (text "failed to list validators") w limit
        (λ db. cut limit offset (order_by leb (distinct_validators db.records)))
        (length-cut limit offset (order_by leb (distinct_validators w.db.records)))
