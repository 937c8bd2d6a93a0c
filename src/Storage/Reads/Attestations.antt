-- ===== src/Storage/Reads/Attestations.antt =====
-- What the query of attestation rewards returns.
use pauli.Common.{
  ℕ, ◌≤◌, ◌+◌, ◌≡◌, refl, Bool, true, false, ◌&&◌, Option, none, some, List, [], ◌∷◌, length, All,
  arith, drop, ltb, leb, length-take, ==_iff, ◌==◌, ◌||◌, subst, inl, inr, leb→le, ◌∙◌,
}
use pauli.Common.Int.{ℤ}
use pauli.Common.Orders.{
  select_rows, cut, IsSorted, select_rows-All, All-order_by, All-cut, All-select_rows, All-weaken,
  IsSorted-cut, order_by-IsSorted,
}
use pauli.Exec.{Result, ok, err}
use pauli.Exec.Accepts.{Accepts, and_then-Accepts, Accepts-weaken, lift-IfOk}
use pauli.Exec.Post.{IfOk}
use pauli.Storage.{ValidatorEpochRecord, Db, World, Repository, answered, encodes, at}
use pauli.Storage.Statements.{read_then-IfOk, read_then-ok}
use pauli.Storage.Records.Whole.{Whole, AllWhole}
use pauli.Storage.Reads.{
  AttestationReward, in_scope, scope_encodes, within, is_some, scan_int64, scan_attestation,
  newer_record, attestation_rows, scan_rows, list_attestation_rewards,
}
use pauli.Storage.Reads.Scan.{
  Scanned, scan_rows-ok, scan_rows-Scanned, Scanned-length, Scanned-All, Scanned-IsSorted,
}

abbrev pub newer_reward : AttestationReward → AttestationReward → Bool
newer_reward a b =
    ltb b.epoch a.epoch || (a.epoch == b.epoch && leb a.validator_index b.validator_index)

-- A validator that is asked for.
abbrev pub InScope : Option ℕ → ℕ → Type 0
InScope none v = Unit
InScope (some idx) v = v ≡ idx

abbrev pub InWindow : Option ℕ → ℕ × ℕ → AttestationReward → Type 0
InWindow scope (from, to) a = (from ≤ a.epoch) × (a.epoch ≤ to) × InScope scope a.validator_index

record SameKey (row : ValidatorEpochRecord) (a : AttestationReward) : Type 0 where
  same_validator : a.validator_index ≡ row.validator_index
  same_epoch : a.epoch ≡ row.epoch

scan_attestation-SameKey :
    (row : ValidatorEpochRecord) (a : AttestationReward)
    → scan_attestation row ≡ ok a
    → SameKey row a
unfolding scan_attestation
scan_attestation-SameKey row a e = subst (Accepts (SameKey row)) e (
    and_then-Accepts (λ _. Unit) (SameKey row) (scan_int64 row.head_reward) _ (any _)
      (λ _ _.
        and_then-Accepts (λ _. Unit) (SameKey row) (scan_int64 row.source_reward) _ (any _)
          (λ _ _.
            and_then-Accepts (λ _. Unit) (SameKey row) (scan_int64 row.target_reward) _ (any _)
              (λ _ _.
                and_then-Accepts (λ _. Unit) (SameKey row) (scan_int64 row.total_reward) _ (any _)
                  (λ _ _. record { same_validator = refl; same_epoch = refl })))))
  where
    any : (x : Result ℤ) → Accepts (λ _. Unit {0}) x
    any (ok n) = tt
    any (err e) = tt

newer_record_total :
    (a b : ValidatorEpochRecord) → newer_record a b ≡ false → newer_record b a ≡ true
newer_record_total a b h = ground arith

newer_record_trans :
    (a b c : ValidatorEpochRecord)
    → newer_record a b ≡ true
    → newer_record b c ≡ true
    → newer_record a c ≡ true
newer_record_trans a b c h k = ground arith

newer_reward-scanned :
    (x y : ValidatorEpochRecord) (a b : AttestationReward)
    → scan_attestation x ≡ ok a
    → scan_attestation y ≡ ok b
    → newer_record x y ≡ true
    → newer_reward a b ≡ true
newer_reward-scanned x y a b ea eb h =
    let ka = scan_attestation-SameKey x a ea in
    let kb = scan_attestation-SameKey y b eb in
    rw (ka.same_validator, ka.same_epoch, kb.same_validator, kb.same_epoch) h

in_scope-InScope : (scope : Option ℕ) (v : ℕ) → in_scope scope v ≡ true → InScope scope v
in_scope-InScope none v h = tt
in_scope-InScope (some idx) v h = (==_iff v idx).0 h

wanted-InWindow :
    (scope : Option ℕ) (from to : ℕ) (row : ValidatorEpochRecord) (a : AttestationReward)
    → scan_attestation row ≡ ok a
    → (within from to row.epoch && (is_some row.head_reward && in_scope scope row.validator_index))
      ≡ true
    → InWindow scope (from, to) a
wanted-InWindow scope from to row a e h =
    let k = scan_attestation-SameKey row a e in
    rw (k.same_validator, k.same_epoch)
      (
        leb→le _ _ (ground (arith, h)),
        leb→le _ _ (ground (arith, h)),
        in_scope-InScope scope _ (ground (arith, h)),
      )

-- What a page of rewards is: rows of the window and the scope, newest first, within the limit.
abbrev pub RewardPage : Option ℕ → ℕ × ℕ → ℕ → List AttestationReward → Type 0
RewardPage scope bounds limit rewards =
    (length rewards ≤ limit) × All (InWindow scope bounds) rewards × IsSorted newer_reward rewards

module _ (scope : Option ℕ) (from to limit offset : ℕ) where
  page_of_scan :
      (db : Db) (rewards : List AttestationReward)
      → Scanned scan_attestation (cut limit offset (attestation_rows scope from to db)) rewards
      → RewardPage scope (from, to) limit rewards
  page_of_scan db rewards h =
      let rows = cut limit offset (attestation_rows scope from to db) in
      let n = Scanned-length scan_attestation rows rewards h in
      let m = length-take limit (drop offset (attestation_rows scope from to db)) in
      (
        omega (arith, n, m),
        Scanned-All scan_attestation _ (InWindow scope (from, to)) (wanted-InWindow scope from to)
            rows rewards h
            (All-cut _ limit offset _
              (All-order_by _ newer_record _ (select_rows-All _ db.records))),
        Scanned-IsSorted scan_attestation newer_record newer_reward newer_reward-scanned rows
            rewards h
            (IsSorted-cut newer_record limit offset _
              (order_by-IsSorted newer_record newer_record_total newer_record_trans _)),
      )

-- A page of attestation rewards that is returned has at most `limit` rows, all of the window and
-- of the validator that is asked for, with later epochs first and equal epochs by validator.
pub list_attestation_rewards-RewardPage :
    (r : Repository) (scope : Option ℕ) (bounds : ℕ × ℕ) (limit offset : ℕ) (w : World)
    → IfOk
        (λ rewards _. RewardPage scope bounds limit rewards)
        (list_attestation_rewards r scope bounds limit offset w)
unfolding list_attestation_rewards
list_attestation_rewards-RewardPage r scope (from, to) limit offset w =
    let rows = cut limit offset (attestation_rows scope from to w.db) in
    read_then-IfOk r _ _ (λ db. cut limit offset (attestation_rows scope from to db)) _
      (RewardPage scope (from, to) limit) w
      (λ w'. lift-IfOk (RewardPage scope (from, to) limit) _ (scan_rows scan_attestation rows) w' (
        Accepts-weaken (Scanned scan_attestation rows) _ (scan_rows scan_attestation rows)
          (page_of_scan scope from to limit offset w.db) (scan_rows-Scanned scan_attestation rows)))

-- A row with its rewards can be read.
readable :
    (row : ValidatorEpochRecord)
    → Whole row
    → is_some row.head_reward ≡ true
    → (a : AttestationReward) × (scan_attestation row ≡ ok a)
unfolding scan_attestation
readable row (inl (h, s, t, a, eh, es, et, ea)) k = (
  record {
    validator_index = row.validator_index;
    epoch = row.epoch;
    head_reward = h;
    source_reward = s;
    target_reward = t;
    total_reward = a;
    timestamp = row.indexed_at;
  },
  rw (eh, es, et, ea) refl,
)
readable row (inr (eh, es, et, ea)) k = absurd cc

readable-All :
    (rows : List ValidatorEpochRecord)
    → All Whole rows
    → All (λ row. is_some row.head_reward ≡ true) rows
    → All (λ row. (a : AttestationReward) × (scan_attestation row ≡ ok a)) rows
readable-All [] h k = tt
readable-All (row ∷ rows) h k = (readable row h.0 k.0, readable-All rows h.1 k.1)

-- Let every record of the table have all four rewards or none of them. Then a query of attestation
-- rewards whose arguments fit their columns and which the server answers is read without an error,
-- one reward for each row of the page.
pub list_attestation_rewards-Readable :
    (r : Repository) (scope : Option ℕ) (from to limit offset : ℕ) (w : World)
    → AllWhole w.db
    → (scope_encodes scope && (encodes from && encodes to)) ≡ true
    → r.fate w.calls ≡ answered
    → (rewards : List AttestationReward) × (list_attestation_rewards r scope
          (from, to)
          limit
          offset
          w
        ≡ (ok rewards, at (w.calls + 1) w.db))
      × Scanned scan_attestation (cut limit offset (attestation_rows scope from to w.db)) rewards
unfolding list_attestation_rewards
list_attestation_rewards-Readable r scope from to limit offset w whole fits live =
    let rows = cut limit offset (attestation_rows scope from to w.db) in
    let (rewards, e) = scan_rows-ok scan_attestation rows (
      readable-All rows
        (All-cut Whole limit offset _
          (All-order_by Whole newer_record _ (All-select_rows Whole _ w.db.records whole)))
        (All-cut _ limit offset _ (
          All-order_by _ newer_record _ (
            All-weaken _ (select_rows _ w.db.records) (λ row h. ground (arith, h))
              (select_rows-All _ w.db.records))))) in
    (
      rewards,
      read_then-ok r _ _ (λ db. cut limit offset (attestation_rows scope from to db)) _ w fits live
          ∙ rw e refl,
      subst (Accepts (Scanned scan_attestation rows)) e (scan_rows-Scanned scan_attestation rows),
    )
