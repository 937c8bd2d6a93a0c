-- ===== src/Beacon/Duties/Lookup.antt =====
-- internal/beacon/duties.go and rewards.go: what the maps by validator index hold.
use pauli.Common.{
  subst, arith, true, false, if◌then◌else◌, ◌⊎◌, ℕ, ◌≡◌, ◌≢◌, refl, sym, ap, Bool, inl, inr, ==_iff,
  Option, none, some, List, [], ◌∷◌, ◌++◌, All, ◌==◌,
}
use pauli.Exec.{Result, ok, err, pure, ◌>>=◌}
use pauli.Text.{Text}
use pauli.Beacon.{Fetch, AttestationReward, AttestationRewardsData}
use pauli.Beacon.Client.{get_attestation_rewards}
use pauli.Beacon.Duties.{
  AttesterDuty, AttesterDutiesResponse, get_attester_duties, put, put_all, get_attester_duties_map,
  get_attestation_rewards_map,
}

module _ {A : Type 0} (index : A → ℕ) where
  abbrev pub NoneOf : ℕ → List A → Type 0
  NoneOf v rows = All (λ x. index x ≢ v) rows

  -- What is held under `v` is the last row with that index, and nothing if there is none.
  abbrev pub LastOf : ℕ → List A → Option A → Type 0
  LastOf v rows none = NoneOf v rows
  LastOf v rows (some x) =
      (front : List A) × (back : List A) × (rows ≡ front ++ (x ∷ back))
      × (index x ≡ v)
      × NoneOf v back

  -- The same, where the map held `o` under `v` before the rows.
  abbrev Later : ℕ → List A → Option A → Option A → Type 0
  Later v rows o found =
      ((found ≡ o) × NoneOf v rows) ⊎ ((x : A) × (found ≡ some x) × LastOf v rows (some x))

  put_all-Later :
      (m : ℕ → Option A) (v : ℕ) (rows : List A) → Later v rows (m v) (put_all index m rows v)
  unfolding put_all
  put_all-Later m v [] = inl (refl, tt)
  put_all-Later m v (x ∷ xs) =
      step (put_all index (put (index x) x m) xs v) (v == index x) refl
        (put_all-Later (put (index x) x m) v xs)
    where
      step :
          (found : Option A) (b : Bool)
          → (v == index x) ≡ b
          → Later v xs (if b then some x else m v) found
          → Later v (x ∷ xs) (m v) found
      step found b e (inr (y, is_y, (front, back, split, same, none_later))) =
          inr (y, is_y, (x ∷ front, back, ap (◌∷◌ x) split, same, none_later))
      step found true e (inl (same, h)) =
          inr (x, same, ([], xs, refl, sym ((==_iff v (index x)).0 e), h))
      step found false e (inl (same, h)) = inl (same, (ground (arith, e), h))

  -- The map of a list of rows holds each index's last row.
  pub put_all-LastOf : (v : ℕ) (rows : List A) → LastOf v rows (put_all index (λ _. none) rows v)
  put_all-LastOf v rows = go _ (put_all-Later (λ _. none) v rows)
    where
      go : (o : Option A) → Later v rows none o → LastOf v rows o
      go none (inl (same, h)) = h
      go none (inr (x, same, h)) = cc
      go (some y) (inl (same, h)) = cc
      go (some y) (inr (x, same, h)) = subst (LastOf v rows) (sym same) h

-- A map is returned exactly if the response is, with the last row of the validator under `v`; an
-- error is passed on, and nothing more is sent.
abbrev pub IfMap :
    {A B : Type 0} → (A → ℕ) → ℕ → (B → List A) → Result B × ℕ → Result (ℕ → Option A) × ℕ → Type 0
IfMap index v rows (ok resp, n) (ok m, n') = (n ≡ n') × LastOf index v (rows resp) (m v)
IfMap index v rows (err e, n) (err e', n') = (n ≡ n') × (e ≡ e')
IfMap index v rows (ok resp, n) (err e, n') = ⊥
IfMap index v rows (err e, n) (ok m, n') = ⊥

built :
    {A B : Type 0} (index : A → ℕ) (v : ℕ) (rows : B → List A) (x : Result B × ℕ)
    → IfMap index v rows x (((λ _. x) >>= λ resp. pure (put_all index (λ _. none) (rows resp))) x.1)
built index v rows (ok resp, n) = (refl, put_all-LastOf index v (rows resp))
built index v rows (err e, n) = (refl, refl)

-- Of the duties that the node answers with, the map holds under each validator index the last one
-- of that validator, and nothing for a validator without a duty; so do the attestation rewards of
-- an epoch.
pub duties_maps-LastOf :
    (post_duties : Text → List Text → Fetch AttesterDutiesResponse)
    (post_rewards : Text → List Text → Fetch AttestationRewardsData) (epoch v n : ℕ)
    (indices : List ℕ)
    → IfMap
        (λ (d : AttesterDuty). d.validator_index)
        v
        (λ (resp : AttesterDutiesResponse). resp.duties)
        (get_attester_duties post_duties epoch indices n)
        (get_attester_duties_map post_duties epoch indices n)
      × IfMap
          (λ (a : AttestationReward). a.validator_index)
          v
          (λ (resp : AttestationRewardsData). resp.total_rewards)
          (get_attestation_rewards post_rewards epoch indices n)
          (get_attestation_rewards_map post_rewards epoch indices n)
unfolding get_attester_duties_map get_attestation_rewards_map
duties_maps-LastOf post_duties post_rewards epoch v n indices = (
  built _ v _ (get_attester_duties post_duties epoch indices n),
  built _ v _ (get_attestation_rewards post_rewards epoch indices n),
)
