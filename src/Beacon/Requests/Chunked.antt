-- ===== src/Beacon/Requests/Chunked.antt =====
-- internal/beacon/client.go and validators.go: how often the chunked requests of GetValidatorsAtSlot
-- send.
use pauli.Common.{
  ℕ, zero, suc, ◌+◌, ◌*◌, ◌≤◌, ◌≡◌, List, [], ◌∷◌, ◌++◌, length, length-drop, drop, arith, none,
  Option,
}
use pauli.Text.{Text}
use pauli.Exec.{Result, ok, err, annotated, continue, pure}
use pauli.Beacon.{Fetch, Validator}
use pauli.Beacon.Transport.{Transport}
use pauli.Beacon.Transport.Attempts.{Bounded, do_request-Bounded}
use pauli.Beacon.Validators.{
  get_validators, get_chunks, get_validators_at_slot, max_validator_ids_per_get_validators,
}
use pauli.Beacon.Requests.{get}

-- The requests counted by a bounded call.
Bounded-count :
    {A : Type 0} (decode : Text → Result A) (path : Text) (t : Transport) (n most : ℕ)
    (x : Result A × ℕ)
    → Bounded decode path t n most x
    → x.1 ≤ n + most
Bounded-count decode path t n most (ok a, m) h = h.0
Bounded-count decode path t n most (err e, m) h = h

module _ (fetch : Text → Fetch (List Validator)) (most : ℕ)
    (bound : (path : Text) (n : ℕ) → (fetch path n).1 ≤ n + most) where
  joined :
      (part : List Validator) (n k : ℕ) (x : Result (List Validator) × ℕ)
      → x.1 ≤ n + k
      → (continue x.0 (λ rest. pure {S = ℕ} (part ++ rest)) x.1).1 ≤ n + k
  joined part n k (ok rest, m) h = h
  joined part n k (err e, m) h = h

  -- A call that answers, with the calls that follow it.
  then_more :
      (outer inner : Text) (n k : ℕ) (x : Result (List Validator) × ℕ)
      (f : List Validator → Fetch (List Validator))
      → x.1 ≤ n + most
      → ((part : List Validator) (m : ℕ) → (f part m).1 ≤ m + k)
      → (continue (annotated outer (annotated inner x.0)) f x.1).1 ≤ n + (most + k)
  then_more outer inner n k (ok part, m) f h later = omega (arith, h, later part m)
  then_more outer inner n k (err e, m) f h later = omega (arith, h)

  get_chunks-count :
      (fuel slot i rounds n : ℕ) (ids : List ℕ)
      → length ids ≤ rounds * max_validator_ids_per_get_validators
      → (get_chunks fetch fuel slot i ids n).1 ≤ n + rounds * most
  unfolding get_chunks get_validators
  get_chunks-count fuel slot i rounds n [] few = omega arith
  get_chunks-count zero slot i rounds n (id ∷ ids) few = omega arith
  get_chunks-count (suc fuel) slot i zero n (id ∷ ids) few = absurd (omega (arith, few))
  get_chunks-count (suc fuel) slot i (suc rounds) n (id ∷ ids) few =
      let total : n + suc rounds * most ≡ n + (most + rounds * most) = omega arith in
      rw total (
        then_more _ _ n (rounds * most) (fetch _ n) _ (bound _ n) (λ part m.
          joined part m (rounds * most) _ (
            get_chunks-count fuel slot (i + max_validator_ids_per_get_validators) rounds m
              (drop max_validator_ids_per_get_validators (id ∷ ids))
              (omega (arith, few, length-drop max_validator_ids_per_get_validators (id ∷ ids))))))

module _ (decode : Text → Result (List Validator)) (t : Option Text → Transport) where
  -- Over doRequest, GetValidatorsAtSlot of at most 100 * `rounds` indices sends at most `rounds`
  -- times maxRetries + 1 requests, whatever the limiter, the node and the context do.
  pub get_validators_at_slot-count :
      (max_retries slot rounds n : ℕ) (ids : List ℕ)
      → length ids ≤ rounds * max_validator_ids_per_get_validators
      → (get_validators_at_slot (get t decode max_retries) slot ids n).1
        ≤ n + rounds * suc max_retries
  unfolding get_validators_at_slot get
  get_validators_at_slot-count max_retries slot rounds n ids few =
      get_chunks-count (get t decode max_retries) (suc max_retries)
        (λ path m.
          Bounded-count decode path (t none) m (suc max_retries) _
            (do_request-Bounded decode path (t none) max_retries m))
        (length ids) slot 0 rounds n ids few
