-- ===== src/Beacon/Validators.antt =====
-- internal/beacon/validators.go: validators by their indices, in requests of bounded length.
use pauli.Common.{ℕ, zero, suc, ◌+◌, List, [], ◌∷◌, ◌++◌, length, take, drop, min}
use pauli.Text.{Text, text, format_uint}
use pauli.Exec.{pure, annotate, ◌>>=◌}
use pauli.Beacon.{Fetch, Validator}

abbrev pub max_validator_ids_per_get_validators : ℕ
max_validator_ids_per_get_validators = 100

-- The ids behind the first one.
abbrev more_ids : List ℕ → Text
more_ids [] = text ""
more_ids (id ∷ ids) = text "," ++ (format_uint id ++ more_ids ids)

abbrev id_query : List ℕ → Text
id_query [] = text ""
id_query (id ∷ ids) = text "?id=" ++ (format_uint id ++ more_ids ids)

-- The GET request is given with the decoding of the response.
module _ (get : Text → Fetch (List Validator)) where
  unfoldable pub get_validators : Text → List ℕ → Fetch (List Validator)
  get_validators state_id ids =
      annotate (text "failed to get validators")
        (get (text "/eth/v1/beacon/states/" ++ (state_id ++ (text "/validators" ++ id_query ids))))

  unfoldable pub get_validators_all_at_slot : ℕ → Fetch (List Validator)
  get_validators_all_at_slot slot = get_validators (format_uint slot) []

  abbrev chunk_context : ℕ → ℕ → List ℕ → Text
  chunk_context slot i ids =
      text "validators at slot "
      ++ (format_uint slot
          ++ (text " (chunk "
              ++ (format_uint i
                  ++ (text "-"
                      ++ (format_uint (i + min max_validator_ids_per_get_validators (length ids))
                          ++ text ")")))))

  -- The loop, from the index `i` on with the ids that are left; `fuel` bounds its rounds.
  unfoldable pub get_chunks : ℕ → ℕ → ℕ → List ℕ → Fetch (List Validator)
  get_chunks fuel slot i [] = pure []
  get_chunks zero slot i (id ∷ ids) = pure []
  get_chunks (suc fuel) slot i (id ∷ ids) =
      annotate (chunk_context slot i (id ∷ ids))
        (get_validators (format_uint slot) (take max_validator_ids_per_get_validators (id ∷ ids)))
      >>= λ part.
          get_chunks fuel slot (i + max_validator_ids_per_get_validators)
            (drop max_validator_ids_per_get_validators (id ∷ ids))
          >>= λ rest. pure (part ++ rest)

  unfoldable pub get_validators_at_slot : ℕ → List ℕ → Fetch (List Validator)
  get_validators_at_slot slot ids = get_chunks (length ids) slot 0 ids
