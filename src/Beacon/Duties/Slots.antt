-- ===== src/Beacon/Duties/Slots.antt =====
-- internal/beacon/duties.go: the slots of an epoch.
use pauli.Common.{ℕ, ◌≤◌, ◌<◌, ◌^◌, ◌≡◌, ◌↔◌, true, arith}
use pauli.Beacon.Duties.{slot_to_epoch, epoch_start_slot, epoch_end_slot, is_epoch_boundary}

-- The slot lies between the first and the last slot of its epoch.
abbrev pub InEpoch : ℕ → ℕ → Type 0
InEpoch slot epoch = (epoch_start_slot epoch ≤ slot) × (slot ≤ epoch_end_slot epoch)

-- A uint64 slot lies within one epoch only, its own, also at the top of the range, where the end of
-- the epoch wraps around; and it is a boundary exactly if it is the first slot of its epoch.
pub slot_to_epoch-InEpoch :
    (slot epoch : ℕ)
    → slot < 2 ^ 64
    → epoch < 2 ^ 59
    → (InEpoch slot epoch ↔ (epoch ≡ slot_to_epoch slot))
      × ((is_epoch_boundary slot ≡ true) ↔ (slot ≡ epoch_start_slot (slot_to_epoch slot)))
unfolding slot_to_epoch epoch_start_slot epoch_end_slot is_epoch_boundary
slot_to_epoch-InEpoch slot epoch bound limit = (
  ((λ h. omega (arith, h.0, h.1)), (λ e. (omega (arith, e), omega (arith, e)))),
  ((λ h. ground arith), (λ h. ground arith)),
)
