-- ===== src/Tests/Fees.antt =====
-- The theorem on priority fees, at a concrete block.
use pauli.Common.{◌≡◌, some, none, List, [], ◌∷◌, ◌↔◌, All}
use pauli.Common.Int.{pos}
use pauli.Exec.{ok}
use pauli.Execution.{ReceiptFeeFields, sum_priority_fees_wei}
use pauli.Execution.Fees.{Complete, total_tips, sum_priority_fees_wei-total}

-- One receipt above the base fee, and one below it.
abbrev receipts : List ReceiptFeeFields
receipts =
    record { gas_used = some (pos 21000); effective_gas_price = some (pos 12); gas_price = none }
    ∷ record { gas_used = some (pos 50000); effective_gas_price = none; gas_price = some (pos 7) }
    ∷ []

sum_priority_fees_wei-total_example :
    (sum_priority_fees_wei (some (pos 10)) receipts ≡ ok 42000)
    ↔ (All Complete receipts × (total_tips (pos 10) receipts ≡ 42000))
sum_priority_fees_wei-total_example = sum_priority_fees_wei-total (some (pos 10)) receipts 42000
