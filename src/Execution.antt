-- ===== src/Execution.antt =====
-- internal/execution/priority_fees.go: the sum of the priority fees of a block's receipts.
pub mod Fees
pub mod Hex
pub mod Client
use pauli.Common.{
  ℕ, ◌+◌, ◌*◌, suc, zero, Bool, true, false, Option, none, some, List, [], ◌∷◌, ◌++◌, if◌then◌else◌,
  ◌∷◌,
}
use pauli.Common.Int.{ℤ, pos, negsuc, ◌-ℤ◌, pos_part}
use pauli.Text.{Text, text, format_uint}
use pauli.Exec.{plain, Result, ok, err}

-- ReceiptFeeFields; a big.Int is an integer, and `none` is nil.
pub record ReceiptFeeFields : Type 0 where
  pub gas_used : Option ℤ
  pub effective_gas_price : Option ℤ
  pub gas_price : Option ℤ

abbrev pub effective : ReceiptFeeFields → Option ℤ
effective r = elim r.effective_gas_price [ some p ↦ some p | none ↦ r.gas_price ]

abbrev pub base_or_zero : Option ℤ → ℤ
base_or_zero none = pos 0
base_or_zero (some b) = b

-- max(0, price - base) * gas
abbrev tx_tip : ℤ → ℤ → ℕ → ℕ
tx_tip base price gas = pos_part (price -ℤ base) * gas

abbrev at_receipt : ℕ → Text → Result ℕ
at_receipt i message = err (plain (text "receipt " ++ (format_uint i ++ message)))

abbrev add_tip : ℤ → ℕ → Option ℤ → ℕ → ℕ → Result ℕ
add_tip base out none gas i = at_receipt i (text ": missing effectiveGasPrice and gasPrice")
add_tip base out (some price) gas i = ok (out + tx_tip base price gas)

abbrev add_receipt : ℤ → ℕ → ReceiptFeeFields → Option ℤ → ℕ → Result ℕ
add_receipt base out r none i = at_receipt i (text ": invalid gasUsed")
add_receipt base out r (some (negsuc n)) i = at_receipt i (text ": invalid gasUsed")
add_receipt base out r (some (pos gas)) i = add_tip base out (effective r) gas i

abbrev proceed : Result ℕ → (ℕ → Result ℕ) → Result ℕ
proceed (ok out) rest = rest out
proceed (err e) rest = err e

-- The loop, from receipt `i` on with the sum so far.
unfoldable pub sum_from : ℤ → ℕ → ℕ → List ReceiptFeeFields → Result ℕ
sum_from base i out [] = ok out
sum_from base i out (r ∷ rs) =
    proceed (add_receipt base out r r.gas_used i) (λ out'. sum_from base (suc i) out' rs)

unfoldable pub sum_priority_fees_wei : Option ℤ → List ReceiptFeeFields → Result ℕ
sum_priority_fees_wei base receipts = sum_from (base_or_zero base) 0 0 receipts
