-- ===== src/Execution/Fees.antt =====
-- SumPriorityFeesWei against the sum of the receipts' tips.
use pauli.Common.{
  ℕ, ◌+◌, ◌*◌, suc, ◌≡◌, refl, sym, ◌∙◌, ap, Option, none, some, List, [], ◌∷◌, arith, All, ◌↔◌,
}
use pauli.Common.Int.{ℤ, pos, negsuc, ◌-ℤ◌, pos_part}
use pauli.Exec.{Result, ok}
use pauli.Execution.{
  ReceiptFeeFields, effective, base_or_zero, add_tip, add_receipt, proceed, sum_from,
  sum_priority_fees_wei,
}

-- A receipt with its gas and a price.
abbrev pub Complete : ReceiptFeeFields → Type 0
Complete r =
    ((gas : ℕ) × (r.gas_used ≡ some (pos gas))) × ((price : ℤ) × (effective r ≡ some price))

-- What a receipt pays above the base fee, by its own fields.
abbrev price_of : Option ℤ → ℤ
price_of none = pos 0
price_of (some p) = p

abbrev gas_of : Option ℤ → ℕ
gas_of none = 0
gas_of (some g) = pos_part g

abbrev pub tip_of : ℤ → ReceiptFeeFields → ℕ
tip_of base r = pos_part (price_of (effective r) -ℤ base) * gas_of r.gas_used

abbrev pub total_tips : ℤ → List ReceiptFeeFields → ℕ
total_tips base [] = 0
total_tips base (r ∷ rs) = tip_of base r + total_tips base rs

sum_from-total :
    (base : ℤ) (i out : ℕ) (rs : List ReceiptFeeFields)
    → All Complete rs
    → sum_from base i out rs ≡ ok (out + total_tips base rs)
unfolding sum_from
sum_from-total base i out [] h = ap ok (omega arith)
sum_from-total base i out (r ∷ rs) (((gas, g), (price, p)), h) =
    rw (g, p)
      (sum_from-total base (suc i) (out + pos_part (price -ℤ base) * gas) rs h
        ∙ ap ok (omega arith))

-- A sum means that each receipt is complete.
sum_from-Complete :
    (base : ℤ) (i out n : ℕ) (rs : List ReceiptFeeFields)
    → sum_from base i out rs ≡ ok n
    → All Complete rs
unfolding sum_from
sum_from-Complete base i out n [] h = tt
sum_from-Complete base i out n (r ∷ rs) h =
    gas_known r.gas_used refl (λ out'. sum_from-Complete base (suc i) out' n rs) h
  where
    rest : ℕ → Result ℕ
    rest out' = sum_from base (suc i) out' rs

    price_known :
        (gas : ℕ) (o : Option ℤ)
        → r.gas_used ≡ some (pos gas)
        → effective r ≡ o
        → ((out' : ℕ) → rest out' ≡ ok n → All Complete rs)
        → proceed (add_tip base out o gas i) rest ≡ ok n
        → Complete r × All Complete rs
    price_known gas none g p ih e = absurd cc
    price_known gas (some price) g p ih e =
        (((gas, g), (price, p)), ih (out + pos_part (price -ℤ base) * gas) e)

    gas_known :
        (o : Option ℤ)
        → r.gas_used ≡ o
        → ((out' : ℕ) → rest out' ≡ ok n → All Complete rs)
        → proceed (add_receipt base out r o i) rest ≡ ok n
        → Complete r × All Complete rs
    gas_known none g ih e = absurd cc
    gas_known (some (negsuc k)) g ih e = absurd cc
    gas_known (some (pos gas)) g ih e = price_known gas (effective r) g refl ih e

-- SumPriorityFeesWei returns a sum exactly if every receipt has its gas and a price, and then it is
-- the sum of gas times what the price is above the base fee, which is 0 if it is not given.
pub sum_priority_fees_wei-total :
    (base : Option ℤ) (rs : List ReceiptFeeFields) (n : ℕ)
    → (sum_priority_fees_wei base rs ≡ ok n)
      ↔ (All Complete rs × (total_tips (base_or_zero base) rs ≡ n))
unfolding sum_priority_fees_wei
sum_priority_fees_wei-total base rs n = (
  (λ e.
      let complete = sum_from-Complete (base_or_zero base) 0 0 n rs e in
      let same : 0 + total_tips (base_or_zero base) rs ≡ n =
        cc (sym (sum_from-total (base_or_zero base) 0 0 rs complete) ∙ e) in
      (complete, omega arith)),
  λ (complete, total).
      sum_from-total (base_or_zero base) 0 0 rs complete ∙ ap ok (omega (arith, total)),
)
