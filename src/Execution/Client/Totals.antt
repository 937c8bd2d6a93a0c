-- ===== src/Execution/Client/Totals.antt =====
-- How often PriorityFeesWeiDecimalString sends, and what it returns.
use pauli.Common.{
  ℕ, zero, suc, ◌+◌, ◌*◌, ◌≤◌, ◌≡◌, refl, sym, subst, ◌∙◌, false, Option, none, some, List, [], ◌∷◌,
  All, arith, Bool-cases, inl, inr,
}
use pauli.Common.Int.{ℤ, pos}
use pauli.Text.{Text, text}
use pauli.Exec.{Error, Result, ok, err, lift, continue, bind-ok, ◌>>=◌}
use pauli.Beacon.{Fetch}
use pauli.Beacon.Transport.{Reply, should_retry}
use pauli.Execution.{ReceiptFeeFields}
use pauli.Execution.Fees.{Complete, total_tips, sum_priority_fees_wei-total}
use pauli.Execution.Hex.{format_hex}
use pauli.Execution.Client.{
  Node, Client, ReceiptJson, or_retry, with_body, handle, call_attempts, call_up_to, call, is_null,
  base_fee_of, fields_from, priority_fees_wei_decimal_string,
}

module _ (node : Node) (c : Client) (method : Text) (params : List Text) where
  abbrev AtMost : ℕ → ℕ → Result Text × ℕ → Type 0
  AtMost n most x = x.1 ≤ n + most

  or_retry-AtMost :
      (left n : ℕ) (last : Error) (retry : Fetch Text)
      → ((m : ℕ) → AtMost m left (retry m))
      → AtMost n (suc left) (or_retry node c method params left last retry (suc n))
  or_retry-AtMost zero n last retry h = omega arith
  or_retry-AtMost (suc left) n last retry h = elim (Bool-cases (node.wait (suc n))) [
    | inl waited ↦ rw waited (omega (arith, h (suc n)))
    | inr cut ↦ rw cut (omega arith)
  ]

  handle-AtMost :
      (left n : ℕ) (retry : Fetch Text) (x : Result Reply)
      → ((m : ℕ) → AtMost m left (retry m))
      → AtMost n (suc left) (handle node c method params left retry x (suc n))
  handle-AtMost left n retry (err e) h = or_retry-AtMost left n e retry h
  handle-AtMost left n retry (ok reply) h = body reply.status reply.body
    where
      body :
          (status : ℕ) (o : Option Text)
          → AtMost n (suc left) (with_body node c method params left status o retry (suc n))
      body status none = or_retry-AtMost left n _ retry h
      body status (some b) = elim (Bool-cases (should_retry status)) [
        | inl again ↦ rw again (or_retry-AtMost left n _ retry h)
        | inr final ↦ rw final (omega arith)
      ]

  call_attempts-AtMost :
      (left n : ℕ) → AtMost n (suc left) (call_attempts node c method params left n)
  unfolding call_attempts
  call_attempts-AtMost zero n = handle-AtMost zero n _ _ (λ m. omega arith)
  call_attempts-AtMost (suc left) n = handle-AtMost (suc left) n _ _ (call_attempts-AtMost left)

  pub call-AtMost :
      (retries n : ℕ)
      → c.max_retries ≡ pos retries
      → (call node c method params n).1 ≤ n + suc retries
  unfolding call
  call-AtMost retries n e =
      subst (λ m. (call_up_to node c method params m n).1 ≤ n + suc retries) (sym e)
        (call_attempts-AtMost retries n)

-- A call that sends at most so many requests.
record Sends {A : Type 0} (most : ℕ) (m : Fetch A) : Type 0 where
  sent : (n : ℕ) → (m n).1 ≤ n + most

module _ {A B : Type 0} where
  continue-Sends :
      (most : ℕ) (x : Result A) (f : A → Fetch B) (n : ℕ)
      → ((a : A) → Sends most (f a))
      → (continue x f n).1 ≤ n + most
  continue-Sends most (ok a) f n h = (h a).sent n
  continue-Sends most (err e) f n h = omega arith

  Sends-bind :
      (a b : ℕ) (m : Fetch A) (f : A → Fetch B)
      → Sends a m
      → ((x : A) → Sends b (f x))
      → Sends (a + b) (m >>= f)
  Sends-bind a b m f h k = record {
    sent = λ n. omega (arith, h.sent n, continue-Sends b (m n).0 f (m n).1 k);
  }

Sends-lift : {A : Type 0} (x : Result A) → Sends 0 (lift x)
Sends-lift x = record { sent = λ n. omega arith }

Sends-call :
    (node : Node) (c : Client) (method : Text) (params : List Text) (retries : ℕ)
    → c.max_retries ≡ pos retries
    → Sends (suc retries) (call node c method params)
Sends-call node c method params retries e = record {
  sent = λ n. call-AtMost node c method params retries n e;
}

-- With maxRetries retries allowed, at most twice maxRetries + 1 requests are sent for the fees of a
-- block, whatever the node answers.
pub priority_fees-AtMost :
    (node : Node) (c : Client) (retries block n : ℕ)
    → c.max_retries ≡ pos retries
    → (priority_fees_wei_decimal_string node (some c) block n).1 ≤ n + 2 * (retries + 1)
unfolding priority_fees_wei_decimal_string
priority_fees-AtMost node c retries block n e =
    let all : Sends (suc retries + (0 + (suc retries + 0)))
        (priority_fees_wei_decimal_string node (some c) block) =
      Sends-bind (suc retries) (0 + (suc retries + 0)) (call node c _ _) _
        (Sends-call node c _ _ retries e)
        (λ raw. Sends-bind 0 (suc retries + 0) (lift _) _ (Sends-lift _) (λ base.
          Sends-bind (suc retries) 0 (call node c _ _) _ (Sends-call node c _ _ retries e)
            (λ receipts. Sends-lift _))) in
    omega (arith, all.sent n)

-- If both calls succeed, the header and the receipts are read, and every receipt has its gas and a
-- price, then the fees are the decimal text of the sum of the receipts' tips above the base fee.
pub priority_fees-total :
    (node : Node) (c : Client) (block n n1 n2 : ℕ) (raw_block raw_receipts : Text)
    (base_fee : Option Text) (base : ℤ) (receipts : List ReceiptJson)
    (fields : List ReceiptFeeFields)
    → call node c (text "eth_getBlockByNumber") (format_hex block ∷ text "false" ∷ []) n
      ≡ (ok raw_block, n1)
    → is_null raw_block ≡ false
    → node.decode_header raw_block ≡ ok base_fee
    → base_fee_of base_fee ≡ ok base
    → call node c (text "eth_getBlockReceipts") (format_hex block ∷ []) n1 ≡ (ok raw_receipts, n2)
    → is_null raw_receipts ≡ false
    → node.decode_receipts raw_receipts ≡ ok receipts
    → fields_from 0 receipts ≡ ok fields
    → All Complete fields
    → priority_fees_wei_decimal_string node (some c) block n
      ≡ (ok (node.decimal_string (total_tips base fields)), n2)
unfolding priority_fees_wei_decimal_string
priority_fees-total node c block n n1 n2 raw_block raw_receipts base_fee base receipts fields c1 p1
      d1 b c2 p2 d2 f complete =
    bind-ok (call node c _ _) _ raw_block n1 n c1
    ∙ rw p1 (
        rw d1 (
          rw b (
            bind-ok (call node c _ _) _ raw_receipts n2 n1 c2
            ∙ rw p2 (
                rw d2 (
                  rw f (
                    rw
                      ((sum_priority_fees_wei-total (some base) fields (total_tips base fields)).1
                        (complete, refl))
                      refl))))))
