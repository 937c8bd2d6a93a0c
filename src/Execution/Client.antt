-- ===== src/Execution/Client.antt =====
-- internal/execution/client.go: JSON-RPC calls with authorization and retries, and the priority fees
-- of a block. JSON and the network are given.
pub mod Totals
use pauli.Common.{
  ℕ, zero, suc, ◌+◌, Bool, true, false, ◌||◌, Option, none, some, List, [], ◌∷◌, ◌++◌, leb, ◌==◌,
  if◌then◌else◌, map,
}
use pauli.Common.Int.{ℤ, pos, negsuc}
use pauli.Text.{Text, text, text_eq, is_empty, format_uint}
use pauli.Text.Cut.{trim_space}
use pauli.Exec.{
  Error, retryable, wrap, plain, Result, ok, err, annotated, and_then, raise, lift, ◌>>=◌,
}
use pauli.Config.{Config}
use pauli.Beacon.{Fetch}
use pauli.Beacon.Transport.{Reply, should_retry}
use pauli.Execution.{ReceiptFeeFields, sum_priority_fees_wei}
use pauli.Execution.Hex.{format_hex, hex_to_big_int}

pub record RpcResponse : Type 0 where
  pub result : Text
  pub error : Option (ℤ × Text)

-- receiptJSON
pub record ReceiptJson : Type 0 where
  pub gas_used : Text
  pub effective_gas_price : Text
  pub gas_price : Text

-- A request: the method, its parameters, and the header that applyAuth sets.
pub record Request : Type 0 where
  pub method : Text
  pub params : List Text
  pub auth : Option (Text × Text)

-- The node and the libraries: what a request meets, by the number of requests sent so far, whether
-- the backoff's wait completes, json.Unmarshal, and the decimal text of a big number.
pub record Node : Type 0 where
  pub send : Request → ℕ → Result Reply
  pub wait : ℕ → Bool
  pub decode_response : Text → Result RpcResponse
  pub decode_header : Text → Result (Option Text)
  pub decode_receipts : Text → Result (List ReceiptJson)
  pub decimal_string : ℕ → Text

pub record Client : Type 0 where
  pub url : Text
  pub api_key : Text
  pub auth_mode : Text
  pub max_retries : ℤ

unfoldable pub new_client : {F : Type 0} → Config F → Option Client
new_client cfg =
    let url = trim_space cfg.execution_node_url in
    if is_empty url
    then none
    else some (record {
      url = url;
      api_key = trim_space cfg.execution_api_key;
      auth_mode = trim_space cfg.execution_auth_header;
      max_retries = cfg.http.max_retries;
    })

abbrev lower : ℕ → ℕ
lower c = if leb b'A' c then (if leb c b'Z' then c + 32 else c) else c

abbrev underscore : ℕ → ℕ
underscore c = if c == b'-' then b'_' else c

abbrev pub mode_of : Text → Text
mode_of s = map (λ c. lower (underscore c)) (trim_space s)

-- The header that applyAuth sets, if any.
unfoldable pub apply_auth : Client → Option (Text × Text)
apply_auth c =
    let mode = mode_of c.auth_mode in
    let bearer = some (text "Authorization", text "Bearer " ++ c.api_key) in
    if text_eq mode (text "none")
      || (text_eq mode (text "off")
          || (text_eq mode (text "false") || text_eq mode (text "disabled")))
    then none
    else (if is_empty c.api_key
        then none
        else (if text_eq mode (text "x_api_key")
            then some (text "x-api-key", c.api_key)
            else (if text_eq mode (text "authorization") || text_eq mode (text "raw")
                then some (text "Authorization", c.api_key)
                else (if text_eq mode (text "token")
                    then some (text "Token", c.api_key)
                    else bearer))))

module _ (node : Node) (c : Client) (method : Text) (params : List Text) where
  abbrev pub request : Request
  request = record { method = method; params = params; auth = apply_auth c }

  -- A status other than 200.
  abbrev http_failure : ℕ → Text → Error
  http_failure status b =
      let msg = trim_space b in
      if status == 401
      then plain (
          text "execution rpc http 401: "
          ++ (msg
              ++ (if is_empty c.api_key
                  then text " (missing or disabled auth)"
                  else text " (check execution_api_key and execution_auth_header)")))
      else plain (text "execution rpc http " ++ (format_uint status ++ (text ": " ++ msg)))

  abbrev pub rpc_result : RpcResponse → Result Text
  rpc_result r = elim r.error [
    | none ↦ ok r.result
    | some e ↦ err (plain (text "rpc error: " ++ e.1))
  ]

  abbrev pub read_reply : ℕ → Text → Result Text
  read_reply status b =
      if status == 200
      then and_then (annotated (text "decode rpc response") (node.decode_response b)) rpc_result
      else err (http_failure status b)

  -- `left` attempts may follow this one; a wait that is cut short ends with the last error.
  abbrev pub or_retry : ℕ → Error → Fetch Text → Fetch Text
  or_retry zero last retry n = (err last, n)
  or_retry (suc left) last retry n = if node.wait n then retry n else (err last, n)

  abbrev pub with_body : ℕ → ℕ → Option Text → Fetch Text → Fetch Text
  with_body left status none retry = or_retry left (plain (text "read body")) retry
  with_body left status (some b) retry =
      if should_retry status
      then or_retry left (retryable status b) retry
      else (λ n. (read_reply status b, n))

  abbrev pub handle : ℕ → Fetch Text → Result Reply → Fetch Text
  handle left retry (err e) = or_retry left e retry
  handle left retry (ok reply) = with_body left reply.status reply.body retry

  abbrev pub try_once : ℕ → Fetch Text → Fetch Text
  try_once left retry n = handle left retry (node.send request n) (suc n)

  unfoldable pub call_attempts : ℕ → Fetch Text
  call_attempts zero = try_once zero (λ n. (ok [], n))
  call_attempts (suc left) = try_once (suc left) (call_attempts left)

  -- The loop makes no attempt where maxRetries is negative, and returns a nil error then.
  abbrev pub call_up_to : ℤ → Fetch Text
  call_up_to (pos retries) = call_attempts retries
  call_up_to (negsuc k) = λ n. (ok [], n)

  unfoldable pub call : Fetch Text
  call = call_up_to c.max_retries

abbrev pub is_null : Text → Bool
is_null s = is_empty s || text_eq s (text "null")

-- A result that is empty or null is an error.
abbrev pub present : Text → Text → Text → Result Text
present method block s =
    if is_null s then err (plain (method ++ (text ": empty result for " ++ block))) else ok s

abbrev pub hex_if_given : Text → Text → Result (Option ℤ)
hex_if_given context s =
    if is_empty s
    then ok none
    else and_then (annotated context (hex_to_big_int s)) (λ n. ok (some n))

-- A missing or empty base fee is 0.
abbrev pub base_fee_of : Option Text → Result ℤ
base_fee_of none = ok (pos 0)
base_fee_of (some s) =
    if is_empty s then ok (pos 0) else annotated (text "baseFeePerGas") (hex_to_big_int s)

abbrev pub at_receipt : ℕ → Text → Text
at_receipt i field = text "receipt " ++ (format_uint i ++ field)

unfoldable pub fields_from : ℕ → List ReceiptJson → Result (List ReceiptFeeFields)
fields_from i [] = ok []
fields_from i (r ∷ rs) =
    and_then (annotated (at_receipt i (text " gasUsed")) (hex_to_big_int r.gas_used)) (λ gas.
      and_then (hex_if_given (at_receipt i (text " effectiveGasPrice")) r.effective_gas_price)
        (λ eff. and_then (hex_if_given (at_receipt i (text " gasPrice")) r.gas_price) (λ price.
          and_then (fields_from (suc i) rs) (λ fields. ok (
            record { gas_used = some gas; effective_gas_price = eff; gas_price = price }
            ∷ fields)))))

unfoldable pub priority_fees_wei_decimal_string : Node → Option Client → ℕ → Fetch Text
priority_fees_wei_decimal_string node none block_number =
    raise (plain (text "nil execution client"))
priority_fees_wei_decimal_string node (some c) block_number =
    let block = format_hex block_number in
    call node c (text "eth_getBlockByNumber") (block ∷ text "false" ∷ []) >>= λ raw_block.
    lift (
      and_then (present (text "eth_getBlockByNumber") block raw_block)
        (λ s. and_then (annotated (text "parse block header") (node.decode_header s)) base_fee_of))
    >>= λ base_fee. call node c (text "eth_getBlockReceipts") (block ∷ []) >>= λ raw_receipts.
        lift (
          and_then (present (text "eth_getBlockReceipts") block raw_receipts) (λ s.
            and_then (annotated (text "parse receipts") (node.decode_receipts s)) (λ receipts.
              and_then (fields_from 0 receipts) (λ fields.
                and_then (sum_priority_fees_wei (some base_fee) fields)
                  (λ sum. ok (node.decimal_string sum))))))
