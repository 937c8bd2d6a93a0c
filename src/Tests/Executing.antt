-- ===== src/Tests/Executing.antt =====
-- The theorems on the execution client, at concrete inputs.
use pauli.Common.{◌≡◌, true, none, some, [], arith}
use pauli.Common.Int.{pos}
use pauli.Text.{text, format_uint}
use pauli.Exec.{ok}
use pauli.Execution.Hex.{format_hex, hex_to_big_int}
use pauli.Execution.Hex.Printed.{hex_to_big_int-format_hex}
use pauli.Execution.Client.{Node, Client}

hex_to_big_int-format_hex_example : hex_to_big_int (format_hex 4040) ≡ ok (pos 4040)
hex_to_big_int-format_hex_example = hex_to_big_int-format_hex 4040 (omega arith)

-- A node that is always out of service.
abbrev busy : Node
busy = record {
  send = λ request n. ok (record { status = 503; body = some (text "busy") });
  wait = λ n. true;
  decode_response = λ s. ok (record { result = s; error = none });
  decode_header = λ s. ok none;
  decode_receipts = λ s. ok [];
  decimal_string = format_uint;
}

abbrev client : Client
client = record {
  url = text "http://localhost:8545";
  api_key = [];
  auth_mode = [];
  max_retries = pos 3;
}
