-- ===== src/Modbus/Client.antt =====
-- src/hedp/adapters/fusionsolar/modbus_tcp.py: the read-only client. The resolver and its
-- classification of addresses, and what the connection does, are the `Network`; a float of seconds is
-- a fraction. A call returns the client with its next transaction ID also when it raises.
pub mod Answer
pub mod Safety
pub mod Accepts
pub mod Words
use Prim.Native.Nat.{bit_or}
use Prim.Native.String.{String}
use hedp.Prelude.{
  ℕ, zero, suc, ◌+◌, ◌-◌, ◌*◌, ◌%◌, Bool, true, false, not, ◌&&◌, ◌||◌, Option, none, some, List,
  [], ◌∷◌, ◌++◌, ltb, leb, ◌==◌, if◌then◌else◌, length, get_or, slice, drop, any, Result, ok, err,
  raise_if, ◌>>=◌, ◌>>◌,
}
use hedp.Prelude.Bytes.{Bytes, to_bytes, from_bytes}
use hedp.Prelude.Int.{ℤ, pos, pos_part, ◌+ℤ◌, ltb_ℤ, leb_ℤ}
use hedp.Modbus.Socket.{Arrival, SocketError, os_error, closed_early, receive_exact}

-- One constructor for each message.
pub data ModbusError : Type 0 where
  bad_port bad_unit bad_timeout bad_function bad_start bad_count bad_range : ModbusError
  name_unresolved not_private unavailable closed bad_length : ModbusError
  transaction_differs protocol_differs unit_differs empty_response device_exception : ModbusError
  function_differs truncated count_differs : ModbusError

pub record ModbusReadResult : Type 0 where
  pub function_code : ℕ
  pub start_address : ℕ
  pub registers : List ℕ

pub record Seconds : Type 0 where
  pub numerator : ℤ
  pub denominator : ℕ

pub record Client : Type 0 where
  pub host : String
  pub port : ℕ
  pub unit_id : ℕ
  pub timeout_seconds : Seconds
  pub transaction_id : ℕ

-- `__init__`
unfoldable pub make_client : String → ℤ → ℤ → Seconds → Result ModbusError Client
make_client host port unit_id timeout = do
  raise_if (not (leb_ℤ (pos 1) port && leb_ℤ port (pos 65_535))) bad_port
  raise_if (not (leb_ℤ (pos 0) unit_id && leb_ℤ unit_id (pos 255))) bad_unit
  raise_if
      (not (
        ltb_ℤ (pos 0) timeout.numerator
        && leb_ℤ timeout.numerator (pos (30 * timeout.denominator))))
      bad_timeout
  ok (record {
    host = host;
    port = pos_part port;
    unit_id = pos_part unit_id;
    timeout_seconds = timeout;
    transaction_id = 0;
  })

pub record Address : Type 0 where
  pub text : String
  pub is_private : Bool
  pub is_link_local : Bool

-- `resolve` is none for an `OSError` of `getaddrinfo`, and `connect` for one of the connection factory
-- or of `sendall`; else it is what the peer sends after the request.
pub record Network : Type 0 where
  pub resolve : String → ℕ → Option (List Address)
  pub connect : String → ℕ → Bytes → Option (List Arrival)

abbrev pub is_local : Address → Bool
is_local a = a.is_private || a.is_link_local

unfoldable pub require_private_target : Network → Client → Result ModbusError (Unit {0})
require_private_target network client = elim (network.resolve client.host client.port) [
  | none ↦ err name_unresolved
  | some addresses ↦ do
    raise_if (length addresses == 0) name_unresolved
    raise_if (any (λ a. not (is_local a)) addresses) not_private
]

-- The tests of `_read_registers` on its arguments.
unfoldable pub check_request : ℕ → ℤ → ℤ → Result ModbusError (Unit {0})
check_request function_code start_address count = do
  raise_if (not (function_code == 3 || function_code == 4)) bad_function
  raise_if (not (leb_ℤ (pos 0) start_address && leb_ℤ start_address (pos 65_535))) bad_start
  raise_if (not (leb_ℤ (pos 1) count && leb_ℤ count (pos 125))) bad_count
  raise_if (ltb_ℤ (pos 65_536) (start_address +ℤ count)) bad_range

abbrev pub advance : Client → Client
advance client = record {
  host = client.host;
  port = client.port;
  unit_id = client.unit_id;
  timeout_seconds = client.timeout_seconds;
  transaction_id = client.transaction_id % 65_535 + 1;
}

abbrev pub request_pdu : ℕ → ℕ → ℕ → Bytes
request_pdu function_code start_address count =
    function_code ∷ (to_bytes 2 start_address ++ to_bytes 2 count)

-- `struct.pack(">HHHB", ...)`
abbrev pub header_bytes : ℕ → ℕ → ℕ → Bytes
header_bytes transaction_id size unit_id =
    to_bytes 2 transaction_id ++ (to_bytes 2 0 ++ (to_bytes 2 size ++ unit_id ∷ []))

abbrev pub request_bytes : Client → ℕ → ℕ → ℕ → Bytes
request_bytes client function_code start_address count =
    let pdu = request_pdu function_code start_address count in
    header_bytes client.transaction_id (length pdu + 1) client.unit_id ++ pdu

-- `struct.unpack(f">{count}H", ...)` of 2 * count bytes
abbrev pub words : Bytes → List ℕ
words (high ∷ low ∷ rest) = (high * 256 + low) ∷ words rest
words _ = []

-- An `OSError` or `TimeoutError` of the connection is raised again as unavailable.
abbrev pub received {ℓ} : {A : Type ℓ} → Result SocketError A → Result ModbusError A
received (ok a) = ok a
received (err os_error) = err unavailable
received (err closed_early) = err closed

unfoldable pub receive_response : List Arrival → Result ModbusError (Bytes × Bytes)
receive_response arrivals = do
  (header, rest) ← received (receive_exact arrivals 7)
  let size = from_bytes (slice header 4 6)
  raise_if (not (leb 2 size && leb size 254)) bad_length
  (pdu, _) ← received (receive_exact rest (size - 1))
  ok (header, pdu)

-- The tests of `_read_registers` on the response.
unfoldable pub check_response :
    Client → ℕ → ℕ → ℕ → Bytes → Bytes → Result ModbusError ModbusReadResult
check_response client function_code start_address count header pdu = do
  raise_if (not (from_bytes (slice header 0 2) == client.transaction_id)) transaction_differs
  raise_if (not (from_bytes (slice header 2 4) == 0)) protocol_differs
  raise_if (not (get_or header 6 0 == client.unit_id)) unit_differs
  raise_if (length pdu == 0) empty_response
  raise_if (get_or pdu 0 0 == bit_or function_code 0x80) device_exception
  raise_if (not (get_or pdu 0 0 == function_code)) function_differs
  raise_if (ltb (length pdu) 2) truncated
  let byte_count = get_or pdu 1 0
  raise_if (not (byte_count == count * 2) || not (length pdu == byte_count + 2)) count_differs
  ok (record {
    function_code = function_code;
    start_address = start_address;
    registers = words (drop 2 pdu);
  })

-- What a call returns or raises, the client after it, and the requests it has sent.
pub record Outcome : Type 0 where
  pub result : Result ModbusError ModbusReadResult
  pub client : Client
  pub sent : List Bytes

abbrev pub raised : ModbusError → Client → Outcome
raised e client = record { result = err e; client = client; sent = [] }

-- The exchange on the connection, for the client with the transaction ID of the request. Where the
-- connection or the send fails, nothing counts as sent, though a part of the request may have been.
unfoldable pub exchange : Network → Client → ℕ → ℕ → ℕ → Outcome
exchange network client function_code start_address count =
    let request = request_bytes client function_code start_address count in
    elim (network.connect client.host client.port request) [
      | none ↦ raised unavailable client
      | some arrivals ↦ record {
        result = receive_response arrivals >>= λ (header, pdu).
            check_response client function_code start_address count header pdu;
        client = client;
        sent = request ∷ [];
      }
    ]

-- `_read_registers`
unfoldable pub read_registers : Network → Client → ℕ → ℤ → ℤ → Outcome
read_registers network client function_code start_address count =
    elim (check_request function_code start_address count) [
      | err e ↦ raised e client
      | ok _ ↦ elim (require_private_target network client) [
        | err e ↦ raised e client
        | ok _ ↦
            exchange network (advance client) function_code (pos_part start_address)
              (pos_part count)
      ]
    ]

unfoldable pub read_holding_registers : Network → Client → ℤ → ℤ → Outcome
unfolding read_registers
read_holding_registers network client = read_registers network client 3

unfoldable pub read_input_registers : Network → Client → ℤ → ℤ → Outcome
unfolding read_registers
read_input_registers network client = read_registers network client 4
