-- ===== src/Modbus/Examples.antt =====
-- Runs of the Modbus client against a device that answers in three chunks, and its theorems there.
use hedp.Prelude.{
  ◌≤◌, ◌≡◌, inl, refl, true, false, some, List, [], ◌∷◌, ◌++◌, arith, length, All, ok, err,
}
use hedp.Prelude.Bytes.{Bytes}
use hedp.Prelude.Int.{pos, ◌+ℤ◌}
use hedp.Modbus.Socket.{Arrival, bytes, recv, receive_rounds, receive_exact, closed_early}
use hedp.Modbus.Socket.Receive.{joined, Some, arriving, receive_exact-arriving}
use hedp.Modbus.Client.{
  Client, Address, Network, ModbusReadResult, advance, request_bytes, check_request,
  require_private_target, receive_response, check_response, exchange, read_registers, bad_range,
}
use hedp.Modbus.Client.Answer.{read_registers-answered}
use hedp.Modbus.Client.Safety.{IsPermitted, read_registers-IsPermitted}
use hedp.Modbus.Client.Accepts.{Answers, read_registers-Answers}

abbrev inverter : Client
inverter = record {
  host = "inverter";
  port = 502;
  unit_id = 1;
  timeout_seconds = record { numerator = pos 3; denominator = 1 };
  transaction_id = 65_535;
}

abbrev home : Address
home = record { text = "192.168.0.9"; is_private = true; is_link_local = false }

abbrev chunks : List Bytes
chunks = (0 ∷ 1 ∷ 0 ∷ []) ∷ (0 ∷ 0 ∷ 7 ∷ 1 ∷ 3 ∷ 4 ∷ []) ∷ (1 ∷ 2 ∷ 0 ∷ 9 ∷ []) ∷ []

abbrev network : Network
network = record {
  resolve = λ host port. some (home ∷ []);
  connect = λ host port request. some (arriving chunks);
}

abbrev answer : ModbusReadResult
answer = record { function_code = 3; start_address = 37_000; registers = 258 ∷ 9 ∷ [] }

run-answer : (read_registers network inverter 3 (pos 37_000) (pos 2)).result ≡ ok answer
unfolding read_registers check_request require_private_target exchange receive_response
    receive_exact receive_rounds recv check_response ◌+ℤ◌
run-answer = refl

-- The transaction ID goes round from 65535 to 1.
run-client : (read_registers network inverter 3 (pos 37_000) (pos 2)).client.transaction_id ≡ 1
unfolding read_registers check_request require_private_target exchange ◌+ℤ◌
run-client = refl

run-out_of_space : (read_registers network inverter 3 (pos 65_535) (pos 2)).result ≡ err bad_range
unfolding read_registers check_request ◌+ℤ◌
run-out_of_space = refl

run-closed : receive_exact (bytes (1 ∷ []) ∷ []) 2 ≡ err closed_early
unfolding receive_exact receive_rounds recv
run-closed = refl

receive_exact-arriving_example :
    (got : Bytes) × (rest : List Bytes) × (receive_exact (arriving chunks) 7
      ≡ ok (got, arriving rest))
    × All Some rest
    × (length got ≡ 7)
    × (got ++ joined rest ≡ joined chunks)
receive_exact-arriving_example = receive_exact-arriving chunks 7 (omega arith) (omega arith)

read_registers-answered_example :
    (read_registers network inverter 3 (pos 37_000) (pos 2)).result ≡ ok answer
read_registers-answered_example =
    read_registers-answered network inverter (home ∷ []) 3 37_000 (258 ∷ 9 ∷ []) chunks (inl refl)
      (omega arith) (omega arith) (omega arith) (omega arith) refl (omega arith) (refl, tt) refl
      (omega arith) refl

read_registers-IsPermitted_example :
    All (IsPermitted network inverter) (read_registers network inverter 3 (pos 37_000) (pos 2)).sent
    × (length (read_registers network inverter 3 (pos 37_000) (pos 2)).sent ≤ 1)
read_registers-IsPermitted_example =
    read_registers-IsPermitted network inverter 3 (pos 37_000) (pos 2)

read_registers-Answers_example :
    (arrivals : List Arrival) × (header : Bytes) × (pdu : Bytes) × (pos 37_000 ≡ pos 37_000)
    × (pos 2 ≡ pos 2)
    × (network.connect inverter.host inverter.port (request_bytes (advance inverter) 3 37_000 2)
        ≡ some arrivals)
    × (receive_response arrivals ≡ ok (header, pdu))
    × Answers (advance inverter) 3 37_000 2 header pdu answer
read_registers-Answers_example =
    read_registers-Answers network inverter 3 (pos 37_000) (pos 2) answer run-answer
