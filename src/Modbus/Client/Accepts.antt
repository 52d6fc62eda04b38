-- ===== src/Modbus/Client/Accepts.antt =====
-- What holds when a call returns registers, and what it leaves behind on every end.
use hedp.Prelude.{
  ℕ, zero, suc, ◌+◌, ◌*◌, ◌≡◌, inl, inr, refl, ap, Option-cases, some, List, [], ◌∷◌, arith, length,
  get_or, slice, drop, length-drop, ok, Result-cases, bind_returns,
}
use hedp.Prelude.Bytes.{Bytes, from_bytes}
use hedp.Prelude.Int.{ℤ, pos, pos_part}
use hedp.Modbus.Socket.{Arrival}
use hedp.Modbus.Client.{
  Client, Network, ModbusReadResult, require_private_target, check_request, advance, request_bytes,
  words, receive_response, check_response, exchange, read_registers,
}
use hedp.Modbus.Client.Safety.{check_request-bounds}

length-words : (n : ℕ) (xs : Bytes) → length xs ≡ n * 2 → length (words xs) ≡ n
length-words zero [] h = refl
length-words zero (x ∷ xs) h = absurd (omega arith)
length-words (suc n) [] h = absurd (omega arith)
length-words (suc n) (x ∷ []) h = absurd (omega arith)
length-words (suc n) (x ∷ y ∷ xs) h = ap suc (length-words n xs (omega arith))

-- What the response says that is accepted.
pub record Answers (client : Client) (f s n : ℕ) (header pdu : Bytes) (r : ModbusReadResult)
    : Type 0 where
  pub id : from_bytes (slice header 0 2) ≡ client.transaction_id
  pub protocol : from_bytes (slice header 2 4) ≡ 0
  pub unit : get_or header 6 0 ≡ client.unit_id
  pub function : get_or pdu 0 0 ≡ f
  pub size : (get_or pdu 1 0 ≡ n * 2) × (length pdu ≡ n * 2 + 2)
  pub echoed : (r.function_code ≡ f) × (r.start_address ≡ s)
  pub registers : (r.registers ≡ words (drop 2 pdu)) × (length r.registers ≡ n)

check_response-Answers :
    (client : Client) (f s n : ℕ) (header pdu : Bytes) (r : ModbusReadResult)
    → check_response client f s n header pdu ≡ ok r
    → Answers client f s n header pdu r
unfolding check_response
check_response-Answers client f s n header pdu r h =
    let cut = length-drop 2 pdu in
    let whole : length pdu ≡ n * 2 + 2 = ground arith in
    let counted = length-words n (drop 2 pdu) (omega arith) in
    record {
      id = ground arith;
      protocol = ground arith;
      unit = ground arith;
      function = ground arith;
      size = ground arith;
      echoed = ground arith;
      registers = ground arith;
    }

exchange-returned :
    (network : Network) (client : Client) (f s n : ℕ) (r : ModbusReadResult)
    → (exchange network client f s n).result ≡ ok r
    → (arrivals : List Arrival) × (header : Bytes) × (pdu : Bytes) × (network.connect client.host
          client.port
          (request_bytes client f s n)
        ≡ some arrivals)
      × (receive_response arrivals ≡ ok (header, pdu))
      × Answers client f s n header pdu r
unfolding exchange
exchange-returned network client f s n r h =
    elim (Option-cases (network.connect client.host client.port (request_bytes client f s n))) [
      | inl nothing ↦ (let bad = rw (exchange, nothing) at h in cc)
      | inr (arrivals, connected) ↦
          let ((header, pdu), e, next) =
            bind_returns (receive_response arrivals) _ (rw (exchange, connected) at h) in
          (
            arrivals,
            header,
            pdu,
            connected,
            e,
            check_response-Answers client f s n header pdu r next,
          )
    ]

-- When a call returns, its arguments were in range and what the peer had sent after exactly this
-- request is an answer to it: the transaction ID and unit of the request, protocol 0, the function that
-- was called, and as many registers as were asked for, which are the words of the PDU.
pub read_registers-Answers :
    (network : Network) (client : Client) (f : ℕ) (start count : ℤ) (r : ModbusReadResult)
    → (read_registers network client f start count).result ≡ ok r
    → let asking = advance client in
      let s = pos_part start in
      let n = pos_part count in
      (arrivals : List Arrival) × (header : Bytes) × (pdu : Bytes) × (start ≡ pos s)
      × (count ≡ pos n)
      × (network.connect client.host client.port (request_bytes asking f s n) ≡ some arrivals)
      × (receive_response arrivals ≡ ok (header, pdu))
      × Answers asking f s n header pdu r
unfolding read_registers
read_registers-Answers network client f start count r h =
    elim (Result-cases (check_request f start count)) [
      | inl (e, refused) ↦ (let bad = rw (read_registers, refused) at h in cc)
      | inr (u, asked) ↦ elim (Result-cases (require_private_target network client)) [
        | inl (e, refused) ↦ (let bad = rw (read_registers, asked, refused) at h in cc)
        | inr (v, target) ↦
            let (_, is_start, is_count, _, _, _) = check_request-bounds f start count u asked in
            let (arrivals, header, pdu, connected, received, answers) =
              exchange-returned network (advance client) f (pos_part start) (pos_part count) r
                (rw (read_registers, asked, target) at h) in
            (arrivals, header, pdu, is_start, is_count, connected, received, answers)
      ]
    ]
