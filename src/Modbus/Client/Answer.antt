-- ===== src/Modbus/Client/Answer.antt =====
-- The answer of a device that holds the registers, and that it is read back from any chunks.
use mathlib.Core.List.{append-nil}
use hedp.Prelude.{
  ℕ, ◌+◌, ◌*◌, ◌≤◌, ◌<◌, ◌≡◌, ◌⊎◌, inl, inr, refl, sym, ap, ◌∙◌, true, false, not, some, List, [],
  ◌∷◌, ◌++◌, arith, length, slice, take, drop, All, length-append, take-append_self,
  drop-append_self, any_none, All-imp, ok,
}
use hedp.Prelude.Bytes.{Bytes, to_bytes, from_bytes, from_bytes-to_bytes_two}
use hedp.Prelude.Int.{pos, ◌+ℤ◌}
use hedp.Modbus.Socket.Receive.{joined, Some, arriving, receive_exact-arriving}
use hedp.Modbus.Client.{
  Client, Address, Network, is_local, require_private_target, check_request, advance, header_bytes,
  request_bytes, words, receive_response, check_response, exchange, read_registers,
}

abbrev pub register_bytes : List ℕ → Bytes
register_bytes [] = []
register_bytes (w ∷ ws) = to_bytes 2 w ++ register_bytes ws

-- The PDU of the answer: the function, the count of bytes and the registers.
abbrev pub answer_pdu : ℕ → List ℕ → Bytes
answer_pdu function_code ws = function_code ∷ length ws * 2 ∷ register_bytes ws

abbrev pub answer_bytes : Client → ℕ → List ℕ → Bytes
answer_bytes client function_code ws =
    header_bytes client.transaction_id (length ws * 2 + 3) client.unit_id
    ++ answer_pdu function_code ws

abbrev pub IsWord : ℕ → Type 0
IsWord w = w < 65_536

words-register_bytes : (ws : List ℕ) → All IsWord ws → words (register_bytes ws) ≡ ws
words-register_bytes [] h = refl
words-register_bytes (w ∷ ws) h = ground (arith, words-register_bytes ws h.1)

length-register_bytes : (ws : List ℕ) → length (register_bytes ws) ≡ length ws * 2
length-register_bytes [] = refl
length-register_bytes (w ∷ ws) = ground (arith, length-register_bytes ws)

-- Equal lists with fronts of one length have equal fronts and ends.
same_front :
    (xs ys xs' ys' : Bytes)
    → length xs ≡ length xs'
    → xs ++ ys ≡ xs' ++ ys'
    → (xs ≡ xs') × (ys ≡ ys')
same_front xs ys xs' ys' size e = (
  sym (take-append_self xs ys (length xs) refl)
      ∙ ap (take (length xs)) e
      ∙ take-append_self xs' ys' (length xs) size,
  sym (drop-append_self xs ys (length xs) refl)
      ∙ ap (drop (length xs)) e
      ∙ drop-append_self xs' ys' (length xs) size,
)

-- A header and its PDU are received from any chunks.
receive_response-arriving :
    (t unit : ℕ) (pdu : Bytes) (cs : List Bytes)
    → 1 ≤ length pdu
    → length pdu ≤ 253
    → All Some cs
    → joined cs ≡ header_bytes t (length pdu + 1) unit ++ pdu
    → receive_response (arriving cs) ≡ ok (header_bytes t (length pdu + 1) unit, pdu)
unfolding receive_response
receive_response-arriving t unit pdu cs one most some_bytes sent =
    let header = header_bytes t (length pdu + 1) unit in
    let total : length (joined cs) ≡ 7 + length pdu = ap length sent ∙ length-append header pdu in
    let (got, rest, e, some_rest, seven, parts) =
      receive_exact-arriving cs 7 some_bytes (omega arith) in
    let (is_header, is_pdu) = same_front got (joined rest) header pdu seven (parts ∙ sent) in
    let there : length (joined rest) ≡ length pdu = ap length is_pdu in
    let (got', rest', e', some_last, all, parts') =
      receive_exact-arriving rest (length pdu) some_rest (omega arith) in
    let (is_pdu', is_nil) =
      same_front got' (joined rest') pdu [] all (parts' ∙ is_pdu ∙ sym (append-nil pdu)) in
    let size : from_bytes (slice header 4 6) ≡ length pdu + 1 =
      from_bytes-to_bytes_two (length pdu + 1) (omega arith) in
    rw (e, is_header, size) (ground arith)

check_response-answer :
    (client : Client) (f s : ℕ) (ws : List ℕ)
    → ((f ≡ 3) ⊎ (f ≡ 4))
    → client.transaction_id < 65_536
    → All IsWord ws
    → let header = header_bytes client.transaction_id (length ws * 2 + 3) client.unit_id in
      check_response client f s (length ws) header (answer_pdu f ws)
      ≡ ok (record { function_code = f; start_address = s; registers = ws })
unfolding check_response
check_response-answer client f s ws (inl three) small w =
    let id = from_bytes-to_bytes_two client.transaction_id small in
    ground (arith, words-register_bytes ws w, length-register_bytes ws)
check_response-answer client f s ws (inr four) small w =
    let id = from_bytes-to_bytes_two client.transaction_id small in
    ground (arith, words-register_bytes ws w, length-register_bytes ws)

private_target-accepted :
    (network : Network) (client : Client) (addresses : List Address)
    → network.resolve client.host client.port ≡ some addresses
    → 0 < length addresses
    → All (λ a. is_local a ≡ true) addresses
    → require_private_target network client ≡ ok tt
unfolding require_private_target
private_target-accepted network client addresses resolved some_address all_local =
    let none_public =
      any_none (λ a. not (is_local a)) addresses
        (All-imp (λ a. is_local a ≡ true) (λ a. not (is_local a) ≡ false) addresses
          (λ a h. ap not h) all_local) in
    ground arith

check_request-accepted :
    (f s n : ℕ)
    → ((f ≡ 3) ⊎ (f ≡ 4))
    → 1 ≤ n
    → n ≤ 125
    → s + n ≤ 65_536
    → check_request f (pos s) (pos n) ≡ ok tt
unfolding check_request ◌+ℤ◌
check_request-accepted f s n which one most inside = ground arith

-- Liveness. A call for `count` registers from `start_address` on, of which there are 1 to 125 within
-- the address space, with function 3 or 4, to a host all of whose addresses (at least one) are
-- private or link-local, returns the registers `ws` if the peer answers the request with the header
-- of the request's transaction and unit and the PDU of `ws`, however the answer is cut into chunks.
pub read_registers-answered :
    (network : Network) (client : Client) (addresses : List Address) (f s : ℕ) (ws : List ℕ)
    (cs : List Bytes)
    → ((f ≡ 3) ⊎ (f ≡ 4))
    → 1 ≤ length ws
    → length ws ≤ 125
    → s + length ws ≤ 65_536
    → All IsWord ws
    → network.resolve client.host client.port ≡ some addresses
    → 0 < length addresses
    → All (λ a. is_local a ≡ true) addresses
    → network.connect client.host client.port (request_bytes (advance client) f s (length ws))
      ≡ some (arriving cs)
    → All Some cs
    → joined cs ≡ answer_bytes (advance client) f ws
    → (read_registers network client f (pos s) (pos (length ws))).result
      ≡ ok (record { function_code = f; start_address = s; registers = ws })
unfolding read_registers exchange
read_registers-answered network client addresses f s ws cs which one most inside w resolved
      some_address all_local connected some_bytes sent =
    let target = private_target-accepted network client addresses resolved some_address all_local in
    let asked = check_request-accepted f s (length ws) which one most inside in
    let size : length (answer_pdu f ws) + 1 ≡ length ws * 2 + 3 =
      ground (arith, length-register_bytes ws) in
    let answered =
      receive_response-arriving (advance client).transaction_id client.unit_id (answer_pdu f ws) cs
        (omega arith) (omega arith) some_bytes
        (sent
          ∙ ap
              (λ n.
                header_bytes (advance client).transaction_id n client.unit_id ++ answer_pdu f ws)
              (sym size)) in
    rw (read_registers, asked, target, exchange, connected, answered, size)
      (check_response-answer (advance client) f s ws which (omega arith) w)
