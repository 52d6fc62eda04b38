-- ===== src/Modbus/Client/Words.antt =====
-- From a peer that sends bytes, a call returns 16-bit words.
use Prim.Native.String.{String}
use hedp.Prelude.{
  ℕ, zero, suc, ◌-◌, ◌*◌, ◌≡◌, inl, inr, sym, subst, Bool-cases, ◌&&◌, some, List, [], ◌∷◌, ◌++◌,
  arith, ltb, leb, ◌==◌, length, drop, slice, length-drop, All, All-append, All-take, All-drop, ok,
  Result-cases, bind_returns,
}
use hedp.Prelude.Bytes.{Bytes, IsByte, from_bytes}
use hedp.Prelude.Int.{ℤ, pos_part}
use hedp.Modbus.Socket.{Arrival, bytes, failure, recv, receive_rounds, receive_exact}
use hedp.Modbus.Client.{
  Network, Client, ModbusReadResult, words, received, receive_response, read_registers,
}
use hedp.Modbus.Client.Answer.{IsWord}
use hedp.Modbus.Client.Accepts.{read_registers-Answers}

abbrev pub OfBytes : Arrival → Type 0
OfBytes (bytes chunk) = All IsByte chunk
OfBytes failure = Unit {0}

abbrev pub SendsBytes : Network → Type 0
SendsBytes network =
    (host : String) (port : ℕ) (request : Bytes) (arrivals : List Arrival)
    → network.connect host port request ≡ some arrivals
    → All OfBytes arrivals

recv-IsByte :
    (size : ℕ) (arrivals : List Arrival) (chunk : Bytes) (rest : List Arrival)
    → All OfBytes arrivals
    → recv size arrivals ≡ ok (chunk, rest)
    → All IsByte chunk × All OfBytes rest
unfolding recv
recv-IsByte size [] chunk rest b h = ground arith
recv-IsByte size (failure ∷ arrivals) chunk rest b h = cc
recv-IsByte size (bytes c ∷ arrivals) chunk rest b h =
    let front = All-take IsByte size c b.0 in let back = All-drop IsByte size c b.0 in ground arith

receive_rounds-IsByte :
    (rounds size : ℕ) (chunks : Bytes) (arrivals : List Arrival) (got : Bytes) (rest : List Arrival)
    → All IsByte chunks
    → All OfBytes arrivals
    → receive_rounds rounds size chunks arrivals ≡ ok (got, rest)
    → All IsByte got × All OfBytes rest
unfolding receive_rounds
receive_rounds-IsByte zero size chunks arrivals got rest c b h = ground arith
receive_rounds-IsByte (suc rounds) size chunks arrivals got rest c b h =
    elim (Bool-cases (ltb (length chunks) size)) [
      | inr done ↦ (let ends = rw (receive_rounds, done) at h in ground arith)
      | inl more ↦
          let ((chunk, others), e, next) =
            bind_returns (recv (size - length chunks) arrivals) _
              (rw (receive_rounds, more) at h) in
          let (these, those) = recv-IsByte (size - length chunks) arrivals chunk others b e in
          elim (Bool-cases (length chunk == 0)) [
            | inl closed ↦ (let bad = rw closed at next in cc)
            | inr not_closed ↦
                receive_rounds-IsByte rounds size (chunks ++ chunk) others got rest
                  (All-append IsByte chunks chunk c these) those (rw not_closed at next)
          ]
    ]

receive_exact-IsByte :
    (arrivals : List Arrival) (size : ℕ) (got : Bytes) (rest : List Arrival)
    → All OfBytes arrivals
    → received (receive_exact arrivals size) ≡ ok (got, rest)
    → All IsByte got × All OfBytes rest
unfolding receive_exact
receive_exact-IsByte arrivals size got rest b h =
    elim (Result-cases (receive_rounds size size [] arrivals)) [
      | inl (e, bad) ↦ ground arith
      | inr (a, good) ↦ receive_rounds-IsByte size size [] arrivals got rest tt b (ground arith)
    ]

receive_response-IsByte :
    (arrivals : List Arrival) (header pdu : Bytes)
    → All OfBytes arrivals
    → receive_response arrivals ≡ ok (header, pdu)
    → All IsByte pdu
unfolding receive_response
receive_response-IsByte arrivals header pdu b h =
    let ((first, rest), e, next) = bind_returns (received (receive_exact arrivals 7)) _ h in
    let (_, others) = receive_exact-IsByte arrivals 7 first rest b e in
    let size = from_bytes (slice first 4 6) in
    elim (Bool-cases (leb 2 size && leb size 254)) [
      | inr bad ↦ (let raised = rw bad at next in cc)
      | inl good ↦
          let ((body, last), e', done) =
            bind_returns (received (receive_exact rest (size - 1))) _ (rw good at next) in
          let (these, _) = receive_exact-IsByte rest (size - 1) body last others e' in
          subst (All IsByte) (ground arith) these
    ]

words-IsWord : (n : ℕ) (xs : Bytes) → length xs ≡ n * 2 → All IsByte xs → All IsWord (words xs)
words-IsWord zero [] h b = tt
words-IsWord zero (x ∷ xs) h b = absurd (omega arith)
words-IsWord (suc n) [] h b = absurd (omega arith)
words-IsWord (suc n) (x ∷ []) h b = absurd (omega arith)
words-IsWord (suc n) (x ∷ y ∷ xs) h b = (omega arith, words-IsWord n xs (omega arith) b.1.1)

-- The registers of a call that returns are 16-bit words, if the peer sends bytes.
pub read_registers-IsWord :
    (network : Network) (client : Client) (f : ℕ) (start count : ℤ) (r : ModbusReadResult)
    → SendsBytes network
    → (read_registers network client f start count).result ≡ ok r
    → All IsWord r.registers
read_registers-IsWord network client f start count r sends h =
    let (arrivals, header, pdu, _, _, connected, e, answers) =
      read_registers-Answers network client f start count r h in
    let read = receive_response-IsByte arrivals header pdu (sends _ _ _ arrivals connected) e in
    let (is_words, counted) = answers.registers in
    let size = answers.size.1 in
    let cut = length-drop 2 pdu in
    subst (All IsWord) (sym is_words)
      (words-IsWord (pos_part count) (drop 2 pdu) (omega arith) (All-drop IsByte 2 pdu read))
