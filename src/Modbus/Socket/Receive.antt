-- ===== src/Modbus/Socket/Receive.antt =====
-- What `_receive_exact` returns does not depend on how the peer's bytes are cut into chunks.
use hedp.Prelude.{
  ℕ, zero, suc, ◌+◌, ◌-◌, ◌≤◌, ◌<◌, ◌≡◌, refl, sym, ap, ◌∙◌, Bool-cases, inl, inr, List, [], ◌∷◌,
  ◌++◌, map, arith, ltb, leb, length, take, drop, All, length-append, length-take, length-drop,
  take-append-drop, ok,
}
use mathlib.Core.List.{append_assoc}
use hedp.Prelude.Bytes.{Bytes}
use hedp.Modbus.Socket.{Arrival, bytes, recv, receive_rounds, receive_exact}

-- The bytes of a list of chunks.
abbrev pub joined : List Bytes → Bytes
joined [] = []
joined (c ∷ cs) = c ++ joined cs

abbrev pub Some : Bytes → Type 0
Some chunk = 0 < length chunk

abbrev pub arriving : List Bytes → List Arrival
arriving = map bytes

-- One `recv` of bytes that are there returns some of them and leaves the others.
recv-arriving :
    (size : ℕ) (cs : List Bytes)
    → 0 < size
    → All Some cs
    → 0 < length (joined cs)
    → (chunk : Bytes) × (rest : List Bytes) × (recv size (arriving cs) ≡ ok (chunk, arriving rest))
      × All Some rest
      × (chunk ++ joined rest ≡ joined cs)
      × (0 < length chunk)
      × (length chunk ≤ size)
unfolding recv
recv-arriving size [] h some_bytes more = absurd (omega arith)
recv-arriving size (c ∷ cs) h some_bytes more = elim (Bool-cases (leb (length c) size)) [
  | inl fits ↦ (c, cs, ground arith, some_bytes.1, refl, some_bytes.0, ground arith)
  | inr long ↦ (
    take size c,
    drop size c ∷ cs,
    ground arith,
    (ground (arith, length-drop size c), some_bytes.1),
    sym (append_assoc (take size c) (drop size c) (joined cs))
        ∙ ap (λ (front : Bytes). front ++ joined cs) (take-append-drop size c),
    ground (arith, length-take size c),
    ground (arith, length-take size c),
  )
]

receive_rounds-arriving :
    (rounds size : ℕ) (chunks : Bytes) (cs : List Bytes)
    → size ≤ length chunks + rounds
    → length chunks ≤ size
    → size ≤ length chunks + length (joined cs)
    → All Some cs
    → (got : Bytes) × (rest : List Bytes) × (receive_rounds rounds size chunks (arriving cs)
        ≡ ok (got, arriving rest))
      × All Some rest
      × (length got ≡ size)
      × (got ++ joined rest ≡ chunks ++ joined cs)
unfolding receive_rounds
receive_rounds-arriving zero size chunks cs enough within there some_bytes =
    (chunks, cs, refl, some_bytes, omega arith, refl)
receive_rounds-arriving (suc rounds) size chunks cs enough within there some_bytes =
    elim (Bool-cases (ltb (length chunks) size)) [
      | inr done ↦ (chunks, cs, ground arith, some_bytes, ground arith, refl)
      | inl more ↦
          let (chunk, rest, e, some_rest, parts, pos, fits) =
            recv-arriving (size - length chunks) cs (ground arith) some_bytes (ground arith) in
          let total : length (joined cs) ≡ length chunk + length (joined rest) =
            ap length (sym parts) ∙ length-append chunk (joined rest) in
          let sum = length-append chunks chunk in
          let (got, last, r, some_last, exact, whole) =
            receive_rounds-arriving rounds size (chunks ++ chunk) rest (omega arith) (ground arith)
              (omega arith) some_rest in
          (
            got,
            last,
            ground arith,
            some_last,
            exact,
            whole
                ∙ append_assoc chunks chunk (joined rest)
                ∙ ap (λ (ys : Bytes). chunks ++ ys) parts,
          )
    ]

-- However the bytes that the peer sends are cut into nonempty chunks, if there are at least `size` of
-- them, `_receive_exact` returns the first `size` and leaves the others in nonempty chunks.
pub receive_exact-arriving :
    (cs : List Bytes) (size : ℕ)
    → All Some cs
    → size ≤ length (joined cs)
    → (got : Bytes) × (rest : List Bytes) × (receive_exact (arriving cs) size
        ≡ ok (got, arriving rest))
      × All Some rest
      × (length got ≡ size)
      × (got ++ joined rest ≡ joined cs)
unfolding receive_exact
receive_exact-arriving cs size some_bytes there =
    receive_rounds-arriving size size [] cs (omega arith) (omega arith) (omega arith) some_bytes
