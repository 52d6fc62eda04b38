-- ===== src/Modbus/Profile/Decoding.antt =====
-- The SUN2000 ranges hold every address that is decoded: what is collected by them is decoded.
use hedp.Prelude.{
  ℕ, zero, suc, ◌+◌, ◌-◌, ◌*◌, ◌<◌, ◌≡◌, inl, inr, refl, sym, ap, ◌∙◌, subst, Bool-cases, ◌&&◌,
  Option, none, some, List, [], ◌∷◌, ◌++◌, arith, ltb, leb, if◌then◌else◌, length, get_or, drop,
  drop-step, drop_all, All, ok,
}
use Prim.Native.Nat.{bit_or}
use hedp.Prelude.Bytes.{to_bytes, from_bytes}
use hedp.Modbus.Client.Answer.{IsWord, register_bytes}
use hedp.Modbus.Profile.{
  WordTable, range_words, find_word, word_at, packed_word, u32, i32, signed_32, packed_words,
}

abbrev or_else : Option ℕ → Option ℕ → Option ℕ
or_else (some later) earlier = some later
or_else none earlier = earlier

find_word-append :
    (a : ℕ) (xs ys : WordTable) → find_word a (xs ++ ys) ≡ or_else (find_word a ys) (find_word a xs)
find_word-append a [] ys = ground arith
find_word-append a ((b, w) ∷ xs) ys = ground (arith, find_word-append a xs ys)

find_word-range_words :
    (a address : ℕ) (ws : List ℕ)
    → find_word a (range_words address ws) ≡ (
        if leb address a && ltb a (address + length ws)
        then some (get_or ws (a - address) 0)
        else none)
find_word-range_words a address [] = ground arith
find_word-range_words a address (w ∷ ws) = elim (Bool-cases (leb (address + 1) a)) [
  | inl later ↦
      let step : a - address ≡ suc (a - (address + 1)) = ground arith in
      ground (arith, find_word-range_words a (address + 1) ws)
  | inr not_later ↦ ground (arith, find_word-range_words a (address + 1) ws)
]

word-IsWord : (ws : List ℕ) (k : ℕ) → All IsWord ws → get_or ws k 0 < 65_536
word-IsWord [] k h = ground arith
word-IsWord (w ∷ ws) zero h = h.0
word-IsWord (w ∷ ws) (suc k) h = word-IsWord ws k h.1

packed_word-at :
    (t : WordTable) (a w : ℕ) → word_at t a ≡ ok w → w < 65_536 → packed_word t a ≡ ok w
unfolding packed_word
packed_word-at t a w h small = ground arith

-- Two words of a range are a signed number, high word first.
i32-at :
    (t : WordTable) (a high low : ℕ)
    → word_at t a ≡ ok high
    → word_at t (a + 1) ≡ ok low
    → high < 65_536
    → low < 65_536
    → i32 t a ≡ ok (signed_32 (high * 65_536 + low))
unfolding i32
i32-at t a high low first second h l =
    let p = packed_word-at t a high first h in
    let q = packed_word-at t (a + 1) low second l in
    let e : from_bytes (to_bytes 2 high ++ to_bytes 2 low) ≡ high * 65_536 + low = omega arith in
    rw (p, q, e) refl

u32-at :
    (t : WordTable) (a high low : ℕ)
    → word_at t a ≡ ok high
    → word_at t (a + 1) ≡ ok low
    → u32 t a ≡ ok (bit_or (high * 65_536) low)
unfolding u32
u32-at t a high low first second = rw (first, second) refl

-- The dict of the three ranges.
abbrev pub three_ranges : List ℕ → List ℕ → List ℕ → WordTable
three_ranges ws0 ws1 ws2 =
    range_words 30_000 ws0 ++ (range_words 32_064 ws1 ++ (range_words 37_000 ws2 ++ []))

module _ (ws0 ws1 ws2 : List ℕ) (c0 : length ws0 ≡ 15) (c1 : length ws1 ≡ 52)
    (c2 : length ws2 ≡ 5) where
  abbrev table : WordTable
  table = three_ranges ws0 ws1 ws2

  find_word-table :
      (a : ℕ)
      → find_word a table
        ≡ or_else
            (or_else
              (or_else none (find_word a (range_words 37_000 ws2)))
              (find_word a (range_words 32_064 ws1)))
            (find_word a (range_words 30_000 ws0))
  find_word-table a =
      find_word-append a (range_words 30_000 ws0) _
      ∙ ap (λ o. or_else o (find_word a (range_words 30_000 ws0)))
          (find_word-append a (range_words 32_064 ws1) _
            ∙ ap (λ o. or_else o (find_word a (range_words 32_064 ws1)))
                (find_word-append a (range_words 37_000 ws2) []))

  identity_at : (k : ℕ) → k < 15 → word_at table (30_000 + k) ≡ ok (get_or ws0 k 0)
  unfolding word_at
  identity_at k h =
      let e = find_word-table (30_000 + k) in
      let in0 = find_word-range_words (30_000 + k) 30_000 ws0 in
      let in1 = find_word-range_words (30_000 + k) 32_064 ws1 in
      let in2 = find_word-range_words (30_000 + k) 37_000 ws2 in
      let at : 30_000 + k - 30_000 ≡ k = omega arith in ground arith

  pub realtime_at : (k : ℕ) → k < 52 → word_at table (32_064 + k) ≡ ok (get_or ws1 k 0)
  unfolding word_at
  realtime_at k h =
      let e = find_word-table (32_064 + k) in
      let in0 = find_word-range_words (32_064 + k) 30_000 ws0 in
      let in1 = find_word-range_words (32_064 + k) 32_064 ws1 in
      let in2 = find_word-range_words (32_064 + k) 37_000 ws2 in
      let at : 32_064 + k - 32_064 ≡ k = omega arith in ground arith

  pub storage_at : (k : ℕ) → k < 5 → word_at table (37_000 + k) ≡ ok (get_or ws2 k 0)
  unfolding word_at
  storage_at k h =
      let e = find_word-table (37_000 + k) in
      let in0 = find_word-range_words (37_000 + k) 30_000 ws0 in
      let in1 = find_word-range_words (37_000 + k) 32_064 ws1 in
      let in2 = find_word-range_words (37_000 + k) 37_000 ws2 in
      let at : 37_000 + k - 37_000 ≡ k = omega arith in ground arith

  pub identity_packed :
      (n k : ℕ)
      → k + n ≡ 15
      → All IsWord ws0
      → packed_words table n (30_000 + k) ≡ ok (register_bytes (drop k ws0))
  unfolding packed_words
  identity_packed zero k h w =
      ap (λ (xs : List ℕ). ok (register_bytes xs)) (sym (drop_all k ws0 (omega arith)))
  identity_packed (suc n) k h w =
      let this =
        packed_word-at table (30_000 + k) (get_or ws0 k 0) (identity_at k (omega arith))
          (word-IsWord ws0 k w) in
      let next : packed_words table n (30_000 + k + 1) ≡ ok (register_bytes (drop (k + 1) ws0)) =
        subst (λ (a : ℕ). packed_words table n a ≡ ok (register_bytes (drop (k + 1) ws0)))
          (omega arith) (identity_packed n (k + 1) (omega arith) w) in
      let step = drop-step k 0 ws0 (omega arith) in rw (this, next, step) refl

  -- Signed and unsigned pairs of words, and single words, of the ranges.
  pub realtime_i32 :
      (k : ℕ)
      → k + 1 < 52
      → All IsWord ws1
      → i32 table (32_064 + k) ≡ ok (signed_32 (get_or ws1 k 0 * 65_536 + get_or ws1 (k + 1) 0))
  realtime_i32 k h w =
      i32-at table (32_064 + k) (get_or ws1 k 0) (get_or ws1 (k + 1) 0)
        (realtime_at k (omega arith))
        (subst (λ (a : ℕ). word_at table a ≡ ok (get_or ws1 (k + 1) 0)) (omega arith)
          (realtime_at (k + 1) h))
        (word-IsWord ws1 k w) (word-IsWord ws1 (k + 1) w)

  pub storage_i32 :
      All IsWord ws2 → i32 table 37_001 ≡ ok (signed_32 (get_or ws2 1 0 * 65_536 + get_or ws2 2 0))
  storage_i32 w =
      i32-at table 37_001 (get_or ws2 1 0) (get_or ws2 2 0) (storage_at 1 (omega arith))
        (storage_at 2 (omega arith)) (word-IsWord ws2 1 w) (word-IsWord ws2 2 w)

  pub realtime_u32 :
      (k : ℕ)
      → k + 1 < 52
      → u32 table (32_064 + k) ≡ ok (bit_or (get_or ws1 k 0 * 65_536) (get_or ws1 (k + 1) 0))
  realtime_u32 k h =
      u32-at table (32_064 + k) (get_or ws1 k 0) (get_or ws1 (k + 1) 0)
        (realtime_at k (omega arith))
        (subst (λ (a : ℕ). word_at table a ≡ ok (get_or ws1 (k + 1) 0)) (omega arith)
          (realtime_at (k + 1) h))
