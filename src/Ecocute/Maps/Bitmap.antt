-- ===== src/Ecocute/Maps/Bitmap.antt =====
-- The bitmap form of a property map: an EPC is in the map exactly if its bit is set, and no EPC
-- comes twice.
use hedp.Prelude.{
  ℕ, zero, suc, ◌+◌, ◌-◌, ◌/◌, ◌%◌, ◌≤◌, ◌<◌, ◌≡◌, ◌↔◌, refl, ◌∙◌, Bool, true, false, ◌&&◌, List,
  [], ◌∷◌, ◌++◌, arith, ltb, leb, ◌==◌, length, get_or, any, All, any-append, holds_to, holds_to_at,
  ok,
}
use hedp.Prelude.Bytes.{Bytes}
use hedp.Ecocute.Echonet.{EchonetProperty}
use hedp.Ecocute.Maps.{
  EchonetPropertyMap, is_map_epc, has_bit, bitmap_epc, bitmap_row, bitmap_epcs, repeats, map_epcs,
  decode_map_data, decode_property_map,
}

-- An EPC of the bitmap shows its two nibbles.
nibbles_table :
    holds_to
      (λ high.
        holds_to
          (λ low. (bitmap_epc low high % 16 == low) && (bitmap_epc low high / 16 == high + 8))
          16)
      8
    ≡ true
unfolding holds_to
nibbles_table = refl

nibbles :
    (low high : ℕ)
    → low < 16
    → high < 8
    → (bitmap_epc low high % 16 ≡ low) × (bitmap_epc low high / 16 ≡ high + 8)
nibbles low high hl hh =
    let row =
      holds_to_at
        (λ h. holds_to (λ l. (bitmap_epc l h % 16 == l) && (bitmap_epc l h / 16 == h + 8)) 16) 8
        high hh nibbles_table in
    let cell =
      holds_to_at (λ l. (bitmap_epc l high % 16 == l) && (bitmap_epc l high / 16 == high + 8)) 16
        low hl row in
    ground arith

same_epc :
    (low high low' high' : ℕ)
    → low < 16
    → high < 8
    → low' < 16
    → high' < 8
    → (bitmap_epc low high == bitmap_epc low' high') ≡ (low == low' && high == high')
same_epc low high low' high' a b c d = ground (arith, nibbles low high a b, nibbles low' high' c d)

row_at :
    (first low bitmap : ℕ) (rows : Bytes)
    → first < low
    → get_or (bitmap ∷ rows) (low - first) 0 ≡ get_or rows (low - (first + 1)) 0
row_at first low bitmap rows h = let e : low - first ≡ suc (low - (first + 1)) = omega arith in rw e

module _ (low high : ℕ) (hl : low < 16) (hh : high < 8) where
  abbrev finds : List ℕ → Bool
  finds = any (λ x. bitmap_epc low high == x)

  finds-bitmap_row :
      (row bitmap rounds first : ℕ)
      → row < 16
      → first + rounds ≤ 8
      → finds (bitmap_row row bitmap rounds first)
        ≡ (low == row && (leb first high && ltb high (first + rounds)) && has_bit bitmap high)
  unfolding bitmap_row
  finds-bitmap_row row bitmap zero first hr h = ground arith
  finds-bitmap_row row bitmap (suc rounds) first hr h = ground (
    arith,
    finds-bitmap_row row bitmap rounds (first + 1) hr (omega arith),
    same_epc low high row first hl hh hr,
  )

  finds-bitmap_epcs :
      (first : ℕ) (rows : Bytes)
      → first + length rows ≤ 16
      → finds (bitmap_epcs first rows) ≡ (
          leb first low
          && ltb low (first + length rows)
          && has_bit (get_or rows (low - first) 0) high)
  unfolding bitmap_epcs
  finds-bitmap_epcs first [] h = ground arith
  finds-bitmap_epcs first (bitmap ∷ rows) h =
      any-append (λ x. bitmap_epc low high == x) (bitmap_row first bitmap 8 0)
        (bitmap_epcs (first + 1) rows)
      ∙ ground (
        arith,
        finds-bitmap_row first bitmap 8 0 (omega arith) (omega arith),
        finds-bitmap_epcs (first + 1) rows (omega arith),
        row_at first low bitmap rows,
      )

-- Rows without a common EPC, none of which repeats one, repeat none together.
repeats-append :
    (xs ys : List ℕ)
    → repeats xs ≡ false
    → All (λ x. any (λ y. x == y) ys ≡ false) xs
    → repeats ys ≡ false
    → repeats (xs ++ ys) ≡ false
unfolding repeats
repeats-append [] ys hx apart hy = hy
repeats-append (x ∷ xs) ys hx apart hy =
    ground (arith, repeats-append xs ys (ground arith) apart.1 hy, any-append (λ y. x == y) xs ys)

repeats-bitmap_row :
    (row bitmap rounds first : ℕ)
    → row < 16
    → first + rounds ≤ 8
    → repeats (bitmap_row row bitmap rounds first) ≡ false
unfolding bitmap_row repeats
repeats-bitmap_row row bitmap zero first hr h = refl
repeats-bitmap_row row bitmap (suc rounds) first hr h = ground (
  arith,
  repeats-bitmap_row row bitmap rounds (first + 1) hr (omega arith),
  finds-bitmap_row row first hr (omega arith) row bitmap rounds (first + 1) hr (omega arith),
)

row_apart :
    (row bitmap rounds first : ℕ) (rows : Bytes)
    → row + suc (length rows) ≤ 16
    → first + rounds ≤ 8
    → All
        (λ x. any (λ y. x == y) (bitmap_epcs (row + 1) rows) ≡ false)
        (bitmap_row row bitmap rounds first)
unfolding bitmap_row
row_apart row bitmap zero first rows hr h = tt
row_apart row bitmap (suc rounds) first rows hr h = ground (
  arith,
  row_apart row bitmap rounds (first + 1) rows hr (omega arith),
  finds-bitmap_epcs row first (omega arith) (omega arith) (row + 1) rows (omega arith),
)

repeats-bitmap_epcs :
    (first : ℕ) (rows : Bytes) → first + length rows ≤ 16 → repeats (bitmap_epcs first rows) ≡ false
unfolding bitmap_epcs
repeats-bitmap_epcs first [] h = unfold repeats in refl
repeats-bitmap_epcs first (bitmap ∷ rows) h =
    repeats-append (bitmap_row first bitmap 8 0) (bitmap_epcs (first + 1) rows)
      (repeats-bitmap_row first bitmap 8 0 (omega arith) (omega arith))
      (row_apart first bitmap 8 0 rows (omega arith) (omega arith))
      (repeats-bitmap_epcs (first + 1) rows (omega arith))

module _ (epc count : ℕ) (rows : Bytes) where
  abbrev pub bitmap_property : EchonetProperty
  bitmap_property = record { epc = epc; value = count ∷ rows }

  -- A map whose first data byte is 16 or more is accepted exactly if it has 16 bitmap bytes with as
  -- many bits set as that byte says.
  pub decode_property_map-accepts_bitmap :
      is_map_epc epc ≡ true
      → 16 ≤ count
      → ((m : EchonetPropertyMap) × (decode_property_map bitmap_property ≡ ok m))
        ↔ ((length rows ≡ 16) × (length (bitmap_epcs 0 rows) ≡ count))
  unfolding decode_property_map decode_map_data map_epcs
  decode_property_map-accepts_bitmap is_map big = (
    λ (m, h). ground arith,
    λ (full, counted). (
      record { epc = epc; properties = bitmap_epcs 0 rows },
      ground (arith, repeats-bitmap_epcs 0 rows),
    ),
  )

  -- In an accepted map whose first data byte is 16 or more, the EPC `bitmap_epc low high`, for nibbles
  -- low below 16 and high below 8, is held exactly if bit `high` of bitmap byte `low` is set.
  pub any-decode_property_map :
      (m : EchonetPropertyMap) (low high : ℕ)
      → 16 ≤ count
      → decode_property_map bitmap_property ≡ ok m
      → low < 16
      → high < 8
      → any (λ x. bitmap_epc low high == x) m.properties ≡ has_bit (get_or rows low 0) high
  unfolding decode_property_map decode_map_data map_epcs
  any-decode_property_map m low high big h hl hh =
      ground (arith, finds-bitmap_epcs low high hl hh 0 rows)
