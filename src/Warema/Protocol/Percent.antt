-- ===== src/Warema/Protocol/Percent.antt =====
-- The percentages are the nearest integers, with Python's tie rule.
use hedp.Prelude.{
  ℕ, ◌+◌, ◌*◌, ◌%◌, ◌≤◌, ◌<◌, ◌≡◌, ◌⊎◌, inl, inr, sym, ap, ◌∙◌, subst, true, false, not, Option,
  none, some, [], ◌∷◌, arith, length, any, ok, bind_returns,
}
use hedp.Prelude.Int.{ℤ, pos, negsuc, pos_part, neg_part}
use hedp.Prelude.Texts.{codes}
use hedp.Warema.Protocol.{
  Text, is_hex_digit, hex_value_onto, round_half, angle_percent, same_text, upper, hex, height,
  angle,
}

-- A height for the number `n` of two hexadecimal digits: `None` for 255; else a nearest integer to
-- n / 2, even unless it is n / 2, and at most 127.
abbrev pub IsHeight : ℕ → Option ℤ → Type 0
IsHeight n none = n ≡ 255
IsHeight n (some (pos h)) =
    (n < 255) × (2 * h ≤ n + 1) × (n ≤ 2 * h + 1) × ((2 * h ≡ n) ⊎ (h % 2 ≡ 0)) × (h ≤ 127)
IsHeight n (some (negsuc _)) = ⊥

-- An angle for it: `None` for 255; else the integer nearest to 100 (n - 127) / 75, within -169 to 169.
abbrev pub IsAngle : ℕ → Option ℤ → Type 0
IsAngle n none = n ≡ 255
IsAngle n (some a) =
    (n < 255)
    × (3 * pos_part a + 4 * 127 ≤ 4 * n + 3 * neg_part a + 1)
    × (4 * n + 3 * neg_part a ≤ 3 * pos_part a + 4 * 127 + 1)
    × (pos_part a ≤ 169)
    × (neg_part a ≤ 169)

round_half-IsHeight : (n : ℕ) → n < 255 → IsHeight n (some (pos (round_half n)))
round_half-IsHeight n h = ground arith

angle_percent-IsAngle : (n : ℕ) → n < 255 → IsAngle n (some (angle_percent n))
angle_percent-IsAngle n h = ground arith

two_digits :
    (cs : Text)
    → length cs ≡ 2
    → any (λ c. not (is_hex_digit c)) cs ≡ false
    → ((same_text cs (codes "FF") ≡ true) × (hex_value_onto 0 cs ≡ 255))
      ⊎ ((same_text cs (codes "FF") ≡ false) × (hex_value_onto 0 cs < 255))
two_digits (c ∷ d ∷ []) size digits = ground arith
two_digits _ size digits = absurd (omega arith)

module _ (upper_other : ℕ → Text) where
  hex-two :
      (value cs : Text)
      → hex upper_other value 2 ≡ ok cs
      → (cs ≡ upper upper_other value)
        × (length cs ≡ 2)
        × (any (λ c. not (is_hex_digit c)) cs ≡ false)
  unfolding hex
  hex-two value cs h = ground arith

  -- The number that two hexadecimal digits stand for.
  abbrev pub number : Text → ℕ
  number value = hex_value_onto 0 (upper upper_other value)

  -- A value of two hexadecimal digits is decoded to a height as `IsHeight` says: `None` for FF, else a
  -- nearest integer to half its number, the even one of two.
  pub height-IsHeight :
      (value : Text) (r : Option ℤ) → height upper_other value ≡ ok r → IsHeight (number value) r
  unfolding height
  height-IsHeight value r e =
      let (cs, normalized, rest) = bind_returns (hex upper_other value 2) _ e in
      let (is_upper, size, digits) = hex-two value cs normalized in
      elim (two_digits cs size digits) [
        | inl (unknown, all_ones) ↦
            let result : none ≡ r = (let r1 = rw unknown at rest in cc) in
            subst (IsHeight (number value)) result (ap (hex_value_onto 0) (sym is_upper) ∙ all_ones)
        | inr (known, small) ↦
            let result : some (pos (round_half (hex_value_onto 0 cs))) ≡ r =
              (let r1 = rw known at rest in cc) in
            subst (IsHeight (number value)) result (
              subst
                (λ (us : Text).
                  IsHeight (hex_value_onto 0 us) (some (pos (round_half (hex_value_onto 0 cs)))))
                is_upper (round_half-IsHeight (hex_value_onto 0 cs) small))
      ]

  -- A value of two hexadecimal digits is decoded to an angle as `IsAngle` says: `None` for FF, else the
  -- integer nearest to 100 (n - 127) / 75 for its number n.
  pub angle-IsAngle :
      (value : Text) (r : Option ℤ) → angle upper_other value ≡ ok r → IsAngle (number value) r
  unfolding angle
  angle-IsAngle value r e =
      let (cs, normalized, rest) = bind_returns (hex upper_other value 2) _ e in
      let (is_upper, size, digits) = hex-two value cs normalized in
      elim (two_digits cs size digits) [
        | inl (unknown, all_ones) ↦
            let result : none ≡ r = (let r1 = rw unknown at rest in cc) in
            subst (IsAngle (number value)) result (ap (hex_value_onto 0) (sym is_upper) ∙ all_ones)
        | inr (known, small) ↦
            let result : some (angle_percent (hex_value_onto 0 cs)) ≡ r =
              (let r1 = rw known at rest in cc) in
            subst (IsAngle (number value)) result (
              subst
                (λ (us : Text).
                  IsAngle (hex_value_onto 0 us) (some (angle_percent (hex_value_onto 0 cs))))
                is_upper (angle_percent-IsAngle (hex_value_onto 0 cs) small))
      ]
