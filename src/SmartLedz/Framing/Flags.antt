-- ===== src/SmartLedz/Framing/Flags.antt =====
-- The flag byte: every request ID and notification flag come back from it.
use Prim.Native.Nat.{bit_and, bit_or}
use hedp.Prelude.{ℕ, ◌<◌, ◌≡◌, refl, Bool, true, false, ◌&&◌, arith, ◌==◌, holds_to, holds_to_at}
use hedp.SmartLedz.Framing.{
  flags_of, has_flag, request_id_mask, notification_flag, fragmented_flag, same_bool,
}

-- What a decoder reads from the flag byte `flags`, with the fragment flag `fragment`.
abbrev pub Reads : ℕ → Bool → Bool → ℕ → Type 0
Reads request_id notification fragment flags =
    (bit_and flags request_id_mask ≡ request_id)
    × (has_flag flags notification_flag ≡ notification)
    × (has_flag flags fragmented_flag ≡ fragment)

abbrev reads : Bool → Bool → ℕ → ℕ → Bool
reads notification fragment flags request_id =
    (bit_and flags request_id_mask == request_id)
    && same_bool (has_flag flags notification_flag) notification
    && same_bool (has_flag flags fragmented_flag) fragment

reads→Reads : (n f : Bool) (flags id : ℕ) → reads n f flags id ≡ true → Reads id n f flags
reads→Reads n f flags id h = ground arith

whole_table : (n : Bool) → holds_to (λ id. reads n false (flags_of id n) id) 64 ≡ true
unfolding holds_to
whole_table true = refl
whole_table false = refl

fragment_table :
    (n : Bool) → holds_to (λ id. reads n true (bit_or (flags_of id n) fragmented_flag) id) 64 ≡ true
unfolding holds_to
fragment_table true = refl
fragment_table false = refl

pub whole_Reads : (id : ℕ) (n : Bool) → id < 64 → Reads id n false (flags_of id n)
whole_Reads id n h = reads→Reads n false _ id (holds_to_at _ 64 id h (whole_table n))

pub fragment_Reads :
    (id : ℕ) (n : Bool) → id < 64 → Reads id n true (bit_or (flags_of id n) fragmented_flag)
fragment_Reads id n h = reads→Reads n true _ id (holds_to_at _ 64 id h (fragment_table n))
