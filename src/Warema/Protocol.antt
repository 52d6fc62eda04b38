-- ===== src/Warema/Protocol.antt =====
-- src/hedp/adapters/warema/protocol.py: frames. A text is the list of its code points; `str.upper` of a
-- character beyond ASCII is an argument.
pub mod Percent
use Prim.Native.String.{String}
use hedp.Prelude.{
  ℕ, zero, suc, ◌+◌, ◌-◌, ◌*◌, ◌/◌, ◌%◌, Bool, true, false, not, ◌&&◌, ◌||◌, Option, none, some,
  List, [], ◌∷◌, ◌++◌, ltb, leb, ◌==◌, if◌then◌else◌, length, get_or, slice, take, drop, any, all,
  Result, ok, err, raise_if, ◌>>=◌, ◌>>◌,
}
use hedp.Prelude.Bytes.{Bytes}
use hedp.Prelude.Int.{ℤ, pos, negsuc, sub_ℕ}
use hedp.Prelude.Texts.{codes}

abbrev pub Text : Type 0
Text = List ℕ

pub data FrameError : Type 0 where
  not_hexadecimal not_ascii too_long no_boundary radio_too_short state_too_short : FrameError
  movement_too_short scan_too_short buffer_exceeded bad_max_buffer : FrameError

pub data Kind : Type 0 where
  ack forward stick_name stick_version unknown state movement scan_response
        restricted_join_network :
      Kind
  movement_response unknown_radio : Kind

-- The values of the dict `fields`; a percentage of `None` is not known.
pub data FieldValue : Type 0 where
  text : Text → FieldValue
  percent : Option ℤ → FieldValue
  flag : Bool → FieldValue

pub record Frame : Type 0 where
  pub kind : Kind
  pub command_type : Option Text
  pub payload : Text
  pub fields : List (String × FieldValue)

abbrev pub same_text : Text → Text → Bool
same_text [] [] = true
same_text (x ∷ xs) (y ∷ ys) = x == y && same_text xs ys
same_text _ _ = false

abbrev pub starts_with : Text → Text → Bool
starts_with t prefix = same_text (take (length prefix) t) prefix

-- `text[2:-1]`
abbrev pub inner : ℕ → Text → Text
inner from t = slice t from (length t - 1)

abbrev pub is_hex_digit : ℕ → Bool
is_hex_digit c = leb 0x30 c && leb c 0x39 || leb 0x41 c && leb c 0x46

abbrev pub hex_digit : ℕ → ℕ
hex_digit c = if leb c 0x39 then c - 0x30 else c - 0x37

-- `int(text, 16)` of hexadecimal digits
abbrev pub hex_value_onto : ℕ → Text → ℕ
hex_value_onto acc [] = acc
hex_value_onto acc (c ∷ cs) = hex_value_onto (acc * 16 + hex_digit c) cs

-- `round(n / 2)`: a half goes to the even neighbour.
abbrev pub round_half : ℕ → ℕ
round_half n = if n % 2 == 0 then n / 2 else if n / 2 % 2 == 0 then n / 2 else n / 2 + 1

-- `round(m / 75 * 100)` for m = 4 / 3 of an integer is never a half.
abbrev pub round_four_thirds : ℕ → ℕ
round_four_thirds m = (8 * m + 3) / 6

abbrev pub angle_percent : ℕ → ℤ
angle_percent n =
    if leb 127 n then pos (round_four_thirds (n - 127)) else sub_ℕ 0 (round_four_thirds (127 - n))

module _ (upper_other : ℕ → Text) where
  -- `str.upper`
  abbrev pub upper : Text → Text
  upper [] = []
  upper (c ∷ cs) =
      let rest = upper cs in
      if leb 0x61 c && leb c 0x7A
      then (c - 0x20) ∷ rest
      else if ltb c 128
      then c ∷ rest
      else upper_other c ++ rest

  -- `_hex`
  unfoldable pub hex : Text → ℕ → Result FrameError Text
  hex value size = do
    let normalized = upper value
    raise_if (not (length normalized == size) || any (λ c. not (is_hex_digit c)) normalized)
        not_hexadecimal
    ok normalized

  -- `_height`
  unfoldable pub height : Text → Result FrameError (Option ℤ)
  height value = do
    normalized ← hex value 2
    ok (
        if same_text normalized (codes "FF")
        then none
        else some (pos (round_half (hex_value_onto 0 normalized))))

  -- `_angle`
  unfoldable pub angle : Text → Result FrameError (Option ℤ)
  angle value = do
    normalized ← hex value 2
    ok (
        if same_text normalized (codes "FF")
        then none
        else some (angle_percent (hex_value_onto 0 normalized)))

  abbrev pub is_state_payload : Text → Bool
  is_state_payload payload =
      starts_with payload (codes "01000003") || starts_with payload (codes "01000005")

  unfoldable pub state_frame : Text → Text → Result FrameError Frame
  state_frame command_type payload = do
    raise_if (ltb (length payload) 18) state_too_short
    h ← height (slice payload 8 10)
    a ← angle (slice payload 10 12)
    ok (record {
      kind = state;
      command_type = some command_type;
      payload = payload;
      fields =
          ("height_raw_percent", percent h)
          ∷ ("angle_raw_percent", percent a)
          ∷ ("moving", flag (not (same_text (slice payload 16 18) (codes "00"))))
          ∷ ("unknown_tail", text (drop 18 payload))
          ∷ [];
    })

  unfoldable pub movement_frame : Text → Text → Result FrameError Frame
  movement_frame command_type payload = do
    raise_if (ltb (length payload) 6) movement_too_short
    h ← height (slice payload 2 4)
    a ← angle (slice payload 4 6)
    ok (record {
      kind = movement;
      command_type = some command_type;
      payload = payload;
      fields =
          ("height_raw_percent", percent h)
          ∷ ("angle_raw_percent", percent a)
          ∷ ("unknown_tail", text (drop 6 payload))
          ∷ [];
    })

  unfoldable pub scan_frame : Text → Text → Result FrameError Frame
  scan_frame command_type payload = do
    raise_if (ltb (length payload) 6) scan_too_short
    ok (record {
      kind = scan_response;
      command_type = some command_type;
      payload = payload;
      fields =
          ("device_type", text (slice payload 4 6)) ∷ ("unknown_tail", text (drop 6 payload)) ∷ [];
    })

  abbrev pub bare : Kind → Option Text → Frame
  bare kind command_type = record {
    kind = kind;
    command_type = command_type;
    payload = [];
    fields = [];
  }

  -- The tests of `decode_frame` on the command type.
  unfoldable pub command_frame : Text → Text → Result FrameError Frame
  command_frame command_type payload =
      if same_text command_type (codes "8011") && is_state_payload payload
      then state_frame command_type payload
      else if same_text command_type (codes "7070")
      then movement_frame command_type payload
      else if same_text command_type (codes "7021")
      then scan_frame command_type payload
      else if same_text command_type (codes "5018")
      then ok (bare restricted_join_network (some command_type))
      else if same_text command_type (codes "7071")
      then ok (bare movement_response (some command_type))
      else ok (bare unknown_radio (some command_type))

  -- The part of `decode_frame` for a frame that starts with `{r`.
  unfoldable pub decode_radio : Text → Result FrameError Frame
  decode_radio t = do
    raise_if (ltb (length t) 13) radio_too_short
    command_type ← hex (slice t 8 12) 4
    let payload = upper (inner 12 t)
    command_frame command_type payload

  abbrev pub named : Kind → Text → Frame
  named kind value = record {
    kind = kind;
    command_type = none;
    payload = [];
    fields = ("value", text value) ∷ [];
  }

  -- The tests of `decode_frame` on the text between its boundaries.
  unfoldable pub plain_frame : Text → Result FrameError Frame
  plain_frame t =
      if same_text t (codes "{a}")
      then ok (bare ack none)
      else if same_text t (codes "{f}")
      then ok (bare forward none)
      else if starts_with t (codes "{g")
      then ok (named stick_name (inner 2 t))
      else if starts_with t (codes "{v")
      then ok (named stick_version (inner 2 t))
      else if not (starts_with t (codes "{r"))
      then ok (bare unknown none)
      else decode_radio t

  -- `decode_frame` of a `str`
  unfoldable pub decode_text : Text → Result FrameError Frame
  decode_text t = do
    raise_if (ltb 8_192 (length t)) too_long
    raise_if (not (get_or t 0 0 == 0x7B) || not (get_or t (length t - 1) 0 == 0x7D)) no_boundary
    plain_frame t

  -- `decode_frame` of `bytes`
  unfoldable pub decode_frame : Bytes → Result FrameError Frame
  decode_frame raw = do raise_if (any (λ b. leb 128 b) raw) not_ascii; decode_text raw
