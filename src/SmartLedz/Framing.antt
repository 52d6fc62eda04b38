-- ===== src/SmartLedz/Framing.antt =====
-- src/hedp/adapters/smartledz/framing.py: frames of one message, whole or cut into fragments.
-- The type checks on the arguments are the types here; a request ID may still be negative.
mod Slices
mod Flags
mod Decoding
mod Fragments
mod Reassembly
pub mod RoundTrip
pub mod Rejects
pub mod Bounds
mod Examples
use Prim.Native.Nat.{bit_and, bit_or}
use hedp.Prelude.{
  ℕ, zero, suc, ◌+◌, ◌-◌, ◌*◌, ◌/◌, Bool, true, false, not, ◌&&◌, ◌||◌, Option, none, some, List,
  [], ◌∷◌, ◌++◌, map, ltb, leb, ◌==◌, if◌then◌else◌, length, get_or, take, drop, slice, any, Result,
  ok, err, raise_if, ◌>>=◌, ◌>>◌,
}
use hedp.Prelude.Bytes.{Bytes, to_bytes, from_bytes}
use hedp.Prelude.Int.{ℤ, pos, pos_part, leb_ℤ}
use hedp.Prelude.Sorting.{sorted}

abbrev pub start : ℕ
start = 0xCC

abbrev pub end : ℕ
end = 0xAA

abbrev pub fragmented_flag : ℕ
fragmented_flag = 0x80

abbrev pub notification_flag : ℕ
notification_flag = 0x40

abbrev pub request_id_mask : ℕ
request_id_mask = 0x3F

abbrev pub short_limit : ℕ
short_limit = 65_501

abbrev pub fragment_size : ℕ
fragment_size = 65_493

-- One constructor for each message of `FrameError`.
pub data FrameError : Type 0 where
  too_short invalid_boundary fragment_too_short invalid_position invalid_fragment_length :
      FrameError
  length_mismatch no_frames mixed ids_differ flags_differ counts_differ totals_differ : FrameError
  incomplete indexes_wrong total_mismatch : FrameError

-- The two `ValueError`s of `encode_frames`.
pub data EncodeError : Type 0 where
  request_id_out_of_range too_many_fragments : EncodeError

pub record Frame : Type 0 where
  pub request_id : ℕ
  pub payload : Bytes
  pub notification : Bool
  pub fragment_index : ℕ
  pub fragment_count : ℕ
  pub total_length : Option ℕ

-- `Frame.fragmented`
abbrev pub fragmented : Frame → Bool
fragmented f = ltb 1 f.fragment_count

-- The offsets of `range(0, total, size)`: `count` of them, from `offset` on.
abbrev pub offsets : ℕ → ℕ → ℕ → List ℕ
offsets size zero offset = []
offsets size (suc count) offset = offset ∷ offsets size count (offset + size)

unfoldable pub chunks : Bytes → List Bytes
chunks payload =
    map (λ offset. slice payload offset (offset + fragment_size))
      (offsets fragment_size ((length payload + fragment_size - 1) / fragment_size) 0)

abbrev pub short_frame : ℕ → Bytes → Bytes
short_frame flags payload = start ∷ flags ∷ (to_bytes 2 (length payload) ++ payload ++ end ∷ [])

abbrev pub fragment_frame : ℕ → ℕ → ℕ → ℕ → Bytes → Bytes
fragment_frame flags index count total chunk =
    start ∷ bit_or flags fragmented_flag ∷ index ∷ count ∷ (to_bytes 4 total ++ chunk ++ end ∷ [])

-- The generator over `enumerate(chunks)`.
abbrev pub fragment_frames : ℕ → ℕ → ℕ → ℕ → List Bytes → List Bytes
fragment_frames flags count total index [] = []
fragment_frames flags count total index (chunk ∷ rest) =
    fragment_frame flags index count total chunk
    ∷ fragment_frames flags count total (index + 1) rest

abbrev pub flags_of : ℕ → Bool → ℕ
flags_of request_id notification = bit_or request_id (if notification then notification_flag else 0)

unfoldable pub encode_frames : Bytes → ℤ → Bool → Result EncodeError (List Bytes)
encode_frames payload request_id notification = do
  raise_if (not (leb_ℤ (pos 0) request_id && leb_ℤ request_id (pos request_id_mask)))
      request_id_out_of_range
  let flags = flags_of (pos_part request_id) notification
  if ltb (length payload) short_limit then ok (short_frame flags payload ∷ []) else do
    raise_if (ltb 255 (length (chunks payload))) too_many_fragments
    ok (fragment_frames flags (length (chunks payload)) (length payload) 0 (chunks payload))

abbrev pub has_flag : ℕ → ℕ → Bool
has_flag flags mask = not (bit_and flags mask == 0)

-- The checks on the fields of a fragment, in the order of the source.
unfoldable pub check_fragment : ℕ → ℕ → ℕ → ℕ → Bytes → Result FrameError Frame
check_fragment flags index count total_length payload = do
  raise_if (count == 0 || leb count index) invalid_position
  raise_if (total_length == 0 || ltb fragment_size (length payload)) invalid_fragment_length
  ok (record {
    request_id = bit_and flags request_id_mask;
    payload = payload;
    notification = has_flag flags notification_flag;
    fragment_index = index;
    fragment_count = count;
    total_length = some total_length;
  })

-- The branch of `decode_frame` for a frame with the fragment flag.
unfoldable pub decode_fragment : Bytes → Result FrameError Frame
decode_fragment raw = do
  raise_if (ltb (length raw) 9) fragment_too_short
  check_fragment (get_or raw 1 0) (get_or raw 2 0) (get_or raw 3 0) (from_bytes (slice raw 4 8))
      (slice raw 8 (length raw - 1))

-- The branch for a whole message in one frame.
unfoldable pub decode_short : Bytes → Result FrameError Frame
decode_short raw = do
  let payload = slice raw 4 (length raw - 1)
  raise_if (not (length payload == from_bytes (slice raw 2 4))) length_mismatch
  ok (record {
    request_id = bit_and (get_or raw 1 0) request_id_mask;
    payload = payload;
    notification = has_flag (get_or raw 1 0) notification_flag;
    fragment_index = 0;
    fragment_count = 1;
    total_length = none;
  })

unfoldable pub decode_frame : Bytes → Result FrameError Frame
decode_frame raw = do
  raise_if (ltb (length raw) 5) too_short
  raise_if (not (get_or raw 0 0 == start) || not (get_or raw (length raw - 1) 0 == end))
      invalid_boundary
  if has_flag (get_or raw 1 0) fragmented_flag then decode_fragment raw else decode_short raw

abbrev pub same_bool : Bool → Bool → Bool
same_bool true b = b
same_bool false b = not b

-- `==` on `int | None`
abbrev pub same_length : Option ℕ → Option ℕ → Bool
same_length none none = true
same_length (some a) (some b) = a == b
same_length _ _ = false

-- `[frame.fragment_index for frame in ordered] == list(range(start, …))`
abbrev pub indexes_from : ℕ → List Frame → Bool
indexes_from i [] = true
indexes_from i (f ∷ fs) = f.fragment_index == i && indexes_from (i + 1) fs

-- `b"".join(frame.payload for frame in ordered)`
abbrev pub join : List Frame → Bytes
join [] = []
join (f ∷ fs) = f.payload ++ join fs

abbrev pub by_index : Frame → ℕ
by_index f = f.fragment_index

-- What `reassemble` does with more than one frame, or with a fragment alone.
unfoldable pub reassemble_fragments : Frame → List Frame → Result FrameError Bytes
reassemble_fragments first frames = do
  raise_if (any (λ f. not (fragmented f)) frames) mixed
  raise_if (any (λ f. not (f.request_id == first.request_id)) frames) ids_differ
  raise_if (any (λ f. not (same_bool f.notification first.notification)) frames) flags_differ
  raise_if (any (λ f. not (f.fragment_count == first.fragment_count)) frames) counts_differ
  raise_if (any (λ f. not (same_length f.total_length first.total_length)) frames) totals_differ
  raise_if (not (length frames == first.fragment_count)) incomplete
  let ordered = sorted by_index frames
  raise_if (not (indexes_from 0 ordered)) indexes_wrong
  let payload = join ordered
  raise_if (not (same_length (some (length payload)) first.total_length)) total_mismatch
  ok payload

unfoldable pub reassemble : List Frame → Result FrameError Bytes
reassemble [] = err no_frames
reassemble (first ∷ rest) =
    if length (first ∷ rest) == 1 && not (fragmented first)
    then ok first.payload
    else reassemble_fragments first (first ∷ rest)
