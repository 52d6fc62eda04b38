-- ===== src/Warema/Stream.antt =====
-- src/hedp/adapters/warema/protocol.py: `FrameStream`, which cuts what arrives into frames.
pub mod Drain
pub mod Chunks
use hedp.Prelude.{
  ℕ, zero, suc, Bool, true, false, Option, none, some, List, [], ◌∷◌, ◌++◌, ltb, ◌==◌,
  if◌then◌else◌, length, Result, ok, err, raise_if, ◌>>=◌, ◌>>◌,
}
use hedp.Prelude.Bytes.{Bytes}
use hedp.Prelude.Int.{ℤ, pos, pos_part, leb_ℤ}
use hedp.Warema.Protocol.{Text, Frame, FrameError, buffer_exceeded, bad_max_buffer, decode_frame}

pub record FrameStream : Type 0 where
  pub buffer : Bytes
  pub max_buffer : ℕ

-- `__init__`
unfoldable pub make_stream : ℤ → Result FrameError FrameStream
make_stream max_buffer = do
  raise_if (leb_ℤ max_buffer (pos 0)) bad_max_buffer
  ok (record { buffer = []; max_buffer = pos_part max_buffer })

-- The bytes up to the first `}`, it included, and those after it.
unfoldable pub split_close : Bytes → Option (Bytes × Bytes)
split_close [] = none
split_close (b ∷ bs) =
    if b == 0x7D
    then some (b ∷ [], bs)
    else elim (split_close bs) [ none ↦ none | some (candidate, rest) ↦ some (b ∷ candidate, rest) ]

-- The bytes from the first `{` on.
unfoldable pub from_open : Bytes → Option Bytes
from_open [] = none
from_open (b ∷ bs) = let later = from_open bs in if b == 0x7B then some (b ∷ bs) else later

abbrev pub with_buffer : FrameStream → Bytes → FrameStream
with_buffer s buffer = record { buffer = buffer; max_buffer = s.max_buffer }

module _ (upper_other : ℕ → Text) where
  -- One round of `feed`: the frame of the candidate, before what the further rounds return or raise. A
  -- frame that is refused ends the loop, and leaves the bytes after it.
  unfoldable pub add_frame :
      Bytes
      → Bytes
      → Result FrameError (List Frame) × Bytes
      → Result FrameError (List Frame) × Bytes
  add_frame candidate rest further = elim (from_open candidate) [
    | none ↦ further
    | some raw ↦ elim (decode_frame upper_other raw) [
      | err e ↦ (err e, rest)
      | ok f ↦ (further.0 >>= λ fs. ok (f ∷ fs), further.1)
    ]
  ]

  -- The loop of `feed`, with a bound on its rounds: each takes a byte at least.
  unfoldable pub drain : ℕ → Bytes → Result FrameError (List Frame) × Bytes
  drain zero buffer = (ok [], buffer)
  drain (suc rounds) buffer = elim (split_close buffer) [
    | none ↦ (ok [], buffer)
    | some (candidate, rest) ↦ add_frame candidate rest (drain rounds rest)
  ]

  -- `feed`: what it returns or raises, and the stream after it.
  unfoldable pub feed : FrameStream → Bytes → Result FrameError (List Frame) × FrameStream
  feed s chunk =
      let buffer = s.buffer ++ chunk in
      if ltb s.max_buffer (length buffer)
      then (err buffer_exceeded, with_buffer s [])
      else let (frames, last) = drain (length buffer) buffer in (frames, with_buffer s last)
