-- ===== src/SmartLedz/Framing/Examples.antt =====
-- Runs of the framing code on small messages, and its theorems at those messages.
use mathlib.Core.List.{Permᴰ}
use hedp.Prelude.{
  ◌≤◌, ◌*◌, ◌≡◌, ◌≢◌, ◌↔◌, refl, true, false, some, List, [], ◌∷◌, arith, length, All, ok, err,
}
use hedp.Prelude.Bytes.{Bytes}
use hedp.Prelude.Int.{pos, negsuc, ◌≤ℤ◌}
use hedp.Prelude.Sorting.{sorted}
use hedp.SmartLedz.Framing.{
  Frame, flags_of, fragment_frame, encode_frames, decode_frame, decode_short, reassemble,
  reassemble_fragments, join, by_index, indexes_from, request_id_out_of_range, fragment_size,
  incomplete, indexes_wrong, length_mismatch,
}
use hedp.SmartLedz.Framing.Decoding.{whole, fragment}
use hedp.SmartLedz.Framing.Fragments.{decode_all}
use hedp.SmartLedz.Framing.RoundTrip.{reassemble-encode_frames}
use hedp.SmartLedz.Framing.Bounds.{encode_frames-accepts}
use hedp.SmartLedz.Framing.Rejects.{AgreesWith, reassemble_sound, lone_fragment_unchecked}

abbrev message : Bytes
message = 10 ∷ 20 ∷ 30 ∷ []

abbrev wire : List Bytes
wire = (0xCC ∷ 0x45 ∷ 0 ∷ 3 ∷ 10 ∷ 20 ∷ 30 ∷ 0xAA ∷ []) ∷ []

encode-message : encode_frames message (pos 5) true ≡ ok wire
unfolding encode_frames
encode-message = refl

decode-wire : decode_all wire ≡ ok (whole 5 true message ∷ [])
unfolding decode_frame decode_short
decode-wire = refl

encode-out_of_range :
    (encode_frames message (pos 64) true ≡ err request_id_out_of_range)
    × (encode_frames message (negsuc 0) true ≡ err request_id_out_of_range)
unfolding encode_frames
encode-out_of_range = (refl, refl)

decode-mismatch : decode_frame (0xCC ∷ 5 ∷ 0 ∷ 2 ∷ 10 ∷ 0xAA ∷ []) ≡ err length_mismatch
unfolding decode_frame decode_short
decode-mismatch = refl

abbrev first_half : Frame
first_half = fragment 9 false 2 3 0 (1 ∷ 2 ∷ [])

abbrev second_half : Frame
second_half = fragment 9 false 2 3 1 (3 ∷ [])

reassemble-swapped : reassemble (second_half ∷ first_half ∷ []) ≡ ok (1 ∷ 2 ∷ 3 ∷ [])
unfolding reassemble reassemble_fragments sorted
reassemble-swapped = refl

reassemble-lost : reassemble (second_half ∷ []) ≡ err incomplete
unfolding reassemble reassemble_fragments sorted
reassemble-lost = refl

reassemble-doubled : reassemble (second_half ∷ second_half ∷ []) ≡ err indexes_wrong
unfolding reassemble reassemble_fragments sorted
reassemble-doubled = refl

reassemble-encode_frames_example :
    (frames : List Frame) × (decode_all wire ≡ ok frames) × (reassemble frames ≡ ok message)
reassemble-encode_frames_example =
    reassemble-encode_frames message (pos 5) true encode-message (Permᴰ.cons refl Permᴰ.nil)

encode_frames-accepts_example :
    ((raws : List Bytes) × (encode_frames message (pos 5) true ≡ ok raws))
    ↔ ((pos 0 ≤ℤ pos 5) × (pos 5 ≤ℤ pos 63) × (length message ≤ 255 * fragment_size))
encode_frames-accepts_example = encode_frames-accepts message (pos 5) true

reassemble_sound_example :
    All (AgreesWith second_half) (second_half ∷ first_half ∷ [])
    × (length (second_half ∷ first_half ∷ []) ≡ second_half.fragment_count)
    × (indexes_from 0 (sorted by_index (second_half ∷ first_half ∷ [])) ≡ true)
    × (1 ∷ 2 ∷ 3 ∷ [] ≡ join (sorted by_index (second_half ∷ first_half ∷ [])))
    × (second_half.total_length ≡ some 3)
reassemble_sound_example = reassemble_sound second_half first_half [] reassemble-swapped

lone_fragment_unchecked_example :
    (f : Frame) × (decode_frame (fragment_frame (flags_of 5 false) 0 1 99 message) ≡ ok f)
    × (f.total_length ≢ some (length f.payload))
    × (reassemble (f ∷ []) ≡ ok message)
lone_fragment_unchecked_example =
    lone_fragment_unchecked 5 false 99 message (omega arith) (omega arith) (omega arith)
      (omega arith) (omega arith)
