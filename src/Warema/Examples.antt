-- ===== src/Warema/Examples.antt =====
-- Runs of the WMS frames and of a stream, and the theorems at them.
use hedp.Prelude.{ℕ, ◌≡◌, refl, true, none, some, [], ◌∷◌, arith, ok, err}
use hedp.Prelude.Int.{pos, negsuc}
use hedp.Prelude.Texts.{codes}
use hedp.Warema.Protocol.{
  Text, height, angle, hex, decode_frame, decode_text, plain_frame, decode_radio, command_frame,
  state_frame, ack, forward, bare, no_boundary, state, percent, flag, text,
}
use hedp.Warema.Stream.{FrameStream, split_close, from_open, add_frame, drain, feed}
use hedp.Warema.Stream.Chunks.{feed-append}

-- No character beyond ASCII has another upper case here.
abbrev same : ℕ → Text
same c = c ∷ []

-- 0x33 = 51: half of it is 25.5, which goes to the even 26.
height-half : height same (codes "33") ≡ ok (some (pos 26))
unfolding height hex
height-half = refl

angle-negative : angle same (codes "3c") ≡ ok (some (negsuc 88))
unfolding angle hex
angle-negative = refl

decode-state :
    decode_frame same (codes "{r123456801101000003C87FFFFF01AB}")
    ≡ ok (record {
      kind = state;
      command_type = some (codes "8011");
      payload = codes "01000003C87FFFFF01AB";
      fields =
          ("height_raw_percent", percent (some (pos 100)))
          ∷ ("angle_raw_percent", percent (some (pos 0)))
          ∷ ("moving", flag true)
          ∷ ("unknown_tail", text (codes "AB"))
          ∷ [];
    })
unfolding decode_frame decode_text plain_frame decode_radio command_frame state_frame height angle
    hex
decode-state = refl

decode-open : decode_frame same (codes "{a") ≡ err no_boundary
unfolding decode_frame decode_text
decode-open = refl

abbrev empty : FrameStream
empty = record { buffer = []; max_buffer = 100 }

abbrev after_first : FrameStream
after_first = record { buffer = codes "{"; max_buffer = 100 }

feed-first : feed same empty (codes "x{a}{") ≡ (ok (bare same ack none ∷ []), after_first)
unfolding feed drain add_frame split_close from_open decode_frame decode_text plain_frame
feed-first = refl

feed-second : feed same after_first (codes "f}") ≡ (ok (bare same forward none ∷ []), empty)
unfolding feed drain add_frame split_close from_open decode_frame decode_text plain_frame
feed-second = refl

feed-append_example :
    feed same empty (codes "x{a}{f}")
    ≡ (ok (bare same ack none ∷ bare same forward none ∷ []), empty)
feed-append_example =
    feed-append same empty after_first empty (codes "x{a}{") (codes "f}") (bare same ack none ∷ [])
      (bare same forward none ∷ []) (omega arith) feed-first feed-second
