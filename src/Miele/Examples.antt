-- ===== src/Miele/Examples.antt =====
-- Runs of the event parser, and the theorems at them. JSON is stood for by its text.
use hedp.Prelude.{◌≡◌, refl, none, some, List, [], ◌∷◌, map, arith, ok}
use hedp.Prelude.Texts.{codes}
use hedp.Miele.Sse.{
  Text, text, object, Decoder, Limits, Pending, idle, utf8_length, dispatch, make_event, add_data,
  read_field, read_parts, read_line, step, parse_lines, parse_sse, too_many_data_lines,
}
use hedp.Miele.Sse.Events.{run}
use hedp.Miele.Sse.RoundTrip.{Written, event_of, transcript, parse_sse-transcript}

abbrev decoder : Decoder Text
decoder = record { utf8 = λ b. some b; loads = λ t. some (object t) }

abbrev limits : Limits
limits = record { max_event_bytes = 20; max_data_lines = 2 }

abbrev written : List (Written Text)
written =
    record {
      name = codes "devices";
      first = codes "{";
      more = codes "}" ∷ [];
      payload = codes "{\n}";
    }
    ∷ record { name = codes "ping"; first = codes "{}"; more = []; payload = codes "{}" }
    ∷ []

parse-comment :
    parse_sse decoder limits
      (text (codes ": ready") ∷ text (codes "data:{}") ∷ text (codes "retry: 5") ∷ [])
    ≡ (record { name = codes "message"; payload = codes "{}" } ∷ [], none)
unfolding parse_sse parse_lines step read_line read_parts read_field add_data utf8_length dispatch
    make_event
parse-comment = refl

parse-exceeded :
    parse_sse decoder limits (
      text (codes "data: 1")
      ∷ text []
      ∷ text (codes "data: 2")
      ∷ text (codes "data: 3")
      ∷ text (codes "data: 4")
      ∷ [])
    ≡ (record { name = codes "message"; payload = codes "1" } ∷ [], some too_many_data_lines)
unfolding parse_sse parse_lines step read_line read_parts read_field add_data utf8_length dispatch
    make_event
parse-exceeded = refl

abbrev half : Pending
half = record { event_name = codes "message"; data_lines = codes "1" ∷ []; event_bytes = 1 }

run-half : run decoder limits idle (text (codes "data: 1") ∷ []) ≡ ok ([], half)
unfolding run step read_line read_parts read_field add_data utf8_length
run-half = refl

parse_sse-transcript_example :
    parse_sse decoder limits (transcript written) ≡ (map (event_of {P = Text}) written, none)
unfolding utf8_length
parse_sse-transcript_example =
    parse_sse-transcript decoder limits written (omega arith) (omega arith) (
      record { lines = omega arith; size = 2; bytes = refl; within = omega arith; json = refl },
      (
        record { lines = omega arith; size = 2; bytes = refl; within = omega arith; json = refl },
        tt,
      ),
    )
