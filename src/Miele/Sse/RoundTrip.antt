-- ===== src/Miele/Sse/RoundTrip.antt =====
-- What is written as events is read back.
use mathlib.Core.List.{append_assoc, append-nil}
use hedp.Prelude.{
  ℕ, ◌+◌, ◌≤◌, ◌<◌, ◌≡◌, refl, sym, ap, ◌∙◌, subst, false, none, some, List, [], ◌∷◌, ◌++◌, map,
  arith, ◌==◌, length, All, length-append, ok, bind_returns, ◌>>=◌,
}
use hedp.Prelude.Texts.{codes}
use hedp.Miele.Sse.{
  Text, Line, text, object, Decoder, SseEvent, Limits, Pending, idle, utf8_length, join_lines,
  make_event, dispatch, add_data, read_field, read_parts, read_line, step, parse_lines, parse_sse,
}
use hedp.Miele.Sse.Events.{total_bytes, run, parse_lines-run}

-- An event as a server writes it: a name, and at least one data line.
pub record Written (P : Type 0) : Type 0 where
  pub name : Text
  pub first : Text
  pub more : List Text
  pub payload : P

abbrev pub data_line : Text → Line
data_line d = text (codes "data: " ++ d)

abbrev pub event_lines : {P : Type 0} → Written P → List Line
event_lines w =
    text (codes "event: " ++ w.name) ∷ (map data_line (w.first ∷ w.more) ++ text [] ∷ [])

abbrev pub transcript : {P : Type 0} → List (Written P) → List Line
transcript [] = []
transcript (w ∷ ws) = event_lines w ++ transcript ws

abbrev pub event_of : {P : Type 0} → Written P → SseEvent P
event_of w = record { name = w.name; payload = w.payload }

module _ {P : Type 0} (decoder : Decoder P) (limits : Limits) where
  -- The event is within the limits, and its data lines are the JSON of its payload.
  pub record Fits (w : Written P) : Type 0 where
    pub lines : length (w.first ∷ w.more) ≤ limits.max_data_lines
    pub size : ℕ
    pub bytes : total_bytes (w.first ∷ w.more) ≡ ok size
    pub within : size ≤ limits.max_event_bytes
    pub json : decoder.loads (join_lines (w.first ∷ w.more)) ≡ some (object w.payload)

  run-append :
      (p q r : Pending) (front rest : List Line) (es fs : List (SseEvent P))
      → run decoder limits p front ≡ ok (es, q)
      → run decoder limits q rest ≡ ok (fs, r)
      → run decoder limits p (front ++ rest) ≡ ok (es ++ fs, r)
  unfolding run
  run-append p q r [] rest es fs h k =
      let same : p ≡ q = cc in
      let no_events : [] ≡ es = cc in
      subst (λ (s : Pending). run decoder limits s rest ≡ ok (es ++ fs, r)) (sym same)
        (k ∙ ap (λ (xs : List (SseEvent P)). ok (xs ++ fs, r)) no_events)
  run-append p q r (line ∷ front) rest es fs h k =
      let ((now, s), first, h1) = bind_returns (step decoder limits p line) _ h in
      let ((later, t), others, h2) = bind_returns (run decoder limits s front) _ h1 in
      let same : t ≡ q = cc in
      let all : now ++ later ≡ es = cc in
      let ih =
        run-append s t r front rest later fs others
          (subst (λ (u : Pending). run decoder limits u rest ≡ ok (fs, r)) (sym same) k) in
      rw (run, first, ih)
        (ap (λ (xs : List (SseEvent P)). ok (xs, r))
          (sym (append_assoc now later fs) ∙ ap (λ (xs : List (SseEvent P)). xs ++ fs) all))

  step-event :
      (p : Pending) (name : Text)
      → step decoder limits p (text (codes "event: " ++ name))
        ≡ ok (
          [],
          record { event_name = name; data_lines = p.data_lines; event_bytes = p.event_bytes },
        )
  unfolding step read_line read_parts read_field
  step-event p name = refl

  step-data :
      (p : Pending) (d : Text)
      → step decoder limits p (data_line d) ≡ (add_data decoder limits p d >>= λ q. ok ([], q))
  unfolding step read_line read_parts read_field
  step-data p d = refl

  abbrev pending : Text → List Text → ℕ → Pending
  pending name ds n = record { event_name = name; data_lines = ds; event_bytes = n }

  add_data-fits :
      (p : Pending) (d : Text) (a : ℕ)
      → utf8_length d ≡ ok a
      → length p.data_lines + 1 ≤ limits.max_data_lines
      → p.event_bytes + a ≤ limits.max_event_bytes
      → add_data decoder limits p d
        ≡ ok (pending p.event_name (p.data_lines ++ d ∷ []) (p.event_bytes + a))
  unfolding add_data
  add_data-fits p d a h lines bytes = ground arith

  run-data :
      (p : Pending) (ds : List Text) (n : ℕ)
      → total_bytes ds ≡ ok n
      → length p.data_lines + length ds ≤ limits.max_data_lines
      → p.event_bytes + n ≤ limits.max_event_bytes
      → run decoder limits p (map data_line ds)
        ≡ ok (
          [],
          record {
            event_name = p.event_name;
            data_lines = p.data_lines ++ ds;
            event_bytes = p.event_bytes + n;
          },
        )
  unfolding run
  run-data p [] n h lines bytes =
      let none_added : 0 ≡ n = cc in
      let same : p.event_bytes ≡ p.event_bytes + n = omega arith in
      λ i. ok ([], pending p.event_name (sym (append-nil p.data_lines) i) (same i))
  run-data p (d ∷ ds) n h lines bytes =
      let (a, first, h1) = bind_returns (utf8_length d) _ h in
      let (b, rest, h2) = bind_returns (total_bytes ds) _ h1 in
      let sum : a + b ≡ n = cc in
      let longer = length-append p.data_lines (d ∷ []) in
      let q = pending p.event_name (p.data_lines ++ d ∷ []) (p.event_bytes + a) in
      let added = add_data-fits p d a first (omega arith) (omega arith) in
      let others = run-data q ds b rest (omega arith) (omega arith) in
      let total : p.event_bytes + a + b ≡ p.event_bytes + n = omega arith in
      rw (run, step-data p d, added, others)
        (λ i. ok ([], pending p.event_name (append_assoc p.data_lines (d ∷ []) ds i) (total i)))

  make_event-json :
      (w : Written P) (fits : Fits w)
      → make_event decoder limits w.name (w.first ∷ w.more) ≡ ok (event_of w)
  unfolding make_event
  make_event-json w fits = (let decoded = fits.json in rw (make_event, decoded) refl)

  run-blank :
      (w : Written P) (fits : Fits w)
      → run decoder limits (pending w.name (w.first ∷ w.more) fits.size) (text [] ∷ [])
        ≡ ok (event_of w ∷ [], idle)
  unfolding run step dispatch
  run-blank w fits = rw (run, step, dispatch, make_event-json w fits) refl

  -- One event, and the variables are as at the start.
  run-event :
      (w : Written P)
      → Fits w
      → run decoder limits idle (event_lines w) ≡ ok (event_of w ∷ [], idle)
  unfolding run
  run-event w fits =
      let counted =
        run-data (pending w.name [] 0) (w.first ∷ w.more) fits.size fits.bytes
          (let l = fits.lines in omega arith) (let b = fits.within in omega arith) in
      let from_zero : 0 + fits.size ≡ fits.size = omega arith in
      let block =
        subst
          (λ (n : ℕ).
            run decoder limits (pending w.name [] 0) (map data_line (w.first ∷ w.more))
            ≡ ok ([], pending w.name (w.first ∷ w.more) n))
          from_zero counted in
      let blank = run-blank w fits in
      rw
        (
          run,
          step-event idle w.name,
          run-append (pending w.name [] 0) (pending w.name (w.first ∷ w.more) fits.size) idle
              (map data_line (w.first ∷ w.more)) (text [] ∷ []) [] (event_of w ∷ []) block blank,
        )
        refl

  run-transcript :
      (ws : List (Written P))
      → All Fits ws
      → run decoder limits idle (transcript ws) ≡ ok (map event_of ws, idle)
  unfolding run
  run-transcript [] h = refl
  run-transcript (w ∷ ws) h =
      run-append idle idle idle (event_lines w) (transcript ws) (event_of w ∷ []) (map event_of ws)
        (run-event w h.0) (run-transcript ws h.1)

  -- A transcript of events that fit the limits, which are not 0, is parsed to those events, in order and
  -- without an error.
  pub parse_sse-transcript :
      (ws : List (Written P))
      → 0 < limits.max_event_bytes
      → 0 < limits.max_data_lines
      → All Fits ws
      → parse_sse decoder limits (transcript ws) ≡ (map event_of ws, none)
  unfolding parse_sse parse_lines dispatch
  parse_sse-transcript ws some_bytes some_lines h =
      let no_bytes : (limits.max_event_bytes == 0) ≡ false = ground arith in
      let no_lines : (limits.max_data_lines == 0) ≡ false = ground arith in
      let read =
        parse_lines-run decoder limits idle idle (transcript ws) [] (map event_of ws)
          (run-transcript ws h) in
      rw (parse_sse, no_bytes, no_lines)
        (ap (parse_lines decoder limits idle) (sym (append-nil (transcript ws))) ∙ read ∙ λ i.
          (append-nil (map (event_of {P = P}) ws) i, none))
