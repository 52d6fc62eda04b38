-- ===== src/Miele/Sse/Events.antt =====
-- A transcript is parsed event by event: what comes before an event does not change it, the limits
-- hold for every event, and what is written as events is read back.
use mathlib.Core.List.{append_assoc}
use hedp.Prelude.{
  ℕ, ◌+◌, ◌≤◌, ◌≡◌, refl, sym, ap, ◌∙◌, subst, Bool-cases, inl, inr, Option, none, some, List, [],
  ◌∷◌, ◌++◌, arith, ◌==◌, length, length-append, Result, ok, bind_returns, ◌>>=◌,
}
use hedp.Prelude.Texts.{codes}
use hedp.Miele.Sse.{
  Text, SseError, Line, Decoder, SseEvent, Limits, Pending, idle, utf8_length, dispatch, add_data,
  read_field, read_parts, read_line, decode_line, step, parse_lines, same_text, without_space,
  is_empty,
}

-- The bytes of all data lines in UTF-8.
abbrev pub total_bytes : List Text → Result SseError ℕ
total_bytes [] = ok 0
total_bytes (l ∷ ls) = do n ← utf8_length l; rest ← total_bytes ls; ok (n + rest)

total_bytes-append :
    (ls : List Text) (l : Text) (n m : ℕ)
    → total_bytes ls ≡ ok n
    → utf8_length l ≡ ok m
    → total_bytes (ls ++ l ∷ []) ≡ ok (n + m)
total_bytes-append [] l n m h e = ground arith
total_bytes-append (k ∷ ls) l n m h e =
    let (a, first, h1) = bind_returns (utf8_length k) _ h in
    let (b, rest, h2) = bind_returns (total_bytes ls) _ h1 in
    let ih = total_bytes-append ls l b m rest e in
    let sum : a + (b + m) ≡ n + m = ground arith in rw (first, ih) (ap (λ (k : ℕ). ok k) sum)

-- The lines of an event that is pending are within the limits, and their bytes have been counted.
pub record IsBounded (limits : Limits) (p : Pending) : Type 0 where
  pub lines : length p.data_lines ≤ limits.max_data_lines
  pub bytes : p.event_bytes ≤ limits.max_event_bytes
  pub counted : total_bytes p.data_lines ≡ ok p.event_bytes

module _ {P : Type 0} (decoder : Decoder P) (limits : Limits) where
  add_data-added :
      (p q : Pending) (value : Text)
      → add_data decoder limits p value ≡ ok q
      → (size : ℕ) × (utf8_length value ≡ ok size)
        × (length p.data_lines + 1 ≤ limits.max_data_lines)
        × (p.event_bytes + size ≤ limits.max_event_bytes)
        × (record {
          event_name = p.event_name;
          data_lines = p.data_lines ++ value ∷ [];
          event_bytes = p.event_bytes + size;
        }
            ≡ q)
  unfolding add_data
  add_data-added p q value h =
      let (size, e, h1) = bind_returns (utf8_length value) _ h in
      (size, e, ground arith, ground arith, ground arith)

  add_data-IsBounded :
      (p q : Pending) (value : Text)
      → IsBounded limits p
      → add_data decoder limits p value ≡ ok q
      → IsBounded limits q
  add_data-IsBounded p q value b h =
      let (size, e, lines, bytes, same) = add_data-added p q value h in
      let longer = length-append p.data_lines (value ∷ []) in
      subst (IsBounded limits) same (record {
        lines = omega arith;
        bytes = bytes;
        counted = total_bytes-append p.data_lines value p.event_bytes size b.counted e;
      })

  renamed-IsBounded :
      (p : Pending) (name : Text)
      → IsBounded limits p
      → IsBounded limits
          (record { event_name = name; data_lines = p.data_lines; event_bytes = p.event_bytes })
  renamed-IsBounded p name b = record { lines = b.lines; bytes = b.bytes; counted = b.counted }

  read_field-IsBounded :
      (p q : Pending) (field value : Text)
      → IsBounded limits p
      → read_field decoder limits p field value ≡ ok q
      → IsBounded limits q
  unfolding read_field
  read_field-IsBounded p q field value b h = elim (Bool-cases (same_text field (codes "event"))) [
    | inl event ↦
        let same : record {
          event_name = value;
          data_lines = p.data_lines;
          event_bytes = p.event_bytes;
        }
            ≡ q =
          (let e = rw (read_field, event) at h in cc) in
        subst (IsBounded limits) same (renamed-IsBounded p value b)
    | inr other ↦ elim (Bool-cases (same_text field (codes "data"))) [
      | inl is_data ↦ add_data-IsBounded p q value b (rw (read_field, other, is_data) at h)
      | inr ignored ↦
          let same : p ≡ q = (let e = rw (read_field, other, ignored) at h in cc) in
          subst (IsBounded limits) same b
    ]
  ]

  read_parts-IsBounded :
      (p q : Pending) (parts : Option (Text × Text))
      → IsBounded limits p
      → read_parts decoder limits p parts ≡ ok q
      → IsBounded limits q
  unfolding read_parts
  read_parts-IsBounded p q none b h = (let same : p ≡ q = cc in subst (IsBounded limits) same b)
  read_parts-IsBounded p q (some (field, value)) b h =
      read_field-IsBounded p q field (without_space value) b h

  read_line-IsBounded :
      (p q : Pending) (line : Text)
      → IsBounded limits p
      → read_line decoder limits p line ≡ ok q
      → IsBounded limits q
  unfolding read_line
  read_line-IsBounded p q [] b h = (let same : p ≡ q = cc in subst (IsBounded limits) same b)
  read_line-IsBounded p q (c ∷ cs) b h = elim (Bool-cases (c == 0x3A)) [
    | inl comment ↦
        let same : p ≡ q = (let e = rw (read_line, comment) at h in cc) in
        subst (IsBounded limits) same b
    | inr field ↦ read_parts-IsBounded p q _ b (rw (read_line, field) at h)
  ]

  idle-IsBounded : IsBounded limits idle
  idle-IsBounded = record { lines = omega arith; bytes = omega arith; counted = refl }

  step-IsBounded :
      (p q : Pending) (line : Line) (events : List (SseEvent P))
      → IsBounded limits p
      → step decoder limits p line ≡ ok (events, q)
      → IsBounded limits q
  unfolding step
  step-IsBounded p q line events b h =
      let (t, decoded, h1) = bind_returns (decode_line decoder limits line) _ h in
      elim (Bool-cases (is_empty t)) [
        | inl blank ↦
            let (es, _, h2) = bind_returns (dispatch decoder limits p) _ (rw blank at h1) in
            let same : idle ≡ q = cc in subst (IsBounded limits) same idle-IsBounded
        | inr more ↦
            let (r, read, h2) = bind_returns (read_line decoder limits p t) _ (rw more at h1) in
            let same : r ≡ q = cc in
            subst (IsBounded limits) same (read_line-IsBounded p r t b read)
      ]

  -- The loop alone: the events it yields, and its variables after it.
  unfoldable pub run : Pending → List Line → Result SseError (List (SseEvent P) × Pending)
  run p [] = ok ([], p)
  run p (line ∷ lines) = do
    (events, q) ← step decoder limits p line
    (later, r) ← run q lines
    ok (events ++ later, r)

  -- Whatever lines have been read without an error, starting within the limits, the event that is
  -- pending is within them: no more data lines and no more bytes of UTF-8 than they allow, and
  -- `event_bytes` is the bytes of its data lines.
  pub run-IsBounded :
      (p q : Pending) (lines : List Line) (events : List (SseEvent P))
      → IsBounded limits p
      → run p lines ≡ ok (events, q)
      → IsBounded limits q
  unfolding run
  run-IsBounded p q [] events b h = (let same : p ≡ q = cc in subst (IsBounded limits) same b)
  run-IsBounded p q (line ∷ lines) events b h =
      let ((now, r), first, h1) = bind_returns (step decoder limits p line) _ h in
      let ((later, s), rest, h2) = bind_returns (run r lines) _ h1 in
      let same : s ≡ q = cc in
      subst (IsBounded limits) same
        (run-IsBounded r s lines later (step-IsBounded p r line now b first) rest)

  -- What is parsed of a transcript is what its front yields, and then what its rest yields from the
  -- variables that the front leaves.
  pub parse_lines-run :
      (p q : Pending) (front rest : List Line) (events : List (SseEvent P))
      → run p front ≡ ok (events, q)
      → parse_lines decoder limits p (front ++ rest)
        ≡ (events ++ (parse_lines decoder limits q rest).0, (parse_lines decoder limits q rest).1)
  unfolding run parse_lines
  parse_lines-run p q [] rest events h =
      let same : p ≡ q = cc in
      let no_events : [] ≡ events = cc in
      λ i. (
        no_events i ++ (parse_lines decoder limits (same i) rest).0,
        (parse_lines decoder limits (same i) rest).1,
      )
  parse_lines-run p q (line ∷ front) rest events h =
      let ((now, r), first, h1) = bind_returns (step decoder limits p line) _ h in
      let ((later, s), others, h2) = bind_returns (run r front) _ h1 in
      let same : s ≡ q = cc in
      let all : now ++ later ≡ events = cc in
      let ih = parse_lines-run r s front rest later others in
      let tail = parse_lines decoder limits s rest in
      let joined : now ++ (later ++ tail.0) ≡ events ++ tail.0 =
        sym (append_assoc now later tail.0) ∙ ap (λ (es : List (SseEvent P)). es ++ tail.0) all in
      let moved : ◌≡◌ {A = List (SseEvent P) × Option SseError} (events ++ tail.0, tail.1)
          (events ++ (parse_lines decoder limits q rest).0, (parse_lines decoder limits q rest).1) =
        λ i. (
          events ++ (parse_lines decoder limits (same i) rest).0,
          (parse_lines decoder limits (same i) rest).1,
        ) in
      rw (parse_lines, first, ih) ((λ i. (joined i, tail.1)) ∙ moved)
