-- ===== src/Miele/Sse.antt =====
-- src/hedp/adapters/miele/sse.py: the events of a finite transcript. A text is the list of its code
-- points; decoding UTF-8 and `json.loads` are arguments. The generator is the events that it yields
-- and the exception, if any, that ends it.
pub mod Events
pub mod RoundTrip
use hedp.Prelude.{
  ℕ, zero, suc, ◌+◌, Bool, true, false, not, ◌&&◌, ◌||◌, Option, none, some, List, [], ◌∷◌, ◌++◌,
  ltb, leb, ◌==◌, if◌then◌else◌, length, Result, ok, err, raise_if, ◌>>=◌, ◌>>◌,
}
use hedp.Prelude.Bytes.{Bytes}
use hedp.Prelude.Int.{ℤ, pos, pos_part, leb_ℤ}
use hedp.Prelude.Texts.{codes}

abbrev pub Text : Type 0
Text = List ℕ

pub data SseError : Type 0 where
  bad_limits not_utf8 too_many_data_lines too_many_bytes not_json not_an_object : SseError

pub data Line : Type 0 where
  text : Text → Line
  raw : Bytes → Line

-- The two parameters: `bytes.decode("utf-8")`, and `json.loads`, which returns a mapping or another
-- value, or raises.
pub data Json (P : Type 0) : Type 0 where
  object : P → Json P
  other_json : Json P

pub record Decoder (P : Type 0) : Type 0 where
  pub utf8 : Bytes → Option Text
  pub loads : Text → Option (Json P)

pub record SseEvent (P : Type 0) : Type 0 where
  pub name : Text
  pub payload : P

pub record Limits : Type 0 where
  pub max_event_bytes : ℕ
  pub max_data_lines : ℕ

-- The variables of the loop.
pub record Pending : Type 0 where
  pub event_name : Text
  pub data_lines : List Text
  pub event_bytes : ℕ

abbrev pub idle : Pending
idle = record { event_name = codes "message"; data_lines = []; event_bytes = 0 }

-- The bytes of a code point in UTF-8; a lone surrogate is refused by `str.encode`.
abbrev pub utf8_size : ℕ → Option ℕ
utf8_size c =
    if ltb c 0x80
    then some 1
    else if ltb c 0x800
    then some 2
    else if leb 0xD800 c && leb c 0xDFFF
    then none
    else if ltb c 0x10000
    then some 3
    else some 4

unfoldable pub utf8_length : Text → Result SseError ℕ
utf8_length [] = ok 0
utf8_length (c ∷ cs) = elim (utf8_size c) [
  | none ↦ err not_utf8
  | some n ↦ do rest ← utf8_length cs; ok (n + rest)
]

-- `"\n".join(lines)`
abbrev pub join_lines : List Text → Text
join_lines [] = []
join_lines (l ∷ []) = l
join_lines (l ∷ m ∷ ls) = l ++ 0x0A ∷ join_lines (m ∷ ls)

-- `line.partition(":")`: none without a colon.
abbrev pub partition_colon : Text → Option (Text × Text)
partition_colon [] = none
partition_colon (c ∷ cs) =
    let later = partition_colon cs in
    if c == 0x3A
    then some ([], cs)
    else elim later [ none ↦ none | some (field, value) ↦ some (c ∷ field, value) ]

-- `value[1:] if value.startswith(" ") else value`
abbrev pub without_space : Text → Text
without_space [] = []
without_space (c ∷ cs) = if c == 0x20 then cs else c ∷ cs

abbrev pub same_text : Text → Text → Bool
same_text [] [] = true
same_text (x ∷ xs) (y ∷ ys) = x == y && same_text xs ys
same_text _ _ = false

-- `line == ""`
abbrev pub is_empty : Text → Bool
is_empty [] = true
is_empty (_ ∷ _) = false

module _ {P : Type 0} (decoder : Decoder P) (limits : Limits) where
  -- `_event`
  unfoldable pub make_event : Text → List Text → Result SseError (SseEvent P)
  make_event name data_lines = elim (decoder.loads (join_lines data_lines)) [
    | none ↦ err not_json
    | some other_json ↦ err not_an_object
    | some (object payload) ↦ ok (record { name = name; payload = payload })
  ]

  -- The event of the lines so far, if there are data lines.
  unfoldable pub dispatch : Pending → Result SseError (List (SseEvent P))
  dispatch p = elim p.data_lines [
    | [] ↦ ok []
    | l ∷ ls ↦ do event ← make_event p.event_name (l ∷ ls); ok (event ∷ [])
  ]

  unfoldable pub add_data : Pending → Text → Result SseError Pending
  add_data p value = do
    size ← utf8_length value
    raise_if (ltb limits.max_data_lines (length p.data_lines + 1)) too_many_data_lines
    raise_if (ltb limits.max_event_bytes (p.event_bytes + size)) too_many_bytes
    ok (record {
      event_name = p.event_name;
      data_lines = p.data_lines ++ value ∷ [];
      event_bytes = p.event_bytes + size;
    })

  unfoldable pub read_field : Pending → Text → Text → Result SseError Pending
  read_field p field value =
      if same_text field (codes "event")
      then ok
          (record { event_name = value; data_lines = p.data_lines; event_bytes = p.event_bytes })
      else if same_text field (codes "data")
      then add_data p value
      else ok p

  -- The line's field and value, if it has a colon.
  unfoldable pub read_parts : Pending → Option (Text × Text) → Result SseError Pending
  read_parts p none = ok p
  read_parts p (some (field, value)) = read_field p field (without_space value)

  -- A line that is not empty; one that starts with a colon is a comment.
  unfoldable pub read_line : Pending → Text → Result SseError Pending
  read_line p [] = ok p
  read_line p (c ∷ cs) = if c == 0x3A then ok p else read_parts p (partition_colon (c ∷ cs))

  abbrev pub decode_line : Line → Result SseError Text
  decode_line (text t) = ok t
  decode_line (raw b) = elim (decoder.utf8 b) [ none ↦ err not_utf8 | some t ↦ ok t ]

  -- One round of the loop: what it yields, and the variables after it.
  unfoldable pub step : Pending → Line → Result SseError (List (SseEvent P) × Pending)
  step p line = do
    t ← decode_line line
    if◌then◌else◌ (is_empty t) (dispatch p >>= λ events. ok (events, idle))
        (read_line p t >>= λ q. ok ([], q))

  -- The loop, and the event after it.
  unfoldable pub parse_lines : Pending → List Line → List (SseEvent P) × Option SseError
  parse_lines p [] = elim (dispatch p) [ err e ↦ ([], some e) | ok events ↦ (events, none) ]
  parse_lines p (line ∷ lines) = elim (step p line) [
    | err e ↦ ([], some e)
    | ok (events, q) ↦ let (later, end) = parse_lines q lines in (events ++ later, end)
  ]

  unfoldable pub parse_sse : List Line → List (SseEvent P) × Option SseError
  parse_sse lines =
      if limits.max_event_bytes == 0 || limits.max_data_lines == 0
      then ([], some bad_limits)
      else parse_lines idle lines
