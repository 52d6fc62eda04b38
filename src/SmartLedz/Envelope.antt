-- ===== src/SmartLedz/Envelope.antt =====
-- src/hedp/adapters/smartledz/models.py, normalizer.py and reader.py: what is kept of a response. A
-- text is the list of its code points; `str.casefold` of a character beyond ASCII is an argument.
pub mod Words
pub mod Redaction
use Prim.Native.String.{String}
use hedp.Prelude.{
  ℕ, zero, suc, ◌+◌, ◌-◌, Bool, true, false, not, ◌&&◌, ◌||◌, Option, none, some, List, [], ◌∷◌,
  ◌++◌, map, ltb, leb, ◌==◌, if◌then◌else◌, length, any,
}
use hedp.Prelude.Int.{ℤ, pos, eq_ℤ}
use hedp.Prelude.Texts.{codes}
use hedp.Observations.{Quality, good, missing, invalid, unknown}

abbrev pub Text : Type 0
Text = List ℕ

-- The keys and values of a decoded object: only a `str` is a field name, only an `int` an error code.
pub data Key : Type 0 where
  name : Text → Key
  other_key : Key

pub data Value : Type 0 where
  boolean : Bool → Value
  integer : ℤ → Value
  other_value : Value

-- A response: a mapping, as its items, or any other object.
pub data Response : Type 0 where
  mapping : List (Key × Value) → Response
  not_object : Response

pub data ResourceKind : Type 0 where
  group scene schedule device sensor : ResourceKind

pub record ResourceResponse : Type 0 where
  pub resource : ResourceKind
  pub quality : Quality
  pub reason : Option String
  pub error_code : Option ℤ
  pub unknown_fields : List Text
  pub redacted_field_count : ℕ

abbrev pub same_text : Text → Text → Bool
same_text [] [] = true
same_text (x ∷ xs) (y ∷ ys) = x == y && same_text xs ys
same_text _ _ = false

abbrev pub error_code_name : Text
error_code_name = codes "ErrorCode"

abbrev pub sensitive_field_parts : List Text
sensitive_field_parts = map codes (
    "address" ∷ "auth" ∷ "config" ∷ "configuration" ∷ "cookie" ∷ "id" ∷ "ip" ∷ "mac" ∷ "name"
    ∷ "password" ∷ "secret" ∷ "serial" ∷ "setting" ∷ "ssid" ∷ "token" ∷ "udn" ∷ [])

abbrev pub is_upper : ℕ → Bool
is_upper c = leb 0x41 c && leb c 0x5A

abbrev pub is_lower : ℕ → Bool
is_lower c = leb 0x61 c && leb c 0x7A

abbrev pub is_digit : ℕ → Bool
is_digit c = leb 0x30 c && leb c 0x39

-- `re.sub(r"(?<=[a-z0-9])(?=[A-Z])", "_", …)`
abbrev pub break_words : Text → Text
break_words [] = []
break_words (c ∷ []) = c ∷ []
break_words (c ∷ d ∷ rest) =
    let others = break_words (d ∷ rest) in
    if (is_lower c || is_digit c) && is_upper d then c ∷ 0x5F ∷ others else c ∷ others

-- `re.sub(r"(?<=[A-Z])(?=[A-Z][a-z])", "_", …)`
abbrev pub break_acronyms : Text → Text
break_acronyms [] = []
break_acronyms (c ∷ []) = c ∷ []
break_acronyms (c ∷ d ∷ []) = c ∷ d ∷ []
break_acronyms (c ∷ d ∷ e ∷ rest) =
    let others = break_acronyms (d ∷ e ∷ rest) in
    if is_upper c && is_upper d && is_lower e then c ∷ 0x5F ∷ others else c ∷ others

abbrev pub dashes_to_underscores : Text → Text
dashes_to_underscores cs = map (λ c. if c == 0x2D then 0x5F else c) cs

abbrev pub add_first : ℕ → List Text → List Text
add_first c [] = (c ∷ []) ∷ []
add_first c (part ∷ parts) = (c ∷ part) ∷ parts

-- `split("_")`
abbrev pub split_underscores : Text → List Text
split_underscores [] = [] ∷ []
split_underscores (c ∷ cs) =
    let parts = split_underscores cs in if c == 0x5F then [] ∷ parts else add_first c parts

-- `sorted(names)`: texts in the order of their code points.
abbrev pub leb_text : Text → Text → Bool
leb_text [] ys = true
leb_text (x ∷ xs) [] = false
leb_text (x ∷ xs) (y ∷ ys) = ltb x y || (x == y && leb_text xs ys)

unfoldable pub insert_text : Text → List Text → List Text
insert_text t [] = t ∷ []
insert_text t (u ∷ us) =
    let rest = insert_text t us in if leb_text t u then t ∷ u ∷ us else u ∷ rest

unfoldable pub sort_texts : List Text → List Text
sort_texts [] = []
sort_texts (t ∷ ts) = insert_text t (sort_texts ts)

-- `response["ErrorCode"]`
abbrev pub find_error_code : List (Key × Value) → Option Value
find_error_code [] = none
find_error_code ((other_key, v) ∷ items) = find_error_code items
find_error_code ((name t, v) ∷ items) =
    let rest = find_error_code items in if same_text t error_code_name then some v else rest

module _ (fold_other : ℕ → Text) where
  -- `str.casefold`
  abbrev pub casefold : Text → Text
  casefold [] = []
  casefold (c ∷ cs) =
      let rest = casefold cs in
      if is_upper c then (c + 0x20) ∷ rest else if ltb c 128 then c ∷ rest else fold_other c ++ rest

  -- `_is_sensitive_field_name`; the empty part is no sensitive one.
  unfoldable pub is_sensitive : Text → Bool
  is_sensitive t =
      any (λ part. any (same_text part) sensitive_field_parts)
        (split_underscores (dashes_to_underscores (casefold (break_acronyms (break_words t)))))

  -- The loop of `_unknown_fields`: the names in the order of the items, and the count.
  unfoldable pub kept_names : List (Key × Value) → List Text × ℕ
  kept_names [] = ([], 0)
  kept_names ((other_key, _) ∷ items) = let (names, count) = kept_names items in (names, count + 1)
  kept_names ((name t, _) ∷ items) =
      let (names, count) = kept_names items in
      if same_text t error_code_name
      then (names, count)
      else if is_sensitive t
      then (names, count + 1)
      else (t ∷ names, count)

  abbrev pub envelope :
      ResourceKind → List (Key × Value) → Quality → Option String → Option ℤ → ResourceResponse
  envelope resource items quality reason error_code =
      let (names, count) = kept_names items in
      record {
        resource = resource;
        quality = quality;
        reason = reason;
        error_code = error_code;
        unknown_fields = sort_texts names;
        redacted_field_count = count;
      }

  abbrev pub judge_error_code : ResourceKind → List (Key × Value) → Option Value → ResourceResponse
  judge_error_code resource items none =
      envelope resource items missing (some "error_code_missing") none
  judge_error_code resource items (some (integer n)) =
      if not (eq_ℤ n (pos 0))
      then envelope resource items unknown (some "error_code_not_accepted") (some n)
      else envelope resource items good none (some (pos 0))
  judge_error_code resource items (some _) =
      envelope resource items invalid (some "error_code_invalid_type") none

  unfoldable pub normalize_resource_response : ResourceKind → Response → ResourceResponse
  normalize_resource_response resource not_object = record {
    resource = resource;
    quality = invalid;
    reason = some "response_not_object";
    error_code = none;
    unknown_fields = [];
    redacted_field_count = 0;
  }
  normalize_resource_response resource (mapping items) =
      judge_error_code resource items (find_error_code items)
