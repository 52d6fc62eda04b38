-- ===== src/Prelude/Json.antt =====
-- What `json.loads` returns. A float is the text that `repr` gives of it.
use Prim.Native.String.{String}
use mathlib.Core.Path.{◌≡◌, refl, ap}
use mathlib.Core.Bool.{Bool, false, ◌&&◌}
use mathlib.Core.Option.{Option, none, some}
use mathlib.Core.List.{List, [], ◌∷◌}
use hedp.Prelude.Tests.{if◌then◌else◌}
use hedp.Prelude.Lists.{any, all}
use hedp.Prelude.Int.{ℤ}
use hedp.Prelude.Texts.{str_eq}

mutual
  pub data Json : Type 0 where
    null : Json
    boolean : Bool → Json
    integer : ℤ → Json
    float : String → Json
    text : String → Json
    array : Elements → Json
    object : Members → Json

  pub data Elements : Type 0 where
    no_elements : Elements
    element : Json → Elements → Elements

  pub data Members : Type 0 where
    no_members : Members
    member : String → Json → Members → Members

abbrev pub to_list : Elements → List Json
to_list no_elements = []
to_list (element v vs) = v ∷ to_list vs

abbrev pub from_list : List Json → Elements
from_list [] = no_elements
from_list (v ∷ vs) = element v (from_list vs)

pub to_list-from_list : (vs : List Json) → to_list (from_list vs) ≡ vs
to_list-from_list [] = refl
to_list-from_list (v ∷ vs) = ap (λ rest. v ∷ rest) (to_list-from_list vs)

-- `mapping.get(key)`: a missing key reads as `None`.
abbrev pub get : Members → String → Json
get no_members key = null
get (member name v others) key = let rest = get others key in if str_eq name key then v else rest

-- `isinstance(value, list)`
abbrev pub as_list : Json → Option (List Json)
as_list (array vs) = some (to_list vs)
as_list _ = none

-- `isinstance(value, Mapping)`
abbrev pub as_object : Json → Option Members
as_object (object ms) = some ms
as_object _ = none

-- `isinstance(value, str)`
abbrev pub as_text : Json → Option String
as_text (text s) = some s
as_text _ = none

-- `isinstance(value, int) and not isinstance(value, bool)`
abbrev pub as_integer : Json → Option ℤ
as_integer (integer n) = some n
as_integer _ = none

-- The keys of an object, and the object as `items()` gives it.
abbrev pub keys : Members → List String
keys no_members = []
keys (member name v others) = name ∷ keys others

abbrev pub has : Members → String → Bool
has ms key = any (λ name. str_eq name key) (keys ms)

-- `value == text` for a JSON value and a `str`
abbrev pub is_text : Json → String → Bool
is_text (text s) t = str_eq s t
is_text _ t = false

-- `set(mapping) == {…}`
abbrev pub key_set_is : Members → List String → Bool
key_set_is ms names =
    all (λ key. any (str_eq key) names) (keys ms) && all (λ name. any (str_eq name) (keys ms)) names
