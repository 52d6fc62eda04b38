-- ===== src/SmartLedz/Commands/ReadOnly.antt =====
-- Every command that is built is a read, with arguments of 16 bits.
use Prim.Native.String.{String}
use hedp.Prelude.{
  ℕ, ◌≤◌, ◌≡◌, refl, Bool-cases, true, Option, none, some, List, [], ◌∷◌, arith, length, ◌==◌, any,
  All, Result, Result-cases, inl, inr, ok, err, ◌>>=◌,
}
use hedp.Prelude.Int.{ℤ}
use hedp.Prelude.Texts.{str_eq}
use hedp.SmartLedz.Commands.{
  CommandError, Argument, word, number, numbers, ReadCommand, integer, integers, payload,
  mode_argument, group_list, group_get, device_list, device_get, schedule_get, sensor_lux,
}

abbrev pub read_names : List String
read_names =
    "GroupList" ∷ "GroupGet" ∷ "DeviceList" ∷ "DeviceGet" ∷ "GroupScheduleGet"
    ∷ "DeviceSensorSwitchGetLuxValues" ∷ []

abbrev pub InRange : Argument → Type 0
InRange (word s) = Unit {0}
InRange (number n) = n ≤ 0xFFFF
InRange (numbers ns) = All (λ n. n ≤ 0xFFFF) ns

-- A payload that names one of the six read commands first, and whose numbers are of 16 bits.
abbrev pub IsReadOnly : List (String × Argument) → Type 0
IsReadOnly ((key, word s) ∷ arguments) =
    (key ≡ "c")
    × (any (str_eq s) read_names ≡ true)
    × All (λ (a : String × Argument). InRange a.1) arguments
IsReadOnly _ = ⊥

-- What is built has a read-only payload.
abbrev pub BuildsReadOnly : Result CommandError ReadCommand → Type 0
BuildsReadOnly (ok c) = IsReadOnly (payload c)
BuildsReadOnly (err e) = Unit {0}

integer-range : (value : ℤ) (n : ℕ) → integer value ≡ ok n → n ≤ 0xFFFF
unfolding integer
integer-range value n h = ground arith

integers-range :
    (values : List ℤ) (ns : List ℕ) → integers values ≡ ok ns → All (λ n. n ≤ 0xFFFF) ns
unfolding integers
integers-range [] ns h = ground arith
integers-range (value ∷ values) ns h = elim (Result-cases (integer value)) [
  | inl (e, refused) ↦ (let bad = rw (integers, refused) at h in cc)
  | inr (n, first) ↦ elim (Result-cases (integers values)) [
    | inl (e, refused) ↦ (let bad = rw (integers, first, refused) at h in cc)
    | inr (others, rest) ↦
        let small = integer-range value n first in
        let all_small = integers-range values others rest in
        let done = rw (integers, first, rest) at h in ground arith
  ]
]

-- A chain of checks builds a read if its end does, whatever number in range the check returns.
integer_then :
    (value : ℤ) (next : ℕ → Result CommandError ReadCommand)
    → ((n : ℕ) → n ≤ 0xFFFF → BuildsReadOnly (next n))
    → BuildsReadOnly (integer value >>= next)
integer_then value next f = elim (Result-cases (integer value)) [
  | inl (e, refused) ↦ rw refused tt
  | inr (n, checked) ↦ rw checked (f n (integer-range value n checked))
]

device_list-IsReadOnly : (a b : ℤ) (codes : List ℤ) → BuildsReadOnly (device_list a b codes)
unfolding device_list payload
device_list-IsReadOnly a b codes = elim (Bool-cases (length codes == 0)) [
  | inl empty ↦ rw (device_list, empty) tt
  | inr some_code ↦ elim (Result-cases (integers codes)) [
    | inl (e, refused) ↦ rw (device_list, some_code, refused) tt
    | inr (ns, checked) ↦
        let in_range = integers-range codes ns checked in
        rw (device_list, some_code, checked)
          (integer_then a _
            λ n hn. integer_then b _ λ m hm. (refl, refl, (hn, (hm, (in_range, tt)))))
  ]
]

abbrev lux : ℕ → ℕ → List (String × Argument) → ReadCommand
lux n m rest = record {
  command = "DeviceSensorSwitchGetLuxValues";
  arguments = ("gateway_id", number n) ∷ ("dest", number m) ∷ rest;
}

mode_then :
    (mode : Option ℤ) (n m : ℕ)
    → n ≤ 0xFFFF
    → m ≤ 0xFFFF
    → BuildsReadOnly (mode_argument mode >>= λ rest. ok (lux n m rest))
unfolding mode_argument payload
mode_then none n m hn hm = (refl, refl, (hn, (hm, tt)))
mode_then (some value) n m hn hm = elim (Result-cases (integer value)) [
  | inl (e, refused) ↦ rw (mode_argument, refused) tt
  | inr (k, checked) ↦
      rw (mode_argument, checked) (refl, refl, (hn, (hm, (integer-range value k checked, tt))))
]

-- Each of the six functions that build a command either raises or returns one whose payload names a
-- read command and holds numbers of 16 bits only, whatever its arguments.
pub commands-IsReadOnly :
    (a b c : ℤ) (codes : List ℤ) (mode : Option ℤ)
    → BuildsReadOnly (group_list a)
      × BuildsReadOnly (group_get a b)
      × BuildsReadOnly (device_list a b codes)
      × BuildsReadOnly (device_get a b)
      × BuildsReadOnly (schedule_get a b c)
      × BuildsReadOnly (sensor_lux a b mode)
unfolding group_list group_get device_list device_get schedule_get sensor_lux payload mode_argument
commands-IsReadOnly a b c codes mode = (
  integer_then a _ λ n hn. (refl, refl, (hn, tt)),
  integer_then a _ λ n hn. integer_then b _ λ m hm. (refl, refl, (hn, (hm, tt))),
  device_list-IsReadOnly a b codes,
  integer_then a _ λ n hn. integer_then b _ λ m hm. (refl, refl, (hn, (hm, tt))),
  integer_then a _
      λ n hn. integer_then c _ λ k hk. integer_then b _ λ m hm. (refl, refl, (hn, (hk, (hm, tt)))),
  integer_then a _ λ n hn. integer_then b _ λ m hm. mode_then mode n m hn hm,
)
