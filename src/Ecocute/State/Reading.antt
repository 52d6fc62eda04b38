-- ===== src/Ecocute/State/Reading.antt =====
-- Each reading is what its quality says, and an observation covers the properties of its frame.
use hedp.Prelude.{
  ◌≡◌, ◌↔◌, refl, ap, subst, Bool-cases, inl, inr, true, false, List, [], ◌∷◌, map, arith, all, All,
  Result, ok, err,
}
use hedp.Observations.{Quality, good, IsoReader, ObservationTime, check_observed}
use hedp.Ecocute.Echonet.{
  EchonetProperty, EchonetFrame, FrameError, is_water_heater_response, information,
}
use hedp.Ecocute.Maps.{
  EchonetPropertyMap, Known, flag, word, number, unknown_value, not_normalized, repeats, is_map_epc,
  decode_property_map, decode_known_property,
}
use hedp.Ecocute.State.{
  PropertyObservation, EcoCuteObservation, event, read_map, read_known, read_property,
  normalize_property, is_good, is_nil, normalize_observation, observation,
}

module _ (read : IsoReader) where
  read_map-observed :
      (r : Result FrameError EchonetPropertyMap) → check_observed read (read_map r) ≡ ok tt
  unfolding check_observed
  read_map-observed (ok m) = refl
  read_map-observed (err e) = refl

  read_known-observed : (r : Result FrameError Known) → check_observed read (read_known r) ≡ ok tt
  unfolding check_observed
  read_known-observed (err e) = refl
  read_known-observed (ok not_normalized) = refl
  read_known-observed (ok unknown_value) = refl
  read_known-observed (ok (flag b)) = refl
  read_known-observed (ok (word s)) = refl
  read_known-observed (ok (number n)) = refl

  read_property-observed : (p : EchonetProperty) → check_observed read (read_property p) ≡ ok tt
  unfolding read_property
  read_property-observed p = elim (Bool-cases (is_nil p.value)) [
    | inl nil ↦ rw nil (unfold check_observed in refl)
    | inr some_bytes ↦ elim (Bool-cases (is_map_epc p.epc)) [
      | inl is_map ↦ rw (some_bytes, is_map) (read_map-observed (decode_property_map p))
      | inr other ↦ rw (some_bytes, other) (read_known-observed (decode_known_property p))
    ]
  ]

  -- Every reading satisfies the constructor's check of `ObservedValue`: no value where the quality is
  -- missing, invalid or unknown, and a value elsewhere.
  readings-observed :
      (ps : List EchonetProperty)
      → All
          (λ (o : PropertyObservation). check_observed read o.reading ≡ ok tt)
          (map normalize_property ps)
  readings-observed [] = tt
  readings-observed (p ∷ ps) = (read_property-observed p, readings-observed ps)

epcs-normalize :
    (ps : List EchonetProperty)
    → map (λ (o : PropertyObservation). o.epc) (map normalize_property ps)
      ≡ map (λ (p : EchonetProperty). p.epc) ps
epcs-normalize [] = refl
epcs-normalize (p ∷ ps) = ap (◌∷◌ p.epc) (epcs-normalize ps)

is_good_iff : (q : Quality) → (is_good q ≡ true) ↔ (q ≡ good)
is_good_iff q = ground arith

all-good :
    (os : List PropertyObservation)
    → (all (λ (o : PropertyObservation). is_good o.reading.quality) os ≡ true)
      ↔ All (λ (o : PropertyObservation). o.reading.quality ≡ good) os
all-good [] = (λ h. tt, λ h. refl)
all-good (o ∷ os) = (
  λ h. ground (arith, (all-good os).0, is_good_iff o.reading.quality),
  λ h. ground (arith, (all-good os).1 h.1, is_good_iff o.reading.quality),
)

normalize-fields :
    (f : EchonetFrame) (time : ObservationTime) (o : EcoCuteObservation)
    → normalize_observation f time ≡ ok o
    → (is_water_heater_response f ≡ true)
      × (repeats (map (λ (p : EchonetProperty). p.epc) f.properties) ≡ false)
      × (observation f time ≡ o)
unfolding normalize_observation
normalize-fields f time o h = elim (Bool-cases (is_water_heater_response f)) [
  | inl response ↦ elim (Bool-cases (repeats (map (λ (p : EchonetProperty). p.epc) f.properties))) [
    | inl twice ↦ (let bad = rw (response, twice) at h in cc)
    | inr once ↦ (let done = rw (response, once) at h in (response, once, cc))
  ]
  | inr other ↦ (let bad = rw other at h in cc)
]

-- What an observation says of its frame.
pub record Describes (read : IsoReader) (f : EchonetFrame) (o : EcoCuteObservation) : Type 0 where
  pub in_order :
      map (λ (p : PropertyObservation). p.epc) o.properties
      ≡ map (λ (p : EchonetProperty). p.epc) f.properties
  pub checked :
      All (λ (p : PropertyObservation). check_observed read p.reading ≡ ok tt) o.properties
  pub source : (o.source ≡ event) ↔ (f.service ≡ information)
  pub quality :
      (o.quality ≡ good) ↔ All (λ (p : PropertyObservation). p.reading.quality ≡ good) o.properties

observation-Describes :
    (read : IsoReader) (f : EchonetFrame) (time : ObservationTime)
    → Describes read f (observation f time)
observation-Describes read f time =
    let os = map normalize_property f.properties in
    record {
      in_order = epcs-normalize f.properties;
      checked = readings-observed read f.properties;
      source = ground arith;
      quality = (λ h. (all-good os).0 (ground arith), λ h. ground (arith, (all-good os).1 h));
    }

-- An observation is made only of a water heater's Get response or INF that repeats no EPC. It has one
-- reading for each property, in the frame's order and under its EPC, each of which satisfies the check
-- of `ObservedValue`; it is an event exactly for an INF, and good exactly if every reading is good.
pub normalize_observation-Describes :
    (read : IsoReader) (f : EchonetFrame) (time : ObservationTime) (o : EcoCuteObservation)
    → normalize_observation f time ≡ ok o
    → (is_water_heater_response f ≡ true)
      × (repeats (map (λ (p : EchonetProperty). p.epc) f.properties) ≡ false)
      × Describes read f o
normalize_observation-Describes read f time o h =
    let (response, once, e) = normalize-fields f time o h in
    (response, once, subst (Describes read f) e (observation-Describes read f time))
