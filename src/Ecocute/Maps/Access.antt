-- ===== src/Ecocute/Maps/Access.antt =====
-- What an accepted map holds, and which EPCs are classified read-only.
use hedp.Prelude.{
  ℕ, ◌≤◌, ◌≡◌, refl, ap, ◌∙◌, Bool-cases, inl, inr, true, false, not, ◌&&◌, some, List, [], ◌∷◌,
  map, arith, ◌==◌, length, any, All, any-map, ok,
}
use hedp.Prelude.Sorting.{sorted, Ascending, sorted-Ascending, any-sorted}
use hedp.Ecocute.Echonet.{EchonetProperty}
use hedp.Ecocute.Maps.{
  EchonetPropertyMap, EchonetPropertyMaps, ReadOnlyCapability, is_map_epc, repeats, map_epcs,
  decode_map_data, decode_property_map, difference, capability, classify_read_only_capabilities,
  confirmed_property_name,
}

map_epcs-counted :
    (count : ℕ) (rest : List ℕ) {epcs : List ℕ}
    → map_epcs count rest ≡ ok epcs
    → length epcs ≡ count
unfolding map_epcs
map_epcs-counted count rest h = ground arith

-- A decoded map keeps its EPC, is one of 9D, 9E and 9F, holds no EPC twice, and holds as many as its
-- first data byte says.
pub decode_property_map-counted :
    (p : EchonetProperty) (m : EchonetPropertyMap) (count : ℕ) (rest : List ℕ)
    → p.value ≡ count ∷ rest
    → decode_property_map p ≡ ok m
    → (m.epc ≡ p.epc)
      × (is_map_epc p.epc ≡ true)
      × (repeats m.properties ≡ false)
      × (length m.properties ≡ count)
unfolding decode_property_map decode_map_data
decode_property_map-counted p m count rest e h =
    ground (arith, map_epcs-counted count rest {epcs = m.properties})

same_any : (e g : ℕ) (xs : List ℕ) → (e == g) ≡ true → any (λ x. e == x) xs ≡ any (λ x. g == x) xs
same_any e g xs h = ap (λ (k : ℕ). any (λ x. k == x) xs) (ground arith)

any-difference :
    (e : ℕ) (get set : List ℕ)
    → any (λ x. e == x) (difference get set)
      ≡ (any (λ x. e == x) get && not (any (λ x. e == x) set))
any-difference e [] set = refl
any-difference e (g ∷ gs) set = elim (Bool-cases (e == g)) [
  | inl same ↦ ground (arith, any-difference e gs set, same_any e g set)
  | inr other ↦ ground (arith, any-difference e gs set)
]

-- The EPC of a capability.
abbrev pub epc_of : ReadOnlyCapability → ℕ
epc_of c = c.epc

All-capabilities :
    (e : ℕ) (es : List ℕ) → All (λ x. e ≤ x) es → All (λ c. e ≤ epc_of c) (map capability es)
All-capabilities e [] h = tt
All-capabilities e (x ∷ xs) h = (h.0, All-capabilities e xs h.1)

capabilities-Ascending :
    (es : List ℕ) → Ascending (λ e. e) es → Ascending epc_of (map capability es)
capabilities-Ascending [] h = tt
capabilities-Ascending (e ∷ es) h = (All-capabilities e es h.0, capabilities-Ascending es h.1)

capabilities_named :
    (es : List ℕ) → All (λ c. c.name ≡ confirmed_property_name c.epc) (map capability es)
capabilities_named [] = tt
capabilities_named (e ∷ es) = (refl, capabilities_named es)

-- With a Get and a Set map, the capabilities are in ascending order of EPC, each under its confirmed
-- name, and an EPC is among them exactly if it is in the Get map and not in the Set map.
pub classify_exact :
    (maps : EchonetPropertyMaps) (m n : EchonetPropertyMap) (e : ℕ)
    → maps.get ≡ some m
    → maps.set ≡ some n
    → (cs : List ReadOnlyCapability) × (classify_read_only_capabilities maps ≡ ok cs)
      × Ascending epc_of cs
      × All (λ c. c.name ≡ confirmed_property_name c.epc) cs
      × (any (λ c. e == epc_of c) cs
          ≡ (any (λ x. e == x) m.properties && not (any (λ x. e == x) n.properties)))
unfolding classify_read_only_capabilities
classify_exact maps m n e get set =
    let left = difference m.properties n.properties in
    let es = sorted (λ e. e) left in
    (
      map capability es,
      ground arith,
      capabilities-Ascending es (sorted-Ascending (λ e. e) left),
      capabilities_named es,
      any-map (λ c. e == epc_of c) capability es
          ∙ any-sorted (λ e. e) (λ x. e == x) left
          ∙ any-difference e m.properties n.properties,
    )
