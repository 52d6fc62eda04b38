-- ===== src/Modbus/Profile/Complete.antt =====
-- What is collected by the SUN2000 ranges is decoded, each field from its registers.
use hedp.Prelude.{
  ℕ, ◌+◌, ◌*◌, ◌<◌, ◌≡◌, refl, sym, ap, List, [], ◌∷◌, map, arith, length, get_or, All, ok,
}
use Prim.Native.Nat.{bit_or}
use hedp.Prelude.Int.{pos_part}
use hedp.Modbus.Client.{Client, Network}
use hedp.Modbus.Client.Answer.{IsWord, register_bytes}
use hedp.Modbus.Client.Words.{SendsBytes}
use hedp.Modbus.Collector.{RangeRecord, collect_ranges}
use hedp.Modbus.Collector.Collected.{MatchAll, collect_ranges-MatchAll}
use hedp.Modbus.Profile.{
  word_table, i16, signed_32, model_text, device_status, quotient, InverterReading,
  sun2000_jpl1_ranges, decode_sun2000_jpl1,
}
use hedp.Modbus.Profile.Decoding.{
  three_ranges, identity_packed, realtime_at, realtime_i32, realtime_u32, storage_at, storage_i32,
}

-- The reading of the registers of the three ranges, as a table of positions.
abbrev pub reading : List ℕ → List ℕ → List ℕ → InverterReading
reading ws0 ws1 ws2 =
    let at = λ (k : ℕ). get_or ws1 k 0 in
    record {
      model = model_text (register_bytes ws0);
      input_power_kw = quotient (signed_32 (at 0 * 65_536 + at 1)) 1_000;
      active_power_kw = quotient (signed_32 (at 16 * 65_536 + at 17)) 1_000;
      grid_frequency_hz = quotient (at 21) 100;
      internal_temperature_c = quotient (i16 (at 23)) 10;
      device_status_code = at 25;
      device_status = device_status (at 25);
      total_yield_kwh = quotient (bit_or (at 42 * 65_536) (at 43)) 100;
      daily_yield_kwh = quotient (bit_or (at 50 * 65_536) (at 51)) 100;
      storage_status_code = get_or ws2 0 0;
      storage_power_kw = quotient (signed_32 (get_or ws2 1 0 * 65_536 + get_or ws2 2 0)) 1_000;
      storage_soc_percent = quotient (get_or ws2 4 0) 10;
    }

decode-table :
    (rs : List RangeRecord) (ws0 ws1 ws2 : List ℕ)
    → length ws0 ≡ 15
    → length ws1 ≡ 52
    → length ws2 ≡ 5
    → All IsWord ws0
    → All IsWord ws1
    → All IsWord ws2
    → word_table rs ≡ three_ranges ws0 ws1 ws2
    → decode_sun2000_jpl1 rs ≡ ok (reading ws0 ws1 ws2)
unfolding decode_sun2000_jpl1
decode-table rs ws0 ws1 ws2 c0 c1 c2 w0 w1 w2 e =
    let model = identity_packed ws0 ws1 ws2 c0 c1 c2 15 0 refl w0 in
    let word = realtime_at ws0 ws1 ws2 c0 c1 c2 in
    let signed = λ (k : ℕ) (h : k + 1 < 52). realtime_i32 ws0 ws1 ws2 c0 c1 c2 k h w1 in
    let unsigned = realtime_u32 ws0 ws1 ws2 c0 c1 c2 in
    let stored = storage_at ws0 ws1 ws2 c0 c1 c2 in
    rw
      (
        e,
        model,
        word 25 (omega arith),
        signed 0 (omega arith),
        signed 16 (omega arith),
        word 21 (omega arith),
        word 23 (omega arith),
        unsigned 42 (omega arith),
        unsigned 50 (omega arith),
        stored 0 (omega arith),
        storage_i32 ws0 ws1 ws2 c0 c1 c2 w2,
        stored 4 (omega arith),
      )
      refl

-- Three records that match the ranges are decoded.
decode-matching :
    (rs : List RangeRecord)
    → MatchAll sun2000_jpl1_ranges rs
    → (ws0 : List ℕ) × (ws1 : List ℕ) × (ws2 : List ℕ) × (map (λ (r : RangeRecord). r.registers) rs
        ≡ ws0 ∷ ws1 ∷ ws2 ∷ [])
      × (decode_sun2000_jpl1 rs ≡ ok (reading ws0 ws1 ws2))
decode-matching [] h = absurd h
decode-matching (r0 ∷ []) h = absurd h.1
decode-matching (r0 ∷ r1 ∷ []) h = absurd h.1.1
decode-matching (r0 ∷ r1 ∷ r2 ∷ []) (m0, (m1, (m2, _))) = (
  r0.registers,
  r1.registers,
  r2.registers,
  refl,
  decode-table (r0 ∷ r1 ∷ r2 ∷ []) r0.registers r1.registers r2.registers
      (sym (ap pos_part m0.count)) (sym (ap pos_part m1.count)) (sym (ap pos_part m2.count))
      m0.of_words m1.of_words m2.of_words
      (rw (sym (ap pos_part m0.start), sym (ap pos_part m1.start), sym (ap pos_part m2.start))
        refl),
)
decode-matching (r0 ∷ r1 ∷ r2 ∷ _ ∷ _) h = absurd h.1.1.1

-- What a client collects by the SUN2000 ranges, from a peer that sends bytes, is always decoded: no
-- address is missing. The reading takes each field from fixed positions of the three ranges' registers.
pub decode_sun2000_jpl1-collect_ranges :
    (network : Network) (client : Client) (rs : List RangeRecord)
    → SendsBytes network
    → (collect_ranges network client sun2000_jpl1_ranges).0 ≡ ok rs
    → (ws0 : List ℕ) × (ws1 : List ℕ) × (ws2 : List ℕ) × (map (λ (r : RangeRecord). r.registers) rs
        ≡ ws0 ∷ ws1 ∷ ws2 ∷ [])
      × (decode_sun2000_jpl1 rs ≡ ok (reading ws0 ws1 ws2))
decode_sun2000_jpl1-collect_ranges network client rs sends h =
    decode-matching rs (collect_ranges-MatchAll network client sun2000_jpl1_ranges rs sends h)
