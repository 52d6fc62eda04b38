-- ===== src/Modbus/Readings.antt =====
-- A device that answers the three SUN2000 ranges, and the theorems on collections at that device.
use hedp.Prelude.{
  ℕ, zero, suc, ◌+◌, ◌*◌, ◌<◌, ◌≡◌, refl, subst, Bool-cases, inl, inr, true, false, none, some,
  List, [], ◌∷◌, map, arith, ◌==◌, if◌then◌else◌, get_or, All, ok,
}
use hedp.Prelude.Bytes.{Bytes, IsByte}
use hedp.Prelude.Int.{pos, ◌+ℤ◌}
use hedp.Modbus.Socket.{Arrival, bytes, recv, receive_rounds, receive_exact}
use hedp.Modbus.Client.{
  Client, Network, check_request, require_private_target, receive_response, check_response,
  exchange, read_registers, read_holding_registers,
}
use hedp.Modbus.Client.Words.{SendsBytes, OfBytes}
use hedp.Modbus.Collector.{RangeRecord, RawData, Collector, collect_ranges, collect, metadata_of}
use hedp.Modbus.Collector.Collected.{MatchAll, collect-MatchAll}
use hedp.Modbus.Profile.{sun2000_jpl1_ranges, decode_sun2000_jpl1}
use hedp.Modbus.Profile.Complete.{reading, decode_sun2000_jpl1-collect_ranges}

abbrev zeros : ℕ → List ℕ
zeros zero = []
zeros (suc n) = 0 ∷ zeros n

abbrev device_answer : ℕ → ℕ → Bytes
device_answer id count =
    0 ∷ id ∷ 0 ∷ 0 ∷ 0 ∷ (2 * count + 3) ∷ 1 ∷ 3 ∷ (2 * count) ∷ zeros (2 * count)

abbrev answer_to : Bytes → List Arrival
answer_to request =
    if get_or request 11 0 == 15
    then bytes (device_answer 1 15) ∷ []
    else if get_or request 11 0 == 52
    then bytes (device_answer 2 52) ∷ []
    else bytes (device_answer 3 5) ∷ []

abbrev device : Network
device = record {
  resolve = λ host port.
      some (record { text = "fe80::9"; is_private = false; is_link_local = true } ∷ []);
  connect = λ host port request. some (answer_to request);
}

abbrev client : Client
client = record {
  host = "inverter";
  port = 502;
  unit_id = 1;
  timeout_seconds = record { numerator = pos 3; denominator = 1 };
  transaction_id = 0;
}

abbrev records : List RangeRecord
records =
    record { name = "identity"; function_code = 3; start_address = 30_000; registers = zeros 15 }
    ∷ record {
      name = "inverter_realtime";
      function_code = 3;
      start_address = 32_064;
      registers = zeros 52;
    }
    ∷ record {
      name = "storage_realtime";
      function_code = 3;
      start_address = 37_000;
      registers = zeros 5;
    }
    ∷ []

run-collect_ranges : (collect_ranges device client sun2000_jpl1_ranges).0 ≡ ok records
unfolding collect_ranges read_holding_registers read_registers check_request require_private_target
    exchange receive_response receive_exact receive_rounds recv check_response ◌+ℤ◌
run-collect_ranges = refl

zeros-IsByte : (n : ℕ) → All IsByte (zeros n)
zeros-IsByte zero = tt
zeros-IsByte (suc n) = (omega arith, zeros-IsByte n)

device_answer-IsByte : (id count : ℕ) → id < 256 → count < 100 → All IsByte (device_answer id count)
device_answer-IsByte id count h few =
    let rest = zeros-IsByte (2 * count) in
    (
      omega arith,
      (
        h,
        (
          omega arith,
          (
            omega arith,
            (omega arith, (omega arith, (omega arith, (omega arith, (omega arith, rest))))),
          ),
        ),
      ),
    )

answer_to-OfBytes : (request : Bytes) → All OfBytes (answer_to request)
answer_to-OfBytes request = elim (Bool-cases (get_or request 11 0 == 15)) [
  | inl identity ↦ rw identity (device_answer-IsByte 1 15 (omega arith) (omega arith), tt)
  | inr other ↦ elim (Bool-cases (get_or request 11 0 == 52)) [
    | inl realtime ↦
        rw (other, realtime) (device_answer-IsByte 2 52 (omega arith) (omega arith), tt)
    | inr storage ↦ rw (other, storage) (device_answer-IsByte 3 5 (omega arith) (omega arith), tt)
  ]
]

device-SendsBytes : SendsBytes device
device-SendsBytes host port request arrivals e =
    let same : answer_to request ≡ arrivals = cc in
    subst (All OfBytes) same (answer_to-OfBytes request)

abbrev collector : Collector
collector = record {
  target_alias = "inverter-1";
  register_ranges = sun2000_jpl1_ranges;
  continuity_id = none;
  continuity_reason = none;
}

abbrev collected : RawData ℕ
collected = record {
  source = "fusionsolar_modbus_tcp";
  timestamp = 0;
  payload = records;
  metadata = metadata_of collector;
}

run-collect : (collect 0 device client collector).0 ≡ ok collected
unfolding collect
run-collect = rw run-collect_ranges refl

collect-MatchAll_example : MatchAll sun2000_jpl1_ranges records
collect-MatchAll_example =
    collect-MatchAll 0 device client collector collected device-SendsBytes run-collect

decode_sun2000_jpl1-collect_ranges_example :
    (ws0 : List ℕ) × (ws1 : List ℕ) × (ws2 : List ℕ) × (map
        (λ (r : RangeRecord). r.registers)
        records
      ≡ ws0 ∷ ws1 ∷ ws2 ∷ [])
    × (decode_sun2000_jpl1 records ≡ ok (reading ws0 ws1 ws2))
decode_sun2000_jpl1-collect_ranges_example =
    decode_sun2000_jpl1-collect_ranges device client records device-SendsBytes run-collect_ranges
