-- ===== src/Modbus/Collector/Collected.antt =====
-- What is collected: one record for each range, in order, with as many 16-bit words as it has.
use hedp.Prelude.{
  ℕ, ◌≡◌, inl, inr, refl, sym, ap, ◌∙◌, subst, Bool-cases, List, [], ◌∷◌, arith, ◌==◌,
  if◌then◌else◌, length, All, ok, Result-cases, bind_returns,
}
use hedp.Prelude.Int.{pos}
use hedp.Modbus.Client.{
  Client, Network, ModbusReadResult, Outcome, read_registers, read_holding_registers,
  read_input_registers,
}
use hedp.Modbus.Client.Answer.{IsWord}
use hedp.Modbus.Client.Accepts.{read_registers-Answers}
use hedp.Modbus.Client.Words.{SendsBytes, read_registers-IsWord}
use hedp.Modbus.Collector.{
  ModbusRegisterRange, RangeRecord, RawData, Collector, read_range, range_record, collect_ranges,
  collect,
}

-- The function that a range is read with.
abbrev pub read_code : ModbusRegisterRange → ℕ
read_code d = if d.function_code == 3 then 3 else 4

pub record Matches (d : ModbusRegisterRange) (r : RangeRecord) : Type 0 where
  pub name : r.name ≡ d.name
  pub function : r.function_code ≡ read_code d
  pub start : d.start_address ≡ pos r.start_address
  pub count : d.count ≡ pos (length r.registers)
  pub of_words : All IsWord r.registers

abbrev pub MatchAll : List ModbusRegisterRange → List RangeRecord → Type 0
MatchAll [] [] = Unit {0}
MatchAll (d ∷ ds) (r ∷ rs) = Matches d r × MatchAll ds rs
MatchAll _ _ = ⊥

read_range-code :
    (network : Network) (client : Client) (d : ModbusRegisterRange)
    → read_range network client d
      ≡ read_registers network client (read_code d) d.start_address d.count
unfolding read_holding_registers read_input_registers
read_range-code network client d = elim (Bool-cases (d.function_code == 3)) [
  | inl three ↦ rw three refl
  | inr other ↦ rw other refl
]

read_range-Matches :
    (network : Network) (client : Client) (d : ModbusRegisterRange) (r : ModbusReadResult)
    → SendsBytes network
    → (read_range network client d).result ≡ ok r
    → Matches d (range_record d.name r)
read_range-Matches network client d r sends h =
    let back = ap (λ (o : Outcome). o.result) (sym (read_range-code network client d)) ∙ h in
    let (arrivals, header, pdu, is_start, is_count, _, _, answers) =
      read_registers-Answers network client (read_code d) d.start_address d.count r back in
    record {
      name = refl;
      function = answers.echoed.0;
      start = is_start ∙ ap pos (sym answers.echoed.1);
      count = is_count ∙ ap pos (sym answers.registers.1);
      of_words =
          read_registers-IsWord network client (read_code d) d.start_address d.count r sends back;
    }

pub collect_ranges-MatchAll :
    (network : Network) (client : Client) (ds : List ModbusRegisterRange) (rs : List RangeRecord)
    → SendsBytes network
    → (collect_ranges network client ds).0 ≡ ok rs
    → MatchAll ds rs
unfolding collect_ranges
collect_ranges-MatchAll network client [] rs sends h = ground arith
collect_ranges-MatchAll network client (d ∷ ds) rs sends h =
    let outcome = read_range network client d in
    elim (Result-cases outcome.result) [
      | inl (e, bad) ↦ (let raised = rw (collect_ranges, bad) at h in cc)
      | inr (r, good) ↦
          let (records, rest, e) =
            bind_returns (collect_ranges network outcome.client ds).0 _
              (rw (collect_ranges, good) at h) in
          let matched = read_range-Matches network client d r sends good in
          let others = collect_ranges-MatchAll network outcome.client ds records sends rest in
          let whole : range_record d.name r ∷ records ≡ rs = ground arith in
          subst (MatchAll (d ∷ ds)) whole (matched, others)
    ]

-- When a collection returns, its payload has one record for each range, in order: the name and
-- function of the range (4 unless it is 3), its start address, and as many registers as it counts, all
-- of them 16-bit words, since the peer sends bytes.
pub collect-MatchAll :
    {T : Type 0} (now : T) (network : Network) (client : Client) (c : Collector) (raw : RawData T)
    → SendsBytes network
    → (collect now network client c).0 ≡ ok raw
    → MatchAll c.register_ranges raw.payload
unfolding collect
collect-MatchAll now network client c raw sends h =
    let (records, e, built) =
      bind_returns (collect_ranges network client c.register_ranges).0 _ h in
    let whole : records ≡ raw.payload = ground arith in
    subst (MatchAll c.register_ranges) whole
      (collect_ranges-MatchAll network client c.register_ranges records sends e)
