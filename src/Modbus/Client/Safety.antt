-- ===== src/Modbus/Client/Safety.antt =====
-- What a call sends, and what it accepts.
use hedp.Prelude.{
  ℕ, ◌+◌, ◌%◌, ◌≤◌, ◌<◌, ◌≡◌, ◌⊎◌, inl, inr, refl, subst, true, false, not, Option-cases, some,
  List, [], ◌∷◌, arith, length, get_or, slice, any, All, ok, Result-cases,
}
use hedp.Prelude.Bytes.{Bytes, from_bytes, from_bytes-to_bytes_two}
use hedp.Prelude.Int.{ℤ, pos, pos_part, ◌+ℤ◌}
use hedp.Modbus.Client.{
  Client, Address, Network, is_local, require_private_target, check_request, advance, request_bytes,
  exchange, read_registers,
}

pub check_request-bounds :
    (f : ℕ) (start count : ℤ) (u : Unit {0})
    → check_request f start count ≡ ok u
    → ((f ≡ 3) ⊎ (f ≡ 4))
      × (start ≡ pos (pos_part start))
      × (count ≡ pos (pos_part count))
      × (1 ≤ pos_part count)
      × (pos_part count ≤ 125)
      × (pos_part start + pos_part count ≤ 65_536)
unfolding check_request ◌+ℤ◌
check_request-bounds f start count u h = ground arith

none_public :
    (addresses : List Address)
    → any (λ a. not (is_local a)) addresses ≡ false
    → All (λ a. is_local a ≡ true) addresses
none_public [] h = tt
none_public (a ∷ others) h = ground (arith, none_public others)

private_target-local :
    (network : Network) (client : Client) (u : Unit {0})
    → require_private_target network client ≡ ok u
    → (addresses : List Address) × (network.resolve client.host client.port ≡ some addresses)
      × (0 < length addresses)
      × All (λ a. is_local a ≡ true) addresses
unfolding require_private_target
private_target-local network client u h =
    elim (Option-cases (network.resolve client.host client.port)) [
      | inl nothing ↦ (let bad = rw (require_private_target, nothing) at h in cc)
      | inr (addresses, found) ↦
          (addresses, found, ground arith, none_public addresses (ground arith))
    ]

-- A request that may be sent: 12 bytes of a read of 1 to 125 registers within the address space, under
-- a transaction ID other than 0, to a host that has resolved to private or link-local addresses only.
pub record IsPermitted (network : Network) (client : Client) (request : Bytes) : Type 0 where
  pub addresses : List Address
  pub resolved : network.resolve client.host client.port ≡ some addresses
  pub some_address : 0 < length addresses
  pub all_local : All (λ a. is_local a ≡ true) addresses
  pub size : (length request ≡ 12) × (from_bytes (slice request 4 6) ≡ 6)
  pub id : (from_bytes (slice request 0 2) ≡ client.transaction_id % 65_535 + 1)
  pub protocol_and_unit :
      (from_bytes (slice request 2 4) ≡ 0) × (get_or request 6 0 ≡ client.unit_id)
  pub function : (get_or request 7 0 ≡ 3) ⊎ (get_or request 7 0 ≡ 4)
  pub count : (1 ≤ from_bytes (slice request 10 12)) × (from_bytes (slice request 10 12) ≤ 125)
  pub inside : from_bytes (slice request 8 10) + from_bytes (slice request 10 12) ≤ 65_536

request-IsPermitted :
    (network : Network) (client : Client) (f s n : ℕ) (u v : Unit {0})
    → check_request f (pos s) (pos n) ≡ ok u
    → require_private_target network client ≡ ok v
    → IsPermitted network client (request_bytes (advance client) f s n)
request-IsPermitted network client f s n u v asked target =
    let (which, _, _, one, most, within) = check_request-bounds f (pos s) (pos n) u asked in
    let (found, resolved, some_address, all_local) = private_target-local network client v target in
    let start : s < 65_536 = omega arith in
    let start_back = from_bytes-to_bytes_two s start in
    let count_back = from_bytes-to_bytes_two n (omega arith) in
    record {
      addresses = found;
      resolved = resolved;
      some_address = some_address;
      all_local = all_local;
      size = (refl, refl);
      id = from_bytes-to_bytes_two ((advance client).transaction_id) (omega arith);
      protocol_and_unit = (refl, refl);
      function = which;
      count = ground arith;
      inside = ground arith;
    }

exchange-sent :
    (network : Network) (client : Client) (f s n : ℕ)
    → ((exchange network client f s n).sent ≡ [])
      ⊎ ((exchange network client f s n).sent ≡ request_bytes client f s n ∷ [])
unfolding exchange
exchange-sent network client f s n =
    elim (Option-cases (network.connect client.host client.port (request_bytes client f s n))) [
      | inl nothing ↦ inl (rw (exchange, nothing) refl)
      | inr (arrivals, connected) ↦ inr (rw (exchange, connected) refl)
    ]

-- Every request that a call of a read sends, with whatever arguments, is permitted: a well-formed
-- read of at most 125 registers, under the client's next transaction ID, to a host that has resolved
-- to private or link-local addresses only. It sends one at most.
pub read_registers-IsPermitted :
    (network : Network) (client : Client) (f : ℕ) (start count : ℤ)
    → let sent = (read_registers network client f start count).sent in
      All (IsPermitted network client) sent × (length sent ≤ 1)
unfolding read_registers
read_registers-IsPermitted network client f start count =
    elim (Result-cases (check_request f start count)) [
      | inl (e, refused) ↦ rw (read_registers, refused) (tt, omega arith)
      | inr (u, asked) ↦ elim (Result-cases (require_private_target network client)) [
        | inl (e, refused) ↦ rw (read_registers, asked, refused) (tt, omega arith)
        | inr (v, target) ↦
            let (_, is_start, is_count, _, _, _) = check_request-bounds f start count u asked in
            let permitted =
              request-IsPermitted network client f (pos_part start) (pos_part count) u v
                (subst (λ (c : ℤ). check_request f (pos (pos_part start)) c ≡ ok u) is_count
                  (subst (λ (b : ℤ). check_request f b count ≡ ok u) is_start asked))
                target in
            elim (exchange-sent network (advance client) f (pos_part start) (pos_part count)) [
              | inl nothing ↦ rw (read_registers, asked, target, nothing) (tt, omega arith)
              | inr one ↦ rw (read_registers, asked, target, one) ((permitted, tt), omega arith)
            ]
      ]
    ]
