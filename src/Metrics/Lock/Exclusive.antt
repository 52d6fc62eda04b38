-- ===== src/Metrics/Lock/Exclusive.antt =====
-- src/hedp/operations/operational_metrics.py: that the lock excludes.
use hedp.Prelude.{
  ℕ, ◌≡◌, ◌≢◌, ◌⊎◌, inl, inr, refl, true, false, Option, none, some, ◌==◌, ==_iff, arith,
  Bool-cases,
}
use hedp.Metrics.Lock.{Directory, vacant, made_by, Place, State, move, holds, recovers}

abbrev pub maker : Directory → Option ℕ
maker vacant = none
maker (made_by p owner) = some p

-- Who recovers does so from a process that does not hold what it made.
abbrev IsLeft : State → Type 0
IsLeft s = (q : ℕ) × (maker s.directory ≡ some q) × (holds (s.place q) ≡ false)

record Inv (s : State) : Type 0 where
  held : (p : ℕ) → holds (s.place p) ≡ true → maker s.directory ≡ some p
  stale : (p : ℕ) → recovers (s.place p) ≡ true → IsLeft s

pub move-cases :
    (s : State) (d : Directory) (p q : ℕ) (place : Place)
    → ((q ≡ p) × ((move s d p place).place q ≡ place))
      ⊎ ((q ≢ p) × ((move s d p place).place q ≡ s.place q))
move-cases s d p q place = elim (Bool-cases (q == p)) [
  | inl same ↦ inl ((==_iff q p).0 same, rw (same) refl)
  | inr other ↦ inr (λ same. ground (arith, (==_iff q p).1 same), rw (other) refl)
]
