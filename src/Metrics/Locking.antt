-- ===== src/Metrics/Locking.antt =====
-- Runs of the lock of the journal, and its theorem at one of them.
use hedp.Prelude.{ℕ, ◌≡◌, refl, true, none, some}
use hedp.Metrics.Lock.{
  vacant, made_by, trying, writing_owner, inside, found_taken, aged, recovering, pausing, dead,
  State, move, recovers, enter, make, find_taken, write_owner, pass_age, owner_dead, detach, retry,
  read_none, see_empty, unlink, remove, die, initial, Reach, start, later, CalmReach,
}

-- Only process 1 recovers the lock.
abbrev OnlyOne : State → Type 0
OnlyOne s = (p : ℕ) → recovers (s.place p) ≡ true → p ≡ 1

-- A calm step in which at most process 1 comes to recover.
abbrev Calm : State → Type 0
Calm s = CalmReach s × OnlyOne s

-- Process 0 takes the lock and dies.
abbrev entered_0 : State
entered_0 = move initial vacant 0 trying

abbrev made_0 : State
made_0 = move entered_0 (made_by 0 none) 0 writing_owner

abbrev inside_0 : State
inside_0 = move made_0 (made_by 0 (some 0)) 0 inside

abbrev dead_0 : State
dead_0 = move inside_0 (made_by 0 (some 0)) 0 dead

-- Process 1 finds the lock, and its age and its owner make it stale.
abbrev entered_1 : State
entered_1 = move dead_0 dead_0.directory 1 trying

abbrev found_1 : State
found_1 = move entered_1 entered_1.directory 1 found_taken

abbrev aged_1 : State
aged_1 = move found_1 found_1.directory 1 aged

abbrev recovering_1 : State
recovering_1 = move aged_1 aged_1.directory 1 recovering

-- It detaches the lock and takes its own.
abbrev detached_1 : State
detached_1 = move recovering_1 vacant 1 pausing

abbrev again_1 : State
again_1 = move detached_1 vacant 1 trying

abbrev made_1 : State
made_1 = move again_1 (made_by 1 none) 1 writing_owner

abbrev inside_1 : State
inside_1 = move made_1 (made_by 1 (some 1)) 1 inside

-- Two recoveries at once: processes 1 and 2 find the lock of 0, which is dead; 2 detaches it and takes
-- the lock; then 1 detaches the lock of 2 and takes it as well.
abbrev Both : Type 0
Both = (s : State) × Reach s × (s.place 1 ≡ inside) × (s.place 2 ≡ inside)

two-inside : Both
two-inside = (
  _,
  later
      (later
        (later
          (later
            (later
              (later
                (later
                  (later
                    (later
                      (later
                        (later
                          (later
                            (later
                              (later
                                (later
                                  (later
                                    (later
                                      (later (later (later start (enter 0 refl)) (make 0 refl refl))
                                        (write_owner 0 0 refl refl))
                                      (die 0))
                                    (enter 1 refl))
                                  (enter 2 refl))
                                (find_taken 1 0 (some 0) refl refl))
                              (find_taken 2 0 (some 0) refl refl))
                            (pass_age 1 0 (some 0) refl refl))
                          (pass_age 2 0 (some 0) refl refl))
                        (owner_dead 1 0 0 refl refl refl))
                      (owner_dead 2 0 0 refl refl refl))
                    (detach 2 refl))
                  (retry 2 refl))
                (make 2 refl refl))
              (write_owner 2 2 refl refl))
            (detach 1 refl))
          (retry 1 refl))
        (make 1 refl refl))
      (write_owner 1 1 refl refl),
  refl,
  refl,
)

-- A single recovery that is not timely: 1 tests the age of the lock of 0, which is then released; 2
-- makes its own, which 1 sees empty; 2 writes its owner file, and then 1 detaches the lock of 2.
one-recovery : Both
one-recovery = (
  _,
  later
      (later
        (later
          (later
            (later
              (later
                (later
                  (later
                    (later
                      (later
                        (later
                          (later
                            (later
                              (later
                                (later (later (later start (enter 0 refl)) (make 0 refl refl))
                                  (write_owner 0 0 refl refl))
                                (enter 1 refl))
                              (find_taken 1 0 (some 0) refl refl))
                            (pass_age 1 0 (some 0) refl refl))
                          (unlink 0 0 (some 0) refl refl))
                        (remove 0 0 refl refl))
                      (enter 2 refl))
                    (make 2 refl refl))
                  (read_none 1 refl))
                (see_empty 1 2 refl refl))
              (write_owner 2 2 refl refl))
            (detach 1 refl))
          (retry 1 refl))
        (make 1 refl refl))
      (write_owner 1 1 refl refl),
  refl,
  refl,
)
