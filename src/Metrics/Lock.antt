-- ===== src/Metrics/Lock.antt =====
-- src/hedp/operations/operational_metrics.py: the lock of the journal, as steps of the processes that
-- use it. A process is a number; the lock's directory is there, made by a process and with an owner file
-- or without, or is not. Each step is one call on the file system: a test sees what stands at the path
-- at that moment, and so does a rename or a removal.
pub mod Exclusive
use hedp.Prelude.{ℕ, ◌≡◌, Bool, true, false, Option, none, some, ◌==◌, if◌then◌else◌}

-- Who made the directory, and whom its owner file tells.
pub data Directory : Type 0 where
  vacant : Directory
  made_by : ℕ → Option ℕ → Directory

-- Where a process is: outside `_exclusive_lock`; before its `mkdir`; before its owner file is written;
-- in the body; past the `unlink` of `_release_lock`; in `_recover_stale_lock_if_safe` at first, past the
-- test of the age, past an owner file that tells nobody, before the rename; past it all; or gone.
pub data Place : Type 0 where
  outside trying writing_owner inside releasing : Place
  found_taken aged ownerless recovering pausing dead : Place

pub record State : Type 0 where
  pub directory : Directory
  pub place : ℕ → Place

abbrev pub move : State → Directory → ℕ → Place → State
move s directory p place = record {
  directory = directory;
  place = λ q. if q == p then place else s.place q;
}

-- The lock is being acquired, held or released.
abbrev pub holds : Place → Bool
holds writing_owner = true
holds inside = true
holds releasing = true
holds _ = false

-- Past the test of the age, and not yet past the rename.
abbrev pub recovers : Place → Bool
recovers aged = true
recovers ownerless = true
recovers recovering = true
recovers _ = false

pub data Step (s : State) : State → Type 0 where
  enter : (p : ℕ) → s.place p ≡ outside → Step s (move s s.directory p trying)
  -- `mkdir`: it makes the directory, finds it there, or fails.
  make :
      (p : ℕ)
      → s.place p ≡ trying
      → s.directory ≡ vacant
      → Step s (move s (made_by p none) p writing_owner)
  find_taken :
      (p q : ℕ) (owner : Option ℕ)
      → s.place p ≡ trying
      → s.directory ≡ made_by q owner
      → Step s (move s s.directory p found_taken)
  make_fails : (p : ℕ) → s.place p ≡ trying → Step s (move s s.directory p outside)
  -- `_write_lock_owner`: where the owner file cannot be opened the directory is left, and where it is
  -- there already this is taken for a lock that is there.
  write_owner :
      (p q : ℕ)
      → s.place p ≡ writing_owner
      → s.directory ≡ made_by q none
      → Step s (move s (made_by q (some p)) p inside)
  owner_exists :
      (p q r : ℕ)
      → s.place p ≡ writing_owner
      → s.directory ≡ made_by q (some r)
      → Step s (move s s.directory p found_taken)
  open_fails : (p : ℕ) → s.place p ≡ writing_owner → Step s (move s s.directory p outside)
  write_fails :
      (p q : ℕ)
      → s.place p ≡ writing_owner
      → s.directory ≡ made_by q none
      → Step s (move s s.directory p releasing)
  -- `_recover_stale_lock_if_safe`: the age, the owner and whether the directory is empty, each as it
  -- is then; any of them may end it.
  pass_age :
      (p q : ℕ) (owner : Option ℕ)
      → s.place p ≡ found_taken
      → s.directory ≡ made_by q owner
      → Step s (move s s.directory p aged)
  owner_dead :
      (p q r : ℕ)
      → s.place p ≡ aged
      → s.directory ≡ made_by q (some r)
      → s.place r ≡ dead
      → Step s (move s s.directory p recovering)
  read_none : (p : ℕ) → s.place p ≡ aged → Step s (move s s.directory p ownerless)
  see_empty :
      (p q : ℕ)
      → s.place p ≡ ownerless
      → s.directory ≡ made_by q none
      → Step s (move s s.directory p recovering)
  detach : (p : ℕ) → s.place p ≡ recovering → Step s (move s vacant p pausing)
  leave_young : (p : ℕ) → s.place p ≡ found_taken → Step s (move s s.directory p pausing)
  leave_lock : (p : ℕ) → recovers (s.place p) ≡ true → Step s (move s s.directory p pausing)
  retry : (p : ℕ) → s.place p ≡ pausing → Step s (move s s.directory p trying)
  give_up : (p : ℕ) → s.place p ≡ pausing → Step s (move s s.directory p outside)
  -- `_release_lock`: the `unlink` of the owner file, then the `rmdir` of an empty directory.
  unlink :
      (p q : ℕ) (owner : Option ℕ)
      → s.place p ≡ inside
      → s.directory ≡ made_by q owner
      → Step s (move s (made_by q none) p releasing)
  unlink_nothing : (p : ℕ) → s.place p ≡ inside → Step s (move s s.directory p releasing)
  remove :
      (p q : ℕ)
      → s.place p ≡ releasing
      → s.directory ≡ made_by q none
      → Step s (move s vacant p outside)
  remove_fails : (p : ℕ) → s.place p ≡ releasing → Step s (move s s.directory p outside)
  die : (p : ℕ) → Step s (move s s.directory p dead)

abbrev pub initial : State
initial = record { directory = vacant; place = λ p. outside }

pub data Reach : State → Type 0 where
  start : Reach initial
  later : {s t : State} → Reach s → Step s t → Reach t

-- No two processes are between the test of the age and the rename at once.
abbrev pub OneRecovers : State → Type 0
OneRecovers s = (p q : ℕ) → recovers (s.place p) ≡ true → recovers (s.place q) ≡ true → p ≡ q

-- A lock is not old enough as long as the process that made it holds it.
abbrev pub IsTimely : State → State → Type 0
IsTimely s t =
    (p q : ℕ) (owner : Option ℕ)
    → s.place p ≡ found_taken
    → t.place p ≡ aged
    → s.directory ≡ made_by q owner
    → holds (s.place q) ≡ false

-- The states that are reached by timely steps without two recoveries at once.
pub data CalmReach : State → Type 0 where
  calm_start : CalmReach initial
  calm_later : {s t : State} → CalmReach s → Step s t → IsTimely s t → OneRecovers t → CalmReach t
