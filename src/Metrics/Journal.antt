-- ===== src/Metrics/Journal.antt =====
-- src/hedp/operations/operational_metrics.py: the journal's files, its rotation and its appending, once
-- the lock is held. A line is known by its size in bytes. An exception leaves the files as they are at
-- that moment.
pub mod Appending
pub mod Log
use hedp.Prelude.{
  ℕ, ◌+◌, Bool, true, false, List, [], ◌∷◌, ◌++◌, leb, if◌then◌else◌, Result, ok, err,
}

pub data JournalError : Type 0 where
  unsafe_file : JournalError

-- What stands at a path: nothing, a regular file, or a link or another kind of file.
pub data Entry (Line : Type 0) : Type 0 where
  absent other : Entry Line
  regular : List Line → Entry Line

-- The active file, and the two rotated generations.
pub record Files (Line : Type 0) : Type 0 where
  pub active : Entry Line
  pub first : Entry Line
  pub second : Entry Line

abbrev pub maximum_bytes : ℕ
maximum_bytes = 1048576

module _ {Line : Type 0} (size : Line → ℕ) where
  -- `st_size`
  abbrev pub total : List Line → ℕ
  total [] = 0
  total (line ∷ lines) = size line + total lines

  abbrev pub Outcome : Type 0
  Outcome = Result JournalError (Unit {0}) × Files Line

  -- `os.replace` of the active file to the first generation
  abbrev pub shift_active : Entry Line → Entry Line → Outcome
  shift_active active second = (ok tt, record { active = absent; first = active; second = second })

  -- The loop over the generations, which here has one round; the second one is gone.
  unfoldable pub shift_first : Entry Line → Entry Line → Outcome
  shift_first active absent = shift_active active absent
  shift_first active other =
      (err unsafe_file, record { active = active; first = other; second = absent })
  shift_first active (regular lines) = shift_active active (regular lines)

  unfoldable pub rotate : Files Line → Entry Line → Outcome
  rotate files absent = shift_first files.active files.first
  rotate files other = (err unsafe_file, files)
  rotate files (regular _) = shift_first files.active files.first

  -- `_rotate_if_needed`, by what stands at the active path
  unfoldable pub rotate_if_needed : Files Line → ℕ → Entry Line → Outcome
  rotate_if_needed files incoming_size absent = (ok tt, files)
  rotate_if_needed files incoming_size other = (err unsafe_file, files)
  rotate_if_needed files incoming_size (regular lines) =
      let rotated = rotate files files.second in
      if leb (total lines + incoming_size) maximum_bytes then (ok tt, files) else rotated

  abbrev pub with_active : Files Line → List Line → Files Line
  with_active files lines = record {
    active = regular lines;
    first = files.first;
    second = files.second;
  }

  -- `_append_bytes`
  unfoldable pub append_bytes : Files Line → Line → Entry Line → Outcome
  append_bytes files line absent = (ok tt, with_active files (line ∷ []))
  append_bytes files line other = (err unsafe_file, files)
  append_bytes files line (regular lines) = (ok tt, with_active files (lines ++ line ∷ []))

  abbrev pub append_after : Line → Outcome → Outcome
  append_after line (err e, files) = (err e, files)
  append_after line (ok _, files) = append_bytes files line files.active

  -- `append`, once the lock is held
  unfoldable pub append : Files Line → Line → Outcome
  append files line = append_after line (rotate_if_needed files (size line) files.active)

  -- A run of appends; one that raises has no part in what follows but the files that it leaves.
  unfoldable pub append_all : Files Line → List Line → Files Line
  append_all files [] = files
  append_all files (line ∷ lines) = append_all (append files line).1 lines
