-- ===== src/GasQueue/Importer.antt =====
-- src/hedp/adapters/fusionsolar/gas_queue_importer.py: `FusionSolarGasQueueImporter`, from the files of
-- a queue to the database, and what a completed import of a queue comes to.
use Prim.Native.String.{String}
use hedp.Prelude.{ℕ, ◌≡◌, refl, Bool, true, List, Result, ok, err, ◌>>=◌}
use hedp.Prelude.Json.{Members}
use hedp.GasQueue.{GasQueueError, Candidate, Database, Report}
use hedp.GasQueue.Store.{run, inspect}
use hedp.GasQueue.Atomic.{is_completed}
use hedp.GasQueue.Again.{AllStored, run-again}
use hedp.GasQueue.Sound.{IsSound, run-IsSound}
use hedp.GasQueue.Envelope.{Library, File, candidates}
use hedp.GasQueue.Envelope.Checked.{AllChecked}
use hedp.GasQueue.Envelope.OneHash.{AllAgree, candidates-AllChecked}

module _ (lib : Library) (same : Members → Members → Bool) (clock : Candidate Members → String)
    (now : ℕ) (path_is_link : Bool) (files : List File) where
  -- `inspect` of a path
  unfoldable pub inspect_path : Result GasQueueError Report
  inspect_path = candidates lib now path_is_link files >>= λ items. ok (inspect same items)

  abbrev pub run_candidates :
      Database Members
      → Database Members
      → Bool
      → Result GasQueueError (List (Candidate Members))
      → Result GasQueueError Report × Database Members
  run_candidates seen locked is_dry_run (err e) = (err e, locked)
  run_candidates seen locked is_dry_run (ok items) = run same clock seen locked items is_dry_run

  -- `run` of a path, on the database as it is first seen and as it is once it is locked
  unfoldable pub run_path :
      Database Members → Database Members → Bool → Result GasQueueError Report × Database Members
  run_path seen locked is_dry_run =
      run_candidates seen locked is_dry_run (candidates lib now path_is_link files)

  -- The files were read to candidates, each of them checked; they agree with each other; and each of
  -- them has its receipt in the database.
  abbrev pub Imported : Database Members → Type 0
  Imported db =
      (items : List (Candidate Members)) × AllChecked lib files items
      × AllAgree items
      × AllStored same clock db items

  run_candidates-Imported :
      (seen locked : Database Members) (is_dry_run : Bool)
      (read : Result GasQueueError (List (Candidate Members)))
      → candidates lib now path_is_link files ≡ read
      → is_completed (run_candidates seen locked is_dry_run read).0 ≡ true
      → Imported (run_candidates seen locked is_dry_run read).1
  run_candidates-Imported seen locked is_dry_run (err e) is_read is_done = cc
  run_candidates-Imported seen locked is_dry_run (ok items) is_read is_done =
      let (_, _, _, checked, agree) =
        candidates-AllChecked lib now path_is_link files items is_read in
      (items, checked, agree, (run-again same clock seen locked items is_dry_run is_done).0)

  run_candidates-IsSound :
      (seen locked : Database Members) (is_dry_run : Bool)
      (read : Result GasQueueError (List (Candidate Members)))
      → IsSound locked
      → IsSound (run_candidates seen locked is_dry_run read).1
  run_candidates-IsSound seen locked is_dry_run (err e) sound = sound
  run_candidates-IsSound seen locked is_dry_run (ok items) sound =
      run-IsSound same clock seen locked items is_dry_run sound

  -- Once the run of a path is completed, every file of it has been checked, its payload and its
  -- request among others, and has its receipt in the database, no two files of a source and a day
  -- differ in their payload's hash, and the database is sound if it was.
  pub run_path-Imported :
      (seen locked : Database Members) (is_dry_run : Bool)
      → IsSound locked
      → is_completed (run_path seen locked is_dry_run).0 ≡ true
      → Imported (run_path seen locked is_dry_run).1 × IsSound (run_path seen locked is_dry_run).1
  unfolding run_path
  run_path-Imported seen locked is_dry_run sound is_done = (
    run_candidates-Imported seen locked is_dry_run (candidates lib now path_is_link files) refl
        is_done,
    run_candidates-IsSound seen locked is_dry_run (candidates lib now path_is_link files) sound,
  )
