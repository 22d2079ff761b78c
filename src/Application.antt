-- ===== src/Application.antt =====
-- Application/Application.{h,cpp} and main.cpp: a command line, dispatched to the scan or to the
-- quarantine, and the exit code. `none` is an exception, which main catches. The scan itself, whose
-- steps Pipeline models, is an argument: what it leaves of the quarantine, or an exception.
pub mod Commands
pub mod Tests
use virus_detector.Base.{
  ℕ, Bool, true, false, Option, none, some, List, [], ◌∷◌, Bytes, codes, if◌then◌else◌,
}
use virus_detector.Cli.{
  CommandType, scan_all, scan_path, restore, restore_all, delete, list_quarantine, help, unknown,
  Command, parse,
}
use virus_detector.Metadata.{Json}
use virus_detector.Quarantine.{
  Outcome, returns, throws, QuarantineManager, Saving, Restoring, load, restore as restore_file,
  restore_all as restore_files, remove,
}

-- What a run of the program meets: whether the quarantine's directory can be made and its metadata
-- opened, the calls of restores and of a removal, and the save.
pub record Running : Type 0 where
  pub makes : Bool
  pub opens : Bool
  pub restores : Bytes → Restoring
  pub removes : Bool
  pub saves : Saving

unfoldable pub exit_code : Outcome → Option ℕ
exit_code throws = none
exit_code (returns done) = some (if done then 0 else 1)

abbrev exits : {T : Type 0} → QuarantineManager T × Outcome → QuarantineManager T × Option ℕ
exits (q, o) = (q, exit_code o)

-- The handlers of main: an exception is 1.
abbrev pub caught : {T : Type 0} → QuarantineManager T × Option ℕ → QuarantineManager T × ℕ
caught (q, none) = (q, 1)
caught (q, some n) = (q, n)

-- A scan that throws ends in main's handler, one that returns in 0 whatever it found.
abbrev scanned : {T : Type 0} → QuarantineManager T × Bool → QuarantineManager T × Option ℕ
scanned (q, true) = (q, none)
scanned (q, false) = (q, some 0)

module _ {J T : Type 0} (json : Json J T) where
  -- The switch of runQuarantine, on a loaded quarantine.
  unfoldable pub run_loaded :
      Running → CommandType → Bytes → QuarantineManager T → QuarantineManager T × Option ℕ
  unfolding exit_code
  run_loaded c restore id q = exits (restore_file json (c.restores id) c.saves id q)
  run_loaded c restore_all id q = exits (restore_files json c.restores c.saves q)
  run_loaded c delete id q = exits (remove json c.removes c.saves id q)
  run_loaded c list_quarantine id q = (q, some 0)
  run_loaded c scan_all id q = (q, some 1)
  run_loaded c scan_path id q = (q, some 1)
  run_loaded c help id q = (q, some 1)
  run_loaded c unknown id q = (q, some 1)

  unfoldable pub run_quarantine :
      Running → Command → QuarantineManager T → QuarantineManager T × Option ℕ
  unfolding run_loaded
  run_quarantine c command q =
      let (q', loaded) = load json c.makes c.opens (record q { entries = [] }) in
      let done = run_loaded c command.type command.argument q' in
      if loaded then done else (q', some 1)

module _ {J T : Type 0} (json : Json J T)
    (scan : Bytes → QuarantineManager T → QuarantineManager T × Bool) where
  unfoldable pub dispatch : Running → Command → QuarantineManager T → QuarantineManager T × Option ℕ
  unfolding run_quarantine
  dispatch c command q = elim command.type [
    | help ↦ (q, some 0)
    | scan_all ↦ scanned (scan (codes "/") q)
    | scan_path ↦ scanned (scan command.argument q)
    | restore ↦ run_quarantine json c command q
    | restore_all ↦ run_quarantine json c command q
    | delete ↦ run_quarantine json c command q
    | list_quarantine ↦ run_quarantine json c command q
    | unknown ↦ (q, some 1)
  ]

  unfoldable pub main : Running → List Bytes → QuarantineManager T → QuarantineManager T × ℕ
  unfolding dispatch
  main c argv q = caught (dispatch c (parse argv) q)
