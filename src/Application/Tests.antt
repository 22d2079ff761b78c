-- ===== src/Application/Tests.antt =====
-- A quarantined file and the command line that brings it back; a command line of no command.
use virus_detector.Base.{
  ◌≡◌, refl, inl, inr, true, false, none, some, [], ◌∷◌, ◌++◌, Bytes, codes, bytes_eq, arith, Bool,
}
use virus_detector.Cli.{restore, usage}
use virus_detector.Metadata.{root_json, to_json, find, add}
use virus_detector.Metadata.Tests.{Value, values_json, plain, is_plain}
use virus_detector.Quarantine.{QuarantineManager, saving, new_entry, quarantine}
use virus_detector.Quarantine.Tests.{infected, bad, calls, entry, restoring}
use virus_detector.Application.{Running, main}
use virus_detector.Application.Commands.{main-quarantine}

abbrev no_scan : Bytes → QuarantineManager Value → QuarantineManager Value × Bool
no_scan root q = (q, false)

abbrev all_well : Running
all_well = record {
  makes = true;
  opens = true;
  restores = λ id. restoring;
  removes = true;
  saves = saving;
}

main-quarantine_example :
    let held = (quarantine values_json (calls saving) (codes "/a") [] infected).0 in
    let r =
      main values_json no_scan all_well (codes "av" ∷ (usage restore (codes "0f") ++ [])) held in
    (held.files (codes "/a") ≡ none)
    × (r.1 ≡ 0)
    × ((p : Bytes) → r.0.files p ≡ infected.files p)
    × (r.0.entries ≡ infected.entries)
    × (r.0.metadata_file ≡ some (root_json values_json []))
unfolding find bytes_eq plain is_plain root_json to_json new_entry add
    virus_detector.Metadata.permission_fields
main-quarantine_example =
    main-quarantine values_json no_scan (calls saving) (codes "/a") [] infected bad all_well
      (codes "av") [] (root_json values_json (entry ∷ [])) (root_json values_json []) refl refl
      (inl refl) refl refl refl refl tt (omega arith) (omega arith) refl refl refl
      (inr (refl, refl), refl, refl)
