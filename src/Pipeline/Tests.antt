-- ===== src/Pipeline/Tests.antt =====
-- A scan of one infected file: it is discovered, its task runs, discovery finishes.
mod Killed
mod Tree
mod Cut
use virus_detector.Base.{
  ◌≢◌, ◌≤◌, ◌⊎◌, ◌∙◌, inl, inr, sym, ap, subst, In, All, Bool-cases, ℕ, ◌==◌, Option, ◌+◌, ◌≡◌,
  refl, true, false, none, some, List, [], ◌∷◌, Bytes, codes, bytes_eq, pos, length, if◌then◌else◌,
  Bool, All, arith,
}
use virus_detector.Automaton.{Automaton, build}
use virus_detector.Automaton.Insert.{AreBytes}
use virus_detector.FileProcessor.Process.{process-IsInfix}
use virus_detector.Pipeline.Judged.{times, paths}
use virus_detector.Pipeline.Verdicts.{IsOutside, IsVerdict, ended-cached_verdict}
use mathlib.Core.Option.{some-injective}
use virus_detector.FileProcessor.{process}
use virus_detector.Cache.{
  FileVerdict, CacheManager, opening, committing, new_manager, cached_verdict, verdict_for,
  commit_generation,
}
use virus_detector.Cache.Tests.{no_rows, Table, table}
use virus_detector.Cache.NextRun.{loaded}
use virus_detector.Signature.{load as load_signatures}
use virus_detector.Pipeline.Whole.{Preparing, Prepared, prepare, IsReady, prepare-IsReady, commit}
use virus_detector.Pipeline.Again.{scanned-cached_verdict}
use virus_detector.Resume.Manager.{ResumeManager, fresh, completed, load, discovery_finished}
use virus_detector.Pipeline.Finish.{finished-checkpoint}
use virus_detector.Traversal.{FileInfo}
use virus_detector.Metadata.Tests.{Value, values_json, plain, is_plain}
use virus_detector.Metadata.{root_json, to_json, add}
use virus_detector.Files.{RegularFile, Calls}
use virus_detector.Quarantine.{QuarantineManager, Quarantining, saving, quarantine, new_entry}
use virus_detector.Pipeline.{
  read_file, Task, Running, metadata_of, handle_discovered_file, handle_cache_miss,
}
use virus_detector.Pipeline.Schedule.{
  ending, quarantine_ending, Scan, Reach, here, next, discovers, runs, finishes, after_discovery,
  after_task, after_finish, start,
}
use virus_detector.Pipeline.Accounts.{IsAccounted, Reach-IsAccounted, ended-summary}

abbrev info : FileInfo
info = record { path = codes "/a"; relative_path = codes "a"; size = 3; last_modified = pos 9 }

abbrev signatures : List Bytes
signatures = codes "E" ∷ []

signatures-AreBytes : All AreBytes signatures
signatures-AreBytes = ((omega arith, tt), tt)

abbrev toward : ℕ → Option ℕ
toward b = if b == 69 then some 1 else some 0

-- The automaton of one signature of one byte.
abbrev a : Automaton
a = record {
  nodes =
      record { next = toward; failure_link = 0; output = [] }
      ∷ record { next = toward; failure_link = 0; output = 0 ∷ [] }
      ∷ [];
  signature_count = 1;
  built = true;
}

abbrev cache : CacheManager Table
cache = loaded table no_rows none

abbrev bad : RegularFile
bad = record { content = codes "xE"; permissions = 493 }

abbrev q : QuarantineManager Value
q = record {
  entries = [];
  metadata_file = none;
  files = λ p. if bytes_eq (codes "/a") p then some bad else none;
}

abbrev renaming : Calls
renaming = record { renames = true; copies = false; removes = false; copied_permissions = 0 }

abbrev quarantining : Quarantining
quarantining = record {
  moves = renaming;
  moves_back = renaming;
  saves = saving;
  id = codes "0f";
  destination = codes "q/0f";
  time = codes "now";
}

abbrev running : Running
running = record { writable = true; opens = true; breaks = none; quarantining = quarantining }

abbrev task : Task
task = record { info = info; metadata = metadata_of info (pos 7) }

abbrev Writes : Bool → Type 0
Writes b = b ≡ true

abbrev Meets : Running → Type 0
Meets = IsOutside (info ∷ [])

outside : Meets running
unfolding times bytes_eq
outside = refl

abbrev started : Scan Table Value
started = start cache (fresh none) q (info ∷ [])

abbrev found : Automaton → Scan Table Value
found a = after_discovery values_json a signatures (pos 7) true info [] started

abbrev judged : Automaton → Scan Table Value
judged a = after_task values_json a signatures (pos 7) running task [] (found a)

abbrev over : Automaton → Scan Table Value
over a = after_finish values_json a signatures (pos 7) true (judged a)

over-Reach : (a : Automaton) → Reach values_json a signatures (pos 7) Writes Meets started (over a)
unfolding handle_discovered_file handle_cache_miss cached_verdict verdict_for
    virus_detector.Cache.load virus_detector.Cache.last_completed virus_detector.Cache.load_all
    virus_detector.Cache.map_row
over-Reach a =
    next
      (next (next here (discovers true info [] refl refl))
        (runs running [] [] task refl outside refl))
      (finishes true refl refl)

Reach-IsAccounted_example : IsAccounted (over a).pipeline.summary (length (over a).pipeline.tasks)
Reach-IsAccounted_example =
    Reach-IsAccounted values_json a signatures (pos 7) Writes Meets cache (fresh none) q (info ∷ [])
      (over a) (over-Reach a)

-- The file holds the signature, and its quarantine comes back.
scanned : process a signatures (some (codes "xE")) ≡ some signatures
unfolding process virus_detector.FileProcessor.read_loop
    virus_detector.FileProcessor.matched_signatures virus_detector.FileProcessor.lookup_signatures
    virus_detector.FileProcessor.sort virus_detector.FileProcessor.insert_sorted
    virus_detector.Automaton.scan_chunk virus_detector.Automaton.step
    virus_detector.Automaton.outputs virus_detector.Automaton.next virus_detector.Automaton.output
    virus_detector.Automaton.index virus_detector.Automaton.insert_all
    virus_detector.Automaton.insert_index
scanned = refl

calm : (over a).thrown ≡ []
unfolding ending quarantine_ending read_file bytes_eq plain is_plain quarantine new_entry root_json
    to_json add virus_detector.Quarantine.save handle_discovered_file handle_cache_miss
    cached_verdict verdict_for virus_detector.Files.move_present virus_detector.Cache.load
    virus_detector.Cache.last_completed virus_detector.Cache.load_all virus_detector.Cache.map_row
calm = rw scanned refl

marked : (m : ResumeManager) → (discovery_finished true m).0.discovery_finished ≡ true
unfolding discovery_finished
marked m = ground arith

finished-checkpoint_example :
    ((over a).pipeline.resume_manager.unfinished_files ≡ [])
    × (load (over a).pipeline.resume_manager.checkpoint ≡ some ([], completed, []))
finished-checkpoint_example =
    finished-checkpoint values_json a signatures (pos 7) Meets cache (fresh none) q (info ∷ [])
      (over a) refl refl tt (over-Reach a) (marked (judged a).pipeline.resume_manager) refl calm

abbrev built : (b : Automaton) × (build signatures ≡ some b)
built = let (b, e, _, _) = process-IsInfix signatures signatures-AreBytes in (b, e)

abbrev reached : Scan Table Value
reached = over (built.0)

times_info : (p : Bytes) → times p (paths (info ∷ [])) ≤ 1
unfolding times
times_info p = ground arith

contents-AreBytes : (p : Bytes) (f : RegularFile) → q.files p ≡ some f → AreBytes f.content
contents-AreBytes p f e = elim (Bool-cases (bytes_eq (codes "/a") p)) [
  | inl h ↦
      subst (λ g. AreBytes g.content)
        (some-injective bad f (sym (ap (λ b. if b then some bad else none) h) ∙ e))
        (omega arith, (omega arith, tt))
  | inr h ↦ absurd (missing (sym (ap (λ b. if b then some bad else none) h) ∙ e))
]
  where
    missing : none ≢ some f
    missing e = cc

ended-cached_verdict_example :
    In info.path reached.faults
    ⊎ ((v : FileVerdict) × (cached_verdict info.path
            (metadata_of info (pos 7))
            reached.pipeline.cache_manager
          ≡ some v)
        × ((cached_verdict info.path (metadata_of info (pos 7)) cache ≡ some v)
            ⊎ ((cached_verdict info.path (metadata_of info (pos 7)) cache ≡ none)
                × ((f : RegularFile) × (q.files info.path ≡ some f)
                    × IsVerdict signatures f.content v))))
ended-cached_verdict_example =
    ended-cached_verdict values_json built.0 signatures (pos 7) Writes cache (fresh none) q
      (info ∷ []) times_info reached built.1 signatures-AreBytes contents-AreBytes
      (over-Reach built.0) refl refl info (inl refl)

sound : (over a).faults ≡ []
unfolding ending quarantine_ending read_file bytes_eq plain is_plain quarantine new_entry root_json
    to_json add virus_detector.Quarantine.save handle_discovered_file handle_cache_miss
    cached_verdict verdict_for virus_detector.Files.move_present virus_detector.Cache.load
    virus_detector.Cache.last_completed virus_detector.Cache.load_all virus_detector.Cache.map_row
sound = rw scanned refl

scanned-cached_verdict_example :
    let after = (commit table committing (codes "/r") (over a)).pipeline.cache_manager in
    (v : FileVerdict) × (cached_verdict info.path
        (metadata_of info (pos 7))
        (over a).pipeline.cache_manager
      ≡ some v)
    × (cached_verdict info.path
          (metadata_of info (pos 7))
          (loaded table after.storage after.generation_file)
        ≡ some v)
unfolding virus_detector.Cache.last_completed
scanned-cached_verdict_example =
    scanned-cached_verdict table values_json a signatures (pos 7) Writes no_rows none (fresh none) q
      (info ∷ []) times_info (over a) (codes "/r") info (over-Reach a) refl refl (inl refl)
      (λ n. subst (In info.path) sound n) (omega arith) (omega arith) tt

abbrev preparing : Preparing
preparing = record {
  signature_file = some (codes "E");
  write_time = some (pos 7);
  database = opening;
  makes = true;
  metadata_opens = true;
  writable = true;
}

loaded-AreBytes :
    All AreBytes (load_signatures preparing.signature_file preparing.write_time).0.signatures
unfolding load_signatures virus_detector.Signature.load_lines virus_detector.Base.lines
    virus_detector.Signature.is_valid_signature virus_detector.Base.trim
    virus_detector.Base.find_first_not_space virus_detector.Base.is_space
    virus_detector.Base.find_last_not_space
loaded-AreBytes = ((omega arith, tt), tt)
