-- ===== src/Pipeline/Tests/Tree.antt =====
-- A whole scan of a root with one infected file.
use virus_detector.Base.{
  ◌≡◌, refl, ap, ◌∙◌, inl, inr, true, false, none, some, List, [], ◌∷◌, Bytes, Option, In, bytes_lt,
  bytes_eq, path_parts, absolute, join, append_name, codes, pos, arith, All, subst, sym,
}
use virus_detector.Automaton.Insert.{AreBytes}
use virus_detector.Cache.{new_manager, cached_verdict, verdict_for}
use virus_detector.Cache.Tests.{no_rows, Table, table}
use virus_detector.Files.{RegularFile}
use virus_detector.Metadata.Tests.{Value, values_json}
use virus_detector.Quarantine.{load as load_quarantine}
use virus_detector.Resume.Manager.{ResumeManager, fresh, resumes, begin}
use virus_detector.Resume.PathFilter.{before}
use virus_detector.Signature.{load as load_signatures}
use virus_detector.Traversal.{
  FileInfo, Children, file, nil, cons, build_info, lexically_relative, ups, climb, relative_parts,
  sort_by_name,
}
use virus_detector.Traversal.Listing.{Listed, kept, list_root, list_node, list_children, concat}
use virus_detector.Traversal.Tests.{plain}
use virus_detector.Traversal.InOrder.{handed}
use virus_detector.Traversal.Walked.{walked, walked-handed}
use virus_detector.Pipeline.{Task, metadata_of, handle_discovered_file, handle_cache_miss}
use virus_detector.Pipeline.Schedule.{
  Scan, Reach, here, next, discovers, runs, finishes, after_discovery, after_task, after_finish,
}
use virus_detector.Pipeline.Tree.{IsJudgedRightly, prepare-cached_verdict}
use virus_detector.Pipeline.Verdicts.{IsOutside}
use virus_detector.Pipeline.Whole.{Prepared, prepare, prepare_with}
use virus_detector.Pipeline.Tests.{
  info, q, built, preparing, running, Writes, outside, loaded-AreBytes, contents-AreBytes,
}

abbrev entries : Children
entries = cons (codes "a") (file (record { size = some 3; write_time = some (pos 9) })) nil

abbrev listing : List Listed
listing = list_root plain [] (absolute []) true entries

listed : listing ≡ (codes "a" ∷ [], info) ∷ []
unfolding list_root list_children list_node build_info lexically_relative concat sort_by_name
    virus_detector.Traversal.insert_by_name ups climb relative_parts join append_name path_parts
    bytes_lt bytes_eq virus_detector.Exclude.is_excluded virus_detector.Base.contains
    virus_detector.Base.pieces virus_detector.Base.merge_pieces virus_detector.Base.ends_with_slash
    virus_detector.Exclude.normalize
listed = refl

abbrev prepared : (Bytes → List FileInfo) → Prepared Table Value
prepared over =
    prepare_with table values_json preparing (absolute []) over (new_manager no_rows none)
      (fresh none) q (load_signatures preparing.signature_file preparing.write_time).0 built.0

abbrev z : Prepared Table Value
z = prepared (walked plain [] (absolute []) true entries)

made :
    prepare table values_json preparing
      (absolute [])
      (walked plain [] (absolute []) true entries)
      (new_manager no_rows none)
      (fresh none)
      q
    ≡ some z
unfolding prepare load_signatures virus_detector.Signature.load_lines virus_detector.Base.lines
    virus_detector.Signature.is_valid_signature virus_detector.Base.trim
    virus_detector.Base.find_first_not_space virus_detector.Base.is_space
    virus_detector.Base.find_last_not_space
made = rw (built.1) refl

admitted : virus_detector.Exclude.is_root_inside_excluded_path plain [] (absolute []) ≡ false
unfolding virus_detector.Exclude.is_root_inside_excluded_path
admitted = refl

-- The root is not refused, and what the walk hands over is the listing.
from_listing : walked plain [] (absolute []) true entries ≡ handed listing
from_listing = walked-handed plain [] (absolute []) true entries admitted

-- The whole tree is handed over.
whole_tree : (z.started.left ≡ info ∷ []) × (kept (path_parts z.resumed_at) listing ≡ listing)
unfolding prepare_with begin virus_detector.Resume.Manager.load resumes
    virus_detector.Resume.Manager.save path_parts kept before
whole_tree =
    (ap (λ over. (prepared over).started.left) from_listing ∙ rw listed refl, rw listed refl)

abbrev task : Task
task = record { info = info; metadata = metadata_of info z.loader.last_modified }

abbrev discovered : Scan Table Value
discovered =
    after_discovery values_json z.automaton z.loader.signatures z.loader.last_modified true info []
      z.started

abbrev over : Scan Table Value
over = after_finish values_json z.automaton z.loader.signatures z.loader.last_modified true (
    after_task values_json z.automaton z.loader.signatures z.loader.last_modified running task []
      discovered)

queued : discovered.pipeline.tasks ≡ task ∷ []
unfolding handle_discovered_file handle_cache_miss cached_verdict verdict_for prepare_with
    virus_detector.Cache.load virus_detector.Cache.last_completed virus_detector.Cache.load_all
    virus_detector.Cache.map_row
queued = refl

over-Reach :
    Reach values_json z.automaton z.loader.signatures z.loader.last_modified Writes
      (IsOutside z.started.left)
      z.started
      over
over-Reach =
    next
      (next (next here (discovers true info [] refl whole_tree.0)) (
        runs running [] [] task refl (subst (λ l. IsOutside l running) (sym whole_tree.0) outside)
          queued))
      (finishes true refl refl)

bytes :
    (p : Bytes) (f : RegularFile)
    → z.started.pipeline.quarantine_manager.files p ≡ some f
    → AreBytes f.content
unfolding prepare_with load_quarantine
bytes = contents-AreBytes

prepare-cached_verdict_example : IsJudgedRightly z over info
prepare-cached_verdict_example =
    prepare-cached_verdict table values_json Writes plain [] [] true entries tt
      ((λ e. cc, (omega arith, tt)), tt, tt, tt) preparing (new_manager no_rows none) (fresh none) q
      z over (codes "a" ∷ [], info) admitted loaded-AreBytes made bytes over-Reach refl refl
      (rw (whole_tree.1, listed) (inl refl))
