-- ===== src/Pipeline/Tests/Killed.antt =====
-- A scan of two files that is killed when the first is queued and the second is not handed over yet.
use virus_detector.Base.{
  ◌≡◌, refl, ap, ◌∙◌, inl, inr, true, false, none, some, List, [], ◌∷◌, Bytes, Option, In, bytes_lt,
  bytes_eq, path_parts, absolute, join, append_name, codes, pos, arith,
}
use virus_detector.Cache.{new_manager}
use virus_detector.Cache.Tests.{no_rows, Table, table}
use virus_detector.Metadata.Tests.{Value, values_json}
use virus_detector.Resume.Manager.{ResumeManager, fresh, resumes, begin}
use virus_detector.Resume.PathFilter.{before}
use virus_detector.Signature.{load as load_signatures}
use virus_detector.Traversal.{
  FileInfo, Children, file, nil, cons, build_info, lexically_relative, ups, climb, relative_parts,
  sort_by_name,
}
use virus_detector.Traversal.Listing.{Listed, kept, list_root, list_node, list_children, concat}
use virus_detector.Traversal.Tests.{plain}
use virus_detector.Traversal.Tidy.{AreTidy}
use virus_detector.Traversal.InOrder.{handed}
use virus_detector.Traversal.Walked.{walked, walked-handed}
use virus_detector.Pipeline.Schedule.{Scan, Reach, here, next, discovers, after_discovery}
use virus_detector.Pipeline.Rescanned.{Processes, first, again, processes-left}
use virus_detector.Pipeline.Whole.{Prepared, prepare, prepare_with}
use virus_detector.Pipeline.Tests.{q, built, preparing, Meets, signatures}

abbrev first_file : FileInfo
first_file = record {
  path = codes "/r/a";
  relative_path = codes "a";
  size = 3;
  last_modified = pos 9;
}

abbrev second : FileInfo
second = record { path = codes "/r/b"; relative_path = codes "b"; size = 1; last_modified = pos 3 }

abbrev tree : List Listed
tree = (codes "a" ∷ [], first_file) ∷ (codes "b" ∷ [], second) ∷ []

abbrev entries : Children
entries =
    cons (codes "b") (file (record { size = some 1; write_time = some (pos 3) }))
      (cons (codes "a") (file (record { size = some 3; write_time = some (pos 9) })) nil)

abbrev root : Bytes
root = absolute (codes "r" ∷ [])

abbrev listing : List Listed
listing = list_root plain [] root true entries

listed : listing ≡ tree
unfolding list_root list_children list_node build_info lexically_relative concat sort_by_name
    virus_detector.Traversal.insert_by_name ups climb relative_parts join append_name path_parts
    bytes_lt bytes_eq virus_detector.Exclude.is_excluded virus_detector.Base.contains
    virus_detector.Base.pieces virus_detector.Base.merge_pieces virus_detector.Base.ends_with_slash
    virus_detector.Exclude.normalize
listed = refl

tidy : AreTidy entries
unfolding bytes_lt
tidy =
    ((λ e. cc, (omega arith, tt)), tt, (inr refl, tt), ((λ e. cc, (omega arith, tt)), tt, tt, tt))

abbrev prepared_over : (Bytes → List FileInfo) → ResumeManager → Prepared Table Value
prepared_over over m =
    prepare_with table values_json preparing root over (new_manager no_rows none) m q
      (load_signatures preparing.signature_file preparing.write_time).0 built.0

abbrev prepared : ResumeManager → Prepared Table Value
prepared m = prepared_over (walked plain [] root true entries) m

prepare-prepared :
    (m : ResumeManager)
    → prepare table values_json preparing root
        (walked plain [] root true entries)
        (new_manager no_rows none)
        m
        q
      ≡ some (prepared m)
unfolding prepare load_signatures virus_detector.Signature.load_lines virus_detector.Base.lines
    virus_detector.Signature.is_valid_signature virus_detector.Base.trim
    virus_detector.Base.find_first_not_space virus_detector.Base.is_space
    virus_detector.Base.find_last_not_space
prepare-prepared m = rw (built.1) refl

admitted : virus_detector.Exclude.is_root_inside_excluded_path plain [] root ≡ false
unfolding virus_detector.Exclude.is_root_inside_excluded_path
admitted = refl

-- The root is not refused, and what the walk hands over is the listing.
from_listing : walked plain [] root true entries ≡ handed listing
from_listing = walked-handed plain [] root true entries admitted

-- Without a checkpoint the whole tree is listed.
whole_tree : (prepared (fresh none)).started.left ≡ first_file ∷ second ∷ []
unfolding prepare_with begin virus_detector.Resume.Manager.load resumes
    virus_detector.Resume.Manager.save path_parts kept before
whole_tree =
    ap (λ over. (prepared_over over (fresh none)).started.left) from_listing ∙ rw listed refl

abbrev killed : Scan Table Value
killed =
    after_discovery values_json built.0 signatures (pos 7) true first_file (second ∷ [])
      (prepared (fresh none)).started

killed-Reach :
    Reach values_json
      (prepared (fresh none)).automaton
      (prepared (fresh none)).loader.signatures
      (pos 7)
      (λ w. w ≡ true)
      Meets
      (prepared (fresh none)).started
      killed
killed-Reach = next here (discovers true first_file (second ∷ []) refl whole_tree)

abbrev resumed : Prepared Table Value
resumed = prepared (fresh killed.pipeline.resume_manager.checkpoint)

abbrev two_processes :
    Processes table values_json Meets root (walked plain [] root true entries) resumed
two_processes =
    again (prepared (fresh none))
      (first (preparing) (new_manager no_rows none) q (prepared (fresh none)) refl
        (prepare-prepared (fresh none)))
      (pos 7) killed killed-Reach preparing (new_manager no_rows none) q resumed refl
      (prepare-prepared (fresh killed.pipeline.resume_manager.checkpoint))

processes-left_example : In second resumed.started.left
unfolding join
processes-left_example =
    processes-left table values_json Meets plain [] (codes "r" ∷ []) true entries resumed
      two_processes (codes "b" ∷ [], second) admitted ((λ e. cc, (omega arith, tt)), tt) tidy
      (omega arith) (rw listed (omega arith)) (rw listed (inr (inl refl))) (tt, inl (inl refl))
