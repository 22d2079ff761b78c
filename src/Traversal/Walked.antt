-- ===== src/Traversal/Walked.antt =====
-- What a walk of a directory hands over from a checkpoint, collected in order.
use virus_detector.Base.{
  ◌≡◌, sym, ap, ◌∙◌, Bool, false, some, List, [], ◌∷◌, ◌++◌, append-nil, append_assoc, Bytes,
  path_parts, map,
}
use mathlib.Core.Path.{fun_ext}
use virus_detector.Exclude.{PathRules, is_root_inside_excluded_path}
use virus_detector.Traversal.{Children, directory, FileInfo, walk}
use virus_detector.Traversal.InOrder.{handed}
use virus_detector.Traversal.Listing.{Listed, kept, list_root}
use virus_detector.Traversal.Resumed.{on, feed, walk-kept}

abbrev collect : FileInfo → List FileInfo → List FileInfo
collect info fs = fs ++ info ∷ []

module _ (rules : PathRules) (excluded : List Bytes) (root : Bytes) (opens : Bool)
    (cs : Children) where
  -- FileTreeWalker::walk of the root directory from a checkpoint, with a handler that collects.
  abbrev pub walked : Bytes → List FileInfo
  walked from =
      (walk rules excluded root (on rules excluded root collect) (some (directory opens cs)) from
        []).0

  feed-collect :
      (es : List Listed) (fs : List FileInfo)
      → feed rules excluded root collect es fs ≡ fs ++ map (λ e. e.1) es
  unfolding feed
  feed-collect [] fs = sym (append-nil fs)
  feed-collect (e ∷ es) fs =
      feed-collect es (collect e.1 fs) ∙ append_assoc fs (e.1 ∷ []) (map (λ e. e.1) es)

  -- For a root that is not refused, it is the listing from the checkpoint on.
  pub walked-handed :
      is_root_inside_excluded_path rules excluded root ≡ false
      → walked ≡ handed (list_root rules excluded root opens cs)
  walked-handed outside = fun_ext (λ from.
      ap (λ r. r.0) (walk-kept rules excluded root collect opens cs from [] outside)
      ∙ feed-collect (kept (path_parts from) (list_root rules excluded root opens cs)) [])
