-- ===== src/Pipeline/Rescanned.antt =====
-- A tree that is scanned by one process after the other, each killed but for the last.
use virus_detector.Base.{
  ◌≡◌, sym, subst, Bool, true, false, Option, none, some, List, Bytes, absolute, path_parts, IsName,
  ℤ, In, map, All,
}
use virus_detector.Exclude.{PathRules, is_root_inside_excluded_path}
use virus_detector.Metadata.{Json}
use virus_detector.Quarantine.{QuarantineManager}
use virus_detector.Cache.{Database, CacheManager}
use virus_detector.Resume.Manager.{ResumeManager, fresh}
use virus_detector.Resume.Checkpoint.{IsLine}
use virus_detector.Traversal.{Children, FileInfo}
use virus_detector.Traversal.Listing.{Listed, kept, list_root}
use virus_detector.Traversal.InOrder.{IsInOrder, relative_of, handed, In-map}
use virus_detector.Traversal.Walked.{walked, walked-handed}
use virus_detector.Traversal.Tidy.{AreTidy}
use virus_detector.Traversal.Named.{list_root-IsInOrder}
use virus_detector.Pipeline.{Running}
use virus_detector.Pipeline.Schedule.{Scan, Reach}
use virus_detector.Pipeline.Killed.{IsUnfinished, prepared_again}
use virus_detector.Pipeline.Prepared.{prepared-left, prepared_first}
use virus_detector.Pipeline.Whole.{Preparing, Prepared, prepare}

module _ {D J T : Type 0} (db : Database D) (json : Json J T) (Meets : Running → Type 0)
    (root : Bytes) (over : Bytes → List FileInfo) where
  -- `over` is what a walk hands over from a resume point. The processes so far, up to the one that is prepared: the first finds no checkpoint file, each
  -- other one finds what the process before it left when it was killed, in any state of its scan.
  pub data Processes : Prepared D T → Type 0 where
    first :
        (p : Preparing) (c : CacheManager D) (q : QuarantineManager T) (z : Prepared D T)
        → p.writable ≡ true
        → prepare db json p root over c (fresh none) q ≡ some z
        → Processes z
    again :
        (z : Prepared D T)
        → Processes z
        → (time : ℤ) (s : Scan D T)
        → Reach json z.automaton z.loader.signatures time (λ w. w ≡ true) Meets z.started s
        → (p : Preparing) (c : CacheManager D) (q : QuarantineManager T) (z' : Prepared D T)
        → p.writable ≡ true
        → prepare db json p root over c (fresh s.pipeline.resume_manager.checkpoint) q ≡ some z'
        → Processes z'

  -- No process had finished with the path when it was killed.
  abbrev pub IsNeverFinished : Bytes → (z : Prepared D T) → Processes z → Type 0
  IsNeverFinished x z (first p c q _ w made) = Unit
  IsNeverFinished x z (again y ps time s path p c q _ w made) =
      IsNeverFinished x y ps × IsUnfinished s x

  -- How the last of them was prepared.
  prepared_last :
      (z : Prepared D T)
      → Processes z
      → (p : Preparing) × (c : CacheManager D) × (q : QuarantineManager T) × (found : Option Bytes)
        × (p.writable ≡ true)
        × (prepare db json p root over c (fresh found) q ≡ some z)
  prepared_last z (first p c q _ w made) = (p, c, q, none, w, made)
  prepared_last z (again y ps time s path p c q _ w made) =
      (p, c, q, s.pipeline.resume_manager.checkpoint, w, made)

  as_listed :
      (es : List Listed) (p : Preparing) (c : CacheManager D) (m : ResumeManager)
      (q : QuarantineManager T) (z : Prepared D T)
      → over ≡ handed es
      → prepare db json p root over c m q ≡ some z
      → prepare db json p root (handed es) c m q ≡ some z
  as_listed es p c m q z same made = subst (λ l. prepare db json p root l c m q ≡ some z) same made

  never_finished :
      (es : List Listed) (z : Prepared D T) (ps : Processes z) (e : Listed)
      → over ≡ handed es
      → IsInOrder es
      → IsLine root
      → All IsLine (map relative_of es)
      → In e es
      → IsNeverFinished (relative_of e) z ps
      → In e (kept (path_parts z.resumed_at) es)
  never_finished es z (first p c q _ w made) e same order line lines m n =
      subst (In e)
        (sym (prepared_first db json es p root c q z (as_listed es p c (fresh none) q z same made)))
        m
  never_finished es z (again y ps time s path p c q _ w made) e same order line lines m n =
      let (p_0, c_0, q_0, found, w_0, made_0) = prepared_last y ps in
      prepared_again db json es p_0 p root c_0 c q_0 q found y z time Meets s e order line lines w_0
        (as_listed es p_0 c_0 (fresh found) q_0 y same made_0) path
        (as_listed es p c (fresh s.pipeline.resume_manager.checkpoint) q z same made)
        (never_finished es y ps e same order line lines m n.0) n.1

module _ {D J T : Type 0} (db : Database D) (json : Json J T) (Meets : Running → Type 0)
    (rules : PathRules) (excluded : List Bytes) (rs : List Bytes) (opens : Bool)
    (cs : Children) where
  -- A tree is scanned by any number of processes, one after the other. Each is killed in some state of
  -- its scan, whatever the interleaving of its walk and its tasks; the first finds no checkpoint file,
  -- and each other one the file that the one before it left. Then the scan of the last starts with
  -- handing over every file of the tree that none of those before it had finished with: it was left to
  -- hand over, or queued, or its task was running or had thrown. What a process hands over is what
  -- FileTreeWalker::walk does of the directory, which is not refused as a scan root. The tree is the
  -- same for all, and tidy: the names beside each other in a directory differ and have no slash, and
  -- none continues that of a directory with a byte below '/'. The root is an absolute path of names, no
  -- path has a newline in it, and the processes could make their saves.
  pub processes-left :
      (z : Prepared D T)
      → let es = list_root rules excluded (absolute rs) opens cs in
        let over = walked rules excluded (absolute rs) opens cs in
        (ps : Processes db json Meets (absolute rs) over z) (e : Listed)
        → is_root_inside_excluded_path rules excluded (absolute rs) ≡ false
        → All IsName rs
        → AreTidy cs
        → IsLine (absolute rs)
        → All IsLine (map relative_of es)
        → In e es
        → IsNeverFinished db json Meets (absolute rs) over (relative_of e) z ps
        → In e.1 z.started.left
  processes-left z ps e admitted names tidy line lines m n =
      let root = absolute rs in
      let es = list_root rules excluded root opens cs in
      let over = walked rules excluded root opens cs in
      let same = walked-handed rules excluded root opens cs admitted in
      let (p, c, q, found, w, made) = prepared_last db json Meets root over z ps in
      let order = list_root-IsInOrder rules excluded rs names opens cs tidy in
      let listed = as_listed db json Meets root over es p c (fresh found) q z same made in
      subst (In e.1) (sym (prepared-left db json es p root c q (fresh found) z listed)) (
        In-map (λ f. f.1) e (kept (path_parts z.resumed_at) es)
          (never_finished db json Meets root over es z ps e same order line lines m n))
