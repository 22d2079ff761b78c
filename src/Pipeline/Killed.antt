-- ===== src/Pipeline/Killed.antt =====
-- A process that is killed at any moment of its walk, and the next one, over the checkpoint file that
-- the first has left.
use virus_detector.Base.{
  ◌≤◌, ◌≡◌, refl, sym, ap, ◌∙◌, subst, ◌⊎◌, inl, inr, Bool, true, false, Option, some, List, [],
  ◌∷◌, Bytes, bytes_eq, bytes_eq→eq, bytes_lt, bytes_lt_irrefl, path_parts, ℤ, In, map, All, arith,
  Bool-cases, not_both,
}
use virus_detector.Automaton.{Automaton}
use virus_detector.Metadata.{Json}
use virus_detector.Quarantine.{QuarantineManager}
use virus_detector.Cache.{Database, CacheManager}
use virus_detector.Signature.{SignatureLoader, load as load_signatures}
use virus_detector.Resume.Manager.{fresh, begin}
use virus_detector.Resume.PathFilter.{before}
use virus_detector.Resume.Checkpoint.{IsLine, IsBefore, IsAscending}
use virus_detector.Resume.Restarted.{resume_point, safe_point, begun-IsSafe}
use virus_detector.Resume.Tracking.{begin-no_files}
use virus_detector.Resume.Safe.{IsSafe}
use virus_detector.Traversal.Listing.{Listed, kept}
use virus_detector.Traversal.InOrder.{
  relative_of, IsInOrder, handed, kept-In, In-kept, not_before, kept-IsAscending, In-map,
  In-map-cases,
}
use virus_detector.Pipeline.{Running}
use virus_detector.Pipeline.Judged.{times}
use virus_detector.Pipeline.Schedule.{Scan, Reach, here, next, discovers, finishes, runs, start}
use virus_detector.Pipeline.Unfinished.{relative_paths, IsOpen, IsUndamaged, discovers-IsUndamaged}
use virus_detector.Pipeline.Undamaged.{finishes-IsUndamaged, runs-IsUndamaged}
use virus_detector.Pipeline.Prepared.{prepare-some, kept_none}
use virus_detector.Pipeline.Whole.{Preparing, Prepared, prepare, prepare_with, begin_root}

times_below : (x : Bytes) (xs : List Bytes) → IsBefore x xs → times x xs ≡ 0
unfolding times
times_below x [] h = refl
times_below x (y ∷ xs) h = elim (Bool-cases (bytes_eq y x)) [
  | inl e ↦ absurd (
      not_both (bytes_lt x x) (ap (bytes_lt x) (sym (bytes_eq→eq y x e)) ∙ h.0) (bytes_lt_irrefl x))
  | inr e ↦ rw e (omega (arith, times_below x xs h.1))
]

times_ascending : (p : Bytes) (xs : List Bytes) → IsAscending xs → times p xs ≤ 1
unfolding times
times_ascending p [] h = omega arith
times_ascending p (x ∷ xs) h = elim (Bool-cases (bytes_eq x p)) [
  | inl e ↦ rw e (omega (arith, times_below x xs h.0, ap (λ z. times z xs) (bytes_eq→eq x p e)))
  | inr e ↦ rw e (omega (arith, times_ascending p xs h.1))
]

map-handed : (es : List Listed) → relative_paths (map (λ e. e.1) es) ≡ map relative_of es
map-handed [] = refl
map-handed (e ∷ es) = ap (◌∷◌ (relative_of e)) (map-handed es)

-- Left to hand over, queued, running, or its task threw.
abbrev pub IsUnfinished : {D T : Type 0} → Scan D T → Bytes → Type 0
IsUnfinished s x = In x (relative_paths s.left) ⊎ IsOpen s.pipeline.tasks s.thrown x

module _ {D J T : Type 0} (json : Json J T) (a : Automaton) (signatures : List Bytes) (time : ℤ)
    (Meets : Running → Type 0) (from root : Bytes) (listed : List Bytes) (line : IsLine root)
    (lines : All IsLine listed) (s_0 : Scan D T)
    (h_0 : IsUndamaged from root listed s_0.pipeline.resume_manager s_0.pipeline.tasks s_0.thrown
      s_0.left) where
  Reach-IsUndamaged :
      (s : Scan D T)
      → Reach json a signatures time (λ w. w ≡ true) Meets s_0 s
      → IsUndamaged from root listed s.pipeline.resume_manager s.pipeline.tasks s.thrown s.left
  Reach-IsUndamaged s here = h_0
  Reach-IsUndamaged s (next {t = r} path (discovers true info rest w e)) =
      discovers-IsUndamaged from root listed line lines time info rest r.pipeline r.thrown (
        subst (IsUndamaged from root listed r.pipeline.resume_manager r.pipeline.tasks r.thrown) e
          (Reach-IsUndamaged r path))
  Reach-IsUndamaged s (next {t = r} path (discovers false info rest w e)) =
      absurd (not_both false w refl)
  Reach-IsUndamaged s (next {t = r} path (finishes true w e)) =
      finishes-IsUndamaged from root listed line lines r.pipeline.resume_manager r.pipeline.tasks
        r.thrown r.left (Reach-IsUndamaged r path)
  Reach-IsUndamaged s (next {t = r} path (finishes false w e)) = absurd (not_both false w refl)
  Reach-IsUndamaged s (next {t = r} path (runs k before after t w meets e)) =
      runs-IsUndamaged from root listed line lines json a signatures k before after t r w e
        (Reach-IsUndamaged r path)

-- What begin sets up for a listing in order.
start-IsUndamaged :
    {D T : Type 0} (writable : Bool) (found : Option Bytes) (root : Bytes) (es : List Listed)
    (c : CacheManager D) (q : QuarantineManager T)
    → writable ≡ true
    → IsInOrder es
    → IsLine root
    → let from = resume_point writable root found in
      let s = start c (begin writable root (fresh found)).0 q (handed es from) in
      IsUndamaged from root
        (map relative_of es)
        s.pipeline.resume_manager
        s.pipeline.tasks
        s.thrown
        s.left
unfolding times
start-IsUndamaged false found root es c q w order line = absurd (not_both false w refl)
start-IsUndamaged true found root es c q w order line =
    let from = resume_point true root found in
    let m = (begin true root (fresh found)).0 in
    let ks = kept (path_parts from) es in
    let no_files = begin-no_files true root (fresh found) in
    let ascends : IsAscending (relative_paths (handed es from)) =
      subst IsAscending (sym (map-handed ks)) (kept-IsAscending (path_parts from) es order) in
    record {
      surviving = record {
        rooted = (begin_root true root (fresh found)).0;
        ascending = rw no_files tt;
        unfinished = λ x o. elim o [ inl n ↦ absurd n | inr n ↦ absurd n ];
        below = λ g x n l. absurd (subst (In g) no_files n);
        rest = ascends;
        known = λ x o. elim o [
          | inl n ↦ absurd (subst (In x) no_files n)
          | inr l ↦
              let (e, n, at_x) = In-map-cases relative_of x ks (subst (In x) (map-handed ks) l) in
              subst (λ z. In z (map relative_of es)) (sym at_x)
                (In-map relative_of e es (kept-In (path_parts from) es e n))
        ];
        points = inl no_files;
        safe =
            begun-IsSafe root (map relative_of es)
              (λ x. In x (relative_paths (handed es from)) ⊎ IsOpen [] [] x) found line;
      };
      once = λ x. omega (arith, times_ascending x (relative_paths (handed es from)) ascends);
    }

-- What a process that resumes from a safe checkpoint file lists.
resumed_lists :
    (es : List Listed) (from root : Bytes) (Owed : Bytes → Type 0) (writable : Bool)
    (found : Option Bytes) (e : Listed)
    → IsInOrder es
    → IsSafe from root (map relative_of es) Owed found
    → In e (kept (path_parts from) es)
    → Owed (relative_of e)
    → In e (kept (path_parts (resume_point writable root found)) es)
resumed_lists es from root Owed writable found e order safe listed owed =
    let point = resume_point writable root found in
    let known = kept-In (path_parts from) es e listed in
    elim (safe_point from root (map relative_of es) Owed writable found safe) [
      | inl at_root ↦ rw at_root (subst (In e) (sym (kept_none es)) known)
      | inr (inl at_from) ↦ rw at_from listed
      | inr (inr (there, not_above)) ↦
          let (f, f_here, at_f) = In-map-cases relative_of point es there in
          In-kept (path_parts point) es e
            (ap (λ x. before e.0 (path_parts x)) at_f
              ∙ not_before es e f order known f_here
                  (ap (bytes_lt (relative_of e)) (sym at_f) ∙ not_above (relative_of e) owed))
            known
    ]

module _ {D J T : Type 0} (db : Database D) (json : Json J T) where
  killed_with :
      (es : List Listed) (p : Preparing) (root : Bytes) (c : CacheManager D)
      (q : QuarantineManager T) (found : Option Bytes) (loader : SignatureLoader) (a : Automaton)
      (time : ℤ) (Meets : Running → Type 0) (s : Scan D T) (e : Listed) (writable' : Bool)
      → IsInOrder es
      → IsLine root
      → All IsLine (map relative_of es)
      → p.writable ≡ true
      → let z = prepare_with db json p root (handed es) c (fresh found) q loader a in
        Reach json a loader.signatures time (λ w. w ≡ true) Meets z.started s
        → In e (kept (path_parts z.resumed_at) es)
        → IsUnfinished s (relative_of e)
        → In e (
            kept (path_parts (resume_point writable' root s.pipeline.resume_manager.checkpoint)) es)
  unfolding prepare_with
  killed_with es p root c q found loader a time Meets s e writable' order line lines w path listed
        unfinished =
      let from = resume_point p.writable root found in
      let all = map relative_of es in
      let z = prepare_with db json p root (handed es) c (fresh found) q loader a in
      let u =
        Reach-IsUndamaged json a loader.signatures time Meets from root all line lines z.started
          (start-IsUndamaged p.writable found root es z.started.pipeline.cache_manager
            z.started.pipeline.quarantine_manager w order line)
          s path in
      let file = s.pipeline.resume_manager.checkpoint in
      resumed_lists es from root (IsUnfinished s) writable' file e order u.surviving.safe listed
        unfinished

  -- One kill: a file that is listed from the resume point of the first process, and which it has not
  -- finished, is listed from that of the next.
  pub prepared_again :
      (es : List Listed) (p p' : Preparing) (root : Bytes) (c c' : CacheManager D)
      (q q' : QuarantineManager T) (found : Option Bytes) (z z' : Prepared D T) (time : ℤ)
      (Meets : Running → Type 0) (s : Scan D T) (e : Listed)
      → IsInOrder es
      → IsLine root
      → All IsLine (map relative_of es)
      → p.writable ≡ true
      → prepare db json p root (handed es) c (fresh found) q ≡ some z
      → Reach json z.automaton z.loader.signatures time (λ w. w ≡ true) Meets z.started s
      → prepare db json p' root (handed es) c' (fresh s.pipeline.resume_manager.checkpoint) q'
        ≡ some z'
      → In e (kept (path_parts z.resumed_at) es)
      → IsUnfinished s (relative_of e)
      → In e (kept (path_parts z'.resumed_at) es)
  unfolding prepare_with
  prepared_again es p p' root c c' q q' found z z' time Meets s e order line lines w made path made'
        listed unfinished =
      let loader = (load_signatures p.signature_file p.write_time).0 in
      let file = s.pipeline.resume_manager.checkpoint in
      let (a, at_z) = prepare-some db json p root (handed es) c (fresh found) q z made in
      let (a', at_z') = prepare-some db json p' root (handed es) c' (fresh file) q' z' made' in
      subst (λ y. In e (kept (path_parts y.resumed_at) es)) (sym at_z')
        (killed_with es p root c q found loader a time Meets s e p'.writable order line lines w
          (subst
            (λ y. Reach json y.automaton y.loader.signatures time (λ w. w ≡ true) Meets y.started s)
            at_z path)
          (subst (λ y. In e (kept (path_parts y.resumed_at) es)) at_z listed) unfinished)
