-- ===== src/Resume/Restarted.antt =====
-- The checkpoint file that a process leaves and the resume point that the next one takes from it.
use virus_detector.Base.{
  ◌≡◌, refl, ◌⊎◌, inl, inr, Bool, true, false, Option, none, some, List, [], Bytes, bytes_eq,
  bytes_eq→eq, bytes_lt, path_eq, In, if◌then◌else◌, arith, Bool-cases, Option-cases,
}
use virus_detector.Resume.Manager.{running, load, save, fresh, resumes, begin}
use virus_detector.Resume.Checkpoint.{IsLine, load-checkpoint_text, path_eq_refl}
use virus_detector.Resume.Safe.{IsSafe}

-- The resume point of a process that finds this checkpoint file, as scan takes it from begin.
abbrev pub resume_point : Bool → Bytes → Option Bytes → Bytes
resume_point writable root found =
    let (m, resumed, _) = begin writable root (fresh found) in if resumed then m.next_file else []

-- What begin makes of a safe checkpoint file.
pub safe_point :
    (from root : Bytes) (listed : List Bytes) (Owed : Bytes → Type 0) (writable : Bool)
    (found : Option Bytes)
    → IsSafe from root listed Owed found
    → (resume_point writable root found ≡ [])
      ⊎ (resume_point writable root found ≡ from)
      ⊎ (In (resume_point writable root found) listed
          × ((x : Bytes) → Owed x → bytes_lt x (resume_point writable root found) ≡ false))
unfolding begin resumes bytes_eq save
safe_point from root listed Owed true found (inr e) = rw (e, begin) (inl refl)
safe_point from root listed Owed false found (inr e) = rw (e, begin) (inl refl)
safe_point from root listed Owed writable found (inl (saved, n, e, p, inl at_from)) =
    rw (e, begin) (rw p (inr (inl at_from)))
safe_point from root listed Owed writable found (inl (saved, n, e, p, inr safe)) =
    rw (e, begin) (rw p (inr (inr safe)))

-- The checkpoint that is resumed from.
resumes-some :
    (o : Option (Bytes × Bytes × Bytes)) (root point : Bytes)
    → resumes o root ≡ some point
    → (saved : Bytes) × (o ≡ some (saved, running, point)) × (path_eq saved root ≡ true)
unfolding resumes
resumes-some none root point h = cc
resumes-some (some (saved, status, n)) root point h = elim (Bool-cases (bytes_eq status running)) [
  | inr e ↦ let bad : none ≡ some point = rw e at h in (cc)
  | inl e ↦ elim (Bool-cases (path_eq saved root)) [
    | inr p ↦ let bad : none ≡ some point = rw (e, p) at h in (cc)
    | inl p ↦ (saved, rw (bytes_eq→eq status running e) (cc), p)
  ]
]

-- What begin leaves in the checkpoint file, if it can be written, is safe from its resume point.
pub begun-IsSafe :
    (root : Bytes) (listed : List Bytes) (Owed : Bytes → Type 0) (found : Option Bytes)
    → IsLine root
    → IsSafe
        (resume_point true root found)
        root
        listed
        Owed
        (begin true root (fresh found)).0.checkpoint
unfolding begin save
begun-IsSafe root listed Owed found line = elim (Option-cases (resumes (load found) root)) [
  | inl e ↦
      rw (e, begin)
        (inl (
          root,
          [],
          load-checkpoint_text root running [] line (omega arith) tt,
          path_eq_refl root,
          inl refl,
        ))
  | inr (point, e) ↦
      let (saved, at_found, same) = resumes-some (load found) root point e in
      rw (e, begin) (inl (saved, point, at_found, same, inl refl))
]

pub fresh_point : (writable : Bool) (root : Bytes) → resume_point writable root none ≡ []
unfolding begin load resumes save
fresh_point true root = refl
fresh_point false root = refl
