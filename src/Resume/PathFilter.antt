-- ===== src/Resume/PathFilter.antt =====
-- Resume/ResumePathFilter.{h,cpp}: what the sorted walk does with an entry, given the checkpoint.
use virus_detector.Base.{
  ℕ, zero, suc, ◌+◌, ◌<◌, ◌≤◌, ◌≡◌, refl, ◌⊎◌, inl, inr, Bool, true, false, ◌&&◌, ◌||◌, List, [],
  ◌∷◌, Bytes, bytes_eq, bytes_lt, length, get_or, drop, leb, ltb, if◌then◌else◌, arith, path_parts,
}

pub data ResumeDecision : Type 0 where
  skip_entry continue_toward_resume_point traverse_normally : ResumeDecision

pub record ResumePathFilter : Type 0 where
  pub parts : List Bytes

-- The default constructor, and the one from a checkpoint path.
abbrev pub no_resume : ResumePathFilter
no_resume = record { parts = [] }

abbrev pub resume_from : Bytes → ResumePathFilter
resume_from path = record { parts = path_parts path }

pub active : ResumePathFilter → Bool
active f = elim f.parts [ [] ↦ false | p ∷ ps ↦ true ]

unfoldable pub decide : ResumePathFilter → Bytes → ℕ → ResumeDecision
unfolding active
decide f name depth =
    if (if active f then leb (length f.parts) depth else true)
    then traverse_normally
    else let target = get_or f.parts depth [] in
      if bytes_lt name target
      then skip_entry
      else if bytes_eq name target && ltb (depth + 1) (length f.parts)
      then continue_toward_resume_point
      else traverse_normally

-- The same decision, from the parts that are left at this depth.
unfoldable pub decide_at : List Bytes → Bytes → ResumeDecision
decide_at [] name = traverse_normally
decide_at (p ∷ []) name = if bytes_lt name p then skip_entry else traverse_normally
decide_at (p ∷ q ∷ ps) name =
    if bytes_lt name p
    then skip_entry
    else if bytes_eq name p
    then continue_toward_resume_point
    else traverse_normally

drop-get_or :
    (ps : List Bytes) (depth : ℕ)
    → depth < length ps
    → drop depth ps ≡ get_or ps depth [] ∷ drop (suc depth) ps
drop-get_or [] depth h = elim h [ ]
drop-get_or (p ∷ ps) zero h = refl
drop-get_or (p ∷ ps) (suc depth) h = drop-get_or ps depth (omega arith)

drop_past : (ps : List Bytes) (depth : ℕ) → length ps ≤ depth → drop depth ps ≡ []
drop_past [] zero h = refl
drop_past [] (suc depth) h = refl
drop_past (p ∷ ps) zero h = absurd (omega arith)
drop_past (p ∷ ps) (suc depth) h = drop_past ps depth (omega arith)

-- Where a depth stands against the number of parts.
place : (d n : ℕ) → (n ≤ d) ⊎ ((n ≡ suc d) ⊎ (suc d < n))
place d n = grind arith

-- At every depth the decision depends on the parts of the checkpoint from that depth on only, and is
-- the one that compares the name with the first of these.
pub decide-decide_at :
    (ps : List Bytes) (name : Bytes) (depth : ℕ)
    → decide (record { parts = ps }) name depth ≡ decide_at (drop depth ps) name
unfolding decide
decide-decide_at [] name depth = rw (drop_past [] depth (omega arith)) (unfold decide_at in refl)
decide-decide_at (p ∷ ps) name depth = elim (place depth (length (p ∷ ps))) [
  | inl past ↦ rw (drop_past (p ∷ ps) depth past) (unfold decide_at in ground arith)
  | inr (inl last) ↦
      rw (drop-get_or (p ∷ ps) depth (omega arith), drop_past (p ∷ ps) (suc depth) (omega arith))
        (unfold decide_at in ground arith)
  | inr (inr within) ↦
      rw (drop-get_or (p ∷ ps) depth (omega arith), drop-get_or (p ∷ ps) (suc depth) within)
        (unfold decide_at in ground arith)
]

-- By components: `names` is before the checkpoint if it differs first by a smaller name.
unfoldable pub before : List Bytes → List Bytes → Bool
before [] ps = false
before (n ∷ ns) [] = false
before (n ∷ ns) (p ∷ ps) = bytes_lt n p || (bytes_eq n p && before ns ps)
