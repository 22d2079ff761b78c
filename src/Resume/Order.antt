-- ===== src/Resume/Order.antt =====
-- The resume point is the least unfinished path as a string, but the walk goes by components; the
-- two orders differ where a name continues below '/'.
use virus_detector.Base.{
  ℕ, ◌<◌, ◌≡◌, refl, ap, ◌∙◌, true, [], ◌∷◌, ◌++◌, Bytes, bytes_lt, arith, slash, join, path_parts,
  path_parts-join, IsName,
}
use virus_detector.Resume.PathFilter.{decide, decide_at, decide-decide_at, resume_from, skip_entry}
use virus_detector.Resume.Manager.{ResumeManager, insert_file, first_file, add_file}

string-below : (n r x : Bytes) (c : ℕ) → c < slash → bytes_lt (n ++ c ∷ r) (n ++ slash ∷ x) ≡ true
unfolding bytes_lt
string-below [] r x c h = ground arith
string-below (a ∷ n) r x c h = ground (arith, string-below n r x c h)

pub prefix-below : (n r : Bytes) (c : ℕ) → bytes_lt n (n ++ c ∷ r) ≡ true
unfolding bytes_lt
prefix-below [] r c = refl
prefix-below (a ∷ n) r c = ground (arith, prefix-below n r c)

-- Take a file `x` in a directory `n`, beside an entry `n ++ c ∷ r` with `c` below '/'. If these
-- two are added to a manager with no unfinished file, the resume point is the entry, and the
-- filter that resumes from it skips the directory, though its file is unfinished.
pub resume_skips_unfinished :
    (m : ResumeManager) (n x r : Bytes) (c : ℕ)
    → m.unfinished_files ≡ []
    → c < slash
    → IsName n
    → IsName (n ++ c ∷ r)
    → let both = add_file (n ++ c ∷ r) (add_file (join (n ∷ x ∷ [])) m) in
      (both.next_file ≡ n ++ c ∷ r)
      × (both.unfinished_files ≡ (n ++ c ∷ r) ∷ join (n ∷ x ∷ []) ∷ [])
      × (decide (resume_from both.next_file) n 0 ≡ skip_entry)
unfolding add_file join
resume_skips_unfinished m n x r c e h name_n name_y =
    let below = string-below n r x c h in
    let files : insert_file (n ++ c ∷ r) (insert_file (n ++ slash ∷ x) m.unfinished_files)
        ≡ (n ++ c ∷ r) ∷ (n ++ slash ∷ x) ∷ [] =
      unfold insert_file in ground (arith, e, below) in
    let next = ap first_file files in
    (
      next,
      files,
      rw next (
          decide-decide_at (path_parts (n ++ c ∷ r)) n 0
          ∙ ap (λ ps. decide_at ps n) (path_parts-join ((n ++ c ∷ r) ∷ []) (name_y, tt))
          ∙ unfold decide_at in ground (arith, prefix-below n r c)),
    )
