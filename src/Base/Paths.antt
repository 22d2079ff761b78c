-- ===== src/Base/Paths.antt =====
-- POSIX paths as std::filesystem::path reads them: the parts that iteration yields, equality by
-- parts, and joining names by '/'.
use Prim.Native.Nat.{ℕ}
use mathlib.Core.Path.{◌≡◌, refl, sym, ap, ◌∙◌}
use mathlib.Core.Logic.{◌≢◌, inl, inr}
use mathlib.Core.Bool.{Bool, true, false, ◌&&◌}
use mathlib.Core.List.{List, [], ◌∷◌, ◌++◌, append_assoc, cons-ne-nil}
use native.Mathlib.Omega.{arith}
use virus_detector.Base.Branch.{◌==◌, if◌then◌else◌, Bool-cases}
use virus_detector.Base.Lists.{All}
use virus_detector.Base.ByteString.{Bytes, bytes_eq}

abbrev pub slash : ℕ
slash = 47

-- The pieces between single slashes.
unfoldable pub pieces : Bytes → List Bytes
pieces [] = [] ∷ []
pieces (c ∷ s) =
    let rest = pieces s in
    if c == slash then [] ∷ rest else elim rest [ [] ↦ (c ∷ []) ∷ [] | p ∷ ps ↦ (c ∷ p) ∷ ps ]

-- Runs of slashes count as one; a trailing slash leaves an empty last part.
unfoldable pub merge_pieces : List Bytes → List Bytes
merge_pieces [] = []
merge_pieces (p ∷ []) = p ∷ []
merge_pieces ([] ∷ q ∷ ps) = merge_pieces (q ∷ ps)
merge_pieces ((c ∷ p) ∷ q ∷ ps) = (c ∷ p) ∷ merge_pieces (q ∷ ps)

abbrev drop_lone : List Bytes → List Bytes
drop_lone [] = []
drop_lone ([] ∷ []) = []
drop_lone ([] ∷ q ∷ ps) = [] ∷ q ∷ ps
drop_lone ((c ∷ p) ∷ ps) = (c ∷ p) ∷ ps

-- The parts of a path, a leading slash being a part of its own.
unfoldable pub path_parts : Bytes → List Bytes
path_parts [] = []
path_parts (c ∷ s) =
    if c == slash
    then (slash ∷ []) ∷ drop_lone (merge_pieces (pieces s))
    else merge_pieces (pieces (c ∷ s))

unfoldable pub parts_eq : List Bytes → List Bytes → Bool
parts_eq [] [] = true
parts_eq [] (q ∷ qs) = false
parts_eq (p ∷ ps) [] = false
parts_eq (p ∷ ps) (q ∷ qs) = bytes_eq p q && parts_eq ps qs

-- `operator==` on paths.
unfoldable pub path_eq : Bytes → Bytes → Bool
unfolding path_parts parts_eq
path_eq a b = parts_eq (path_parts a) (path_parts b)

-- Names joined by slashes: the generic string of a relative path.
unfoldable pub join : List Bytes → Bytes
join [] = []
join (n ∷ []) = n
join (n ∷ m ∷ ns) = n ++ slash ∷ join (m ∷ ns)

unfoldable pub ends_with_slash : Bytes → Bool
ends_with_slash [] = true
ends_with_slash (c ∷ []) = c == slash
ends_with_slash (c ∷ d ∷ s) = ends_with_slash (d ∷ s)

-- `directory / name`.
unfoldable pub append_name : Bytes → Bytes → Bytes
unfolding ends_with_slash
append_name directory name =
    if ends_with_slash directory then directory ++ name else directory ++ slash ∷ name

-- A file name: not empty, and without a slash.
abbrev pub IsName : Bytes → Type 0
IsName n = (n ≢ []) × All (λ c. c ≢ slash) n

pieces-name : (n : Bytes) → All (λ c. c ≢ slash) n → pieces n ≡ n ∷ []
unfolding pieces
pieces-name [] h = refl
pieces-name (c ∷ n) h = ground (arith, pieces-name n h.1, h.0)

pub pieces-append : (n s : Bytes) → All (λ c. c ≢ slash) n → pieces (n ++ slash ∷ s) ≡ n ∷ pieces s
unfolding pieces
pieces-append [] s h = refl
pieces-append (c ∷ n) s h = ground (arith, pieces-append n s h.1, h.0)

pub pieces-join :
    (n : Bytes) (ns : List Bytes) → All IsName (n ∷ ns) → pieces (join (n ∷ ns)) ≡ n ∷ ns
unfolding join
pieces-join n [] h = pieces-name n h.0.1
pieces-join n (m ∷ ns) h = pieces-append n (join (m ∷ ns)) h.0.1 ∙ ap (◌∷◌ n) (pieces-join m ns h.1)

merge-names : (ns : List Bytes) → All IsName ns → merge_pieces ns ≡ ns
unfolding merge_pieces
merge-names [] h = refl
merge-names (n ∷ []) h = refl
merge-names ([] ∷ m ∷ ns) h = absurd (h.0.0 refl)
merge-names ((c ∷ n) ∷ m ∷ ns) h = ap (◌∷◌ (c ∷ n)) (merge-names (m ∷ ns) h.1)

-- A relative path of proper names falls apart into these names again.
pub path_parts-join : (ns : List Bytes) → All IsName ns → path_parts (join ns) ≡ ns
path_parts-join [] h = unfold path_parts join in refl
path_parts-join (n ∷ ns) h = go (join (n ∷ ns)) (pieces-join n ns h)
  where
    first : (c : ℕ) (s : Bytes) → pieces (c ∷ s) ≡ n ∷ ns → c ≢ slash
    first c s e z = unfold pieces in h.0.0 (ground (arith, e, z))

    go : (s : Bytes) → pieces s ≡ n ∷ ns → path_parts s ≡ n ∷ ns
    go [] e = unfold pieces in absurd (h.0.0 (cc))
    go (c ∷ s) e = elim (Bool-cases (c == slash)) [
      | inl q ↦ absurd (first c s e (ground arith))
      | inr q ↦ unfold path_parts in rw (q, path_parts) (ap merge_pieces e ∙ merge-names (n ∷ ns) h)
    ]

-- The generic string of an absolute path of names.
abbrev pub absolute : List Bytes → Bytes
absolute ns = slash ∷ join ns

ends-append : (s t : Bytes) (c : ℕ) → ends_with_slash (s ++ c ∷ t) ≡ ends_with_slash (c ∷ t)
unfolding ends_with_slash
ends-append [] t c = refl
ends-append (a ∷ []) t c = refl
ends-append (a ∷ b ∷ s) t c = ends-append (b ∷ s) t c

ends-name : (n : Bytes) → IsName n → ends_with_slash n ≡ false
unfolding ends_with_slash
ends-name [] h = absurd (h.0 refl)
ends-name (c ∷ []) h = ground (arith, h.1.0)
ends-name (c ∷ d ∷ n) h = ends-name (d ∷ n) (cons-ne-nil d n, h.1.1)

join_some :
    (n : Bytes) (ns : List Bytes) → IsName n → (c : ℕ) × (t : Bytes) × (join (n ∷ ns) ≡ c ∷ t)
unfolding join
join_some [] ns h = absurd (h.0 refl)
join_some (c ∷ n) [] h = (c, n, refl)
join_some (c ∷ n) (m ∷ ns) h = (c, n ++ slash ∷ join (m ∷ ns), refl)

ends-join :
    (n : Bytes) (ns : List Bytes) → All IsName (n ∷ ns) → ends_with_slash (join (n ∷ ns)) ≡ false
unfolding join
ends-join n [] h = ends-name n h.0
ends-join n (m ∷ ns) h =
    let (c, t, e) = join_some m ns h.1.0 in
    ends-append n (join (m ∷ ns)) slash
    ∙ (ap (λ s. ends_with_slash (slash ∷ s)) e
        ∙ (ends-append (slash ∷ []) t c ∙ ap ends_with_slash (sym e)))
    ∙ ends-join m ns h.1

join-snoc :
    (m : Bytes) (ms : List Bytes) (n : Bytes)
    → join (m ∷ ms) ++ slash ∷ n ≡ join ((m ∷ ms) ++ n ∷ [])
unfolding join
join-snoc m [] n = refl
join-snoc m (k ∷ ms) n =
    append_assoc m (slash ∷ join (k ∷ ms)) (slash ∷ n) ∙ ap (λ s. m ++ slash ∷ s) (join-snoc k ms n)

-- An entry of an absolute directory.
pub append_name-absolute :
    (ns : List Bytes) (n : Bytes)
    → All IsName ns
    → append_name (absolute ns) n ≡ absolute (ns ++ n ∷ [])
unfolding append_name join
append_name-absolute [] n h = unfold append_name ends_with_slash join in refl
append_name-absolute (m ∷ ns) n h =
    let (c, t, e) = join_some m ns h.0 in
    let none_ends : ends_with_slash (absolute (m ∷ ns)) ≡ false =
      ap (λ s. ends_with_slash (slash ∷ s)) e
      ∙ (ends-append (slash ∷ []) t c ∙ ap ends_with_slash (sym e))
      ∙ ends-join m ns h in
    rw (none_ends, append_name) (ap (◌∷◌ slash) (join-snoc m ns n))

pub path_parts-absolute :
    (ns : List Bytes) → All IsName ns → path_parts (absolute ns) ≡ (slash ∷ []) ∷ ns
unfolding path_parts
path_parts-absolute [] h = unfold join pieces merge_pieces in refl
path_parts-absolute (n ∷ ns) h =
    ap (λ ps. (slash ∷ []) ∷ drop_lone ps)
      (ap merge_pieces (pieces-join n ns h) ∙ merge-names (n ∷ ns) h)
    ∙ ap (◌∷◌ (slash ∷ [])) (no_lone n ns h.0)
  where
    no_lone : (n : Bytes) (ns : List Bytes) → IsName n → drop_lone (n ∷ ns) ≡ n ∷ ns
    no_lone [] ns h = absurd (h.0 refl)
    no_lone (c ∷ n) ns h = refl
