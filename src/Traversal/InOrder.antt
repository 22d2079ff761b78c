-- ===== src/Traversal/InOrder.antt =====
-- A listing whose files come in the same order as strings and by their names, and what is kept of it.
use virus_detector.Base.{
  ◌≡◌, refl, sym, ap, ◌∙◌, inl, inr, true, false, List, [], ◌∷◌, Bytes, bytes_lt, path_parts, In,
  map, All, All-In, Bool-cases, not_both,
}
use virus_detector.Resume.PathFilter.{before}
use virus_detector.Resume.Checkpoint.{IsBefore, IsAscending}
use virus_detector.Traversal.{FileInfo}
use virus_detector.Traversal.Listing.{Listed, kept}

abbrev pub relative_of : Listed → Bytes
relative_of e = e.1.relative_path

abbrev pub Follows : Listed → Listed → Type 0
Follows e f =
    (bytes_lt (relative_of e) (relative_of f) ≡ true)
    × (before f.0 (path_parts (relative_of e)) ≡ false)

-- No file is before its own path by the names, and each follows those listed before it.
abbrev pub IsInOrder : List Listed → Type 0
IsInOrder [] = Unit
IsInOrder (e ∷ es) =
    (before e.0 (path_parts (relative_of e)) ≡ false) × All (Follows e) es × IsInOrder es

-- What is handed over from a resume point.
abbrev pub handed : List Listed → Bytes → List FileInfo
handed es from = map (λ e. e.1) (kept (path_parts from) es)

pub kept-In : (ps : List Bytes) (es : List Listed) (e : Listed) → In e (kept ps es) → In e es
unfolding kept
kept-In ps [] e m = m
kept-In ps (f ∷ es) e m = elim (Bool-cases (before f.0 ps)) [
  | inl b ↦ inr (kept-In ps es e (rw b at m))
  | inr b ↦ elim (rw b at m) [ inl q ↦ inl q | inr n ↦ inr (kept-In ps es e n) ]
]

pub In-kept :
    (ps : List Bytes) (es : List Listed) (e : Listed)
    → before e.0 ps ≡ false
    → In e es
    → In e (kept ps es)
unfolding kept
In-kept ps [] e h m = m
In-kept ps (f ∷ es) e h (inl q) =
    let h' : before f.0 ps ≡ false = ap (λ z. before z.0 ps) (sym q) ∙ h in rw h' (inl q)
In-kept ps (f ∷ es) e h (inr m) = elim (Bool-cases (before f.0 ps)) [
  | inl b ↦ rw b (In-kept ps es e h m)
  | inr b ↦ rw b (inr (In-kept ps es e h m))
]

-- By the names, too, a file is not before one that it is not below as a string.
pub not_before :
    (es : List Listed) (e f : Listed)
    → IsInOrder es
    → In e es
    → In f es
    → bytes_lt (relative_of e) (relative_of f) ≡ false
    → before e.0 (path_parts (relative_of f)) ≡ false
not_before [] e f h m n ge = absurd m
not_before (g ∷ es) e f h (inl p) (inl q) ge = rw (p, q) (h.0)
not_before (g ∷ es) e f h (inl p) (inr n) ge = absurd (
    not_both (bytes_lt (relative_of e) (relative_of f))
      (ap (λ z. bytes_lt (relative_of z) (relative_of f)) p ∙ (All-In (Follows g) f es h.1 n).0) ge)
not_before (g ∷ es) e f h (inr m) (inl q) ge =
    ap (λ z. before e.0 (path_parts (relative_of z))) q ∙ (All-In (Follows g) e es h.1 m).1
not_before (g ∷ es) e f h (inr m) (inr n) ge = not_before es e f h.2 m n ge

kept-IsBefore :
    (x : Listed) (ps : List Bytes) (es : List Listed)
    → All (Follows x) es
    → IsBefore (relative_of x) (map relative_of (kept ps es))
unfolding kept
kept-IsBefore x ps [] h = tt
kept-IsBefore x ps (e ∷ es) h = elim (Bool-cases (before e.0 ps)) [
  | inl b ↦ rw b (kept-IsBefore x ps es h.1)
  | inr b ↦ rw b (h.0.0, kept-IsBefore x ps es h.1)
]

pub kept-IsAscending :
    (ps : List Bytes) (es : List Listed) → IsInOrder es → IsAscending (map relative_of (kept ps es))
unfolding kept
kept-IsAscending ps [] h = tt
kept-IsAscending ps (e ∷ es) h = elim (Bool-cases (before e.0 ps)) [
  | inl b ↦ rw b (kept-IsAscending ps es h.2)
  | inr b ↦ rw b (kept-IsBefore e ps es h.1, kept-IsAscending ps es h.2)
]

module _ {A B : Type 0} (f : A → B) where
  pub In-map : (x : A) (xs : List A) → In x xs → In (f x) (map f xs)
  In-map x [] m = absurd m
  In-map x (y ∷ xs) (inl e) = inl (ap f e)
  In-map x (y ∷ xs) (inr m) = inr (In-map x xs m)

  pub In-map-cases : (y : B) (xs : List A) → In y (map f xs) → (x : A) × In x xs × (y ≡ f x)
  In-map-cases y [] m = absurd m
  In-map-cases y (x ∷ xs) (inl e) = (x, inl refl, e)
  In-map-cases y (x ∷ xs) (inr m) = let (z, n, e) = In-map-cases y xs m in (z, inr n, e)
