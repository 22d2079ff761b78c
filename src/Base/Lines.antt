-- ===== src/Base/Lines.antt =====
-- Lines as std::getline reads them, and the trimming that the two configuration loaders share
-- (`trim` of Signature/SignatureLoader.cpp and of Exclude/ExcludeSet.cpp, the same text twice).
use Prim.Native.Nat.{ℕ, suc, ◌+◌, ◌-◌}
use mathlib.Core.Path.{◌≡◌, refl, ap, ◌∙◌}
use mathlib.Core.Logic.{◌⊎◌, inl, inr}
use mathlib.Core.Bool.{Bool, true, false, ◌||◌}
use mathlib.Core.Option.{Option, none, some}
use mathlib.Core.List.{List, [], ◌∷◌, ◌++◌}
use native.Mathlib.Omega.{arith}
use virus_detector.Base.Branch.{◌==◌, if◌then◌else◌, Bool-cases, Option-cases}
use virus_detector.Base.Lists.{take, drop, All}
use virus_detector.Base.ByteString.{Bytes}

abbrev prepend : ℕ → List Bytes → List Bytes
prepend c [] = (c ∷ []) ∷ []
prepend c (l ∷ ls) = (c ∷ l) ∷ ls

-- The lines that `while (std::getline(file, line))` sees: a last line may lack its '\n'.
unfoldable pub lines : Bytes → List Bytes
lines [] = []
lines (c ∷ s) = let rest = lines s in if c == 10 then [] ∷ rest else prepend c rest

-- One of " \t\r\n".
unfoldable pub is_space : ℕ → Bool
is_space c = c == 32 || (c == 9 || (c == 13 || c == 10))

unfoldable pub find_first_not_space : Bytes → Option ℕ
find_first_not_space [] = none
find_first_not_space (c ∷ s) =
    let rest = find_first_not_space s in
    if is_space c then elim rest [ none ↦ none | some k ↦ some (suc k) ] else some 0

unfoldable pub find_last_not_space : Bytes → Option ℕ
find_last_not_space [] = none
find_last_not_space (c ∷ s) = elim (find_last_not_space s) [
  | none ↦ if is_space c then none else some 0
  | some k ↦ some (suc k)
]

-- From the first to the last byte that is no space; empty if there is none.
unfoldable pub trim : Bytes → Bytes
trim text = elim (find_first_not_space text) [
  | none ↦ []
  | some start ↦ elim (find_last_not_space text) [
    | none ↦ drop start text
    | some last ↦ take (last - start + 1) (drop start text)
  ]
]

-- No space at either end.
abbrev pub HasCleanEnds : Bytes → Type 0
HasCleanEnds s =
    (s ≡ [])
    ⊎ ((c : ℕ) × (r : Bytes) × (m : Bytes) × (d : ℕ) × (s ≡ c ∷ r)
        × (is_space c ≡ false)
        × (s ≡ m ++ d ∷ [])
        × (is_space d ≡ false))

strip_right : Bytes → Bytes
strip_right s = elim (find_last_not_space s) [ none ↦ [] | some k ↦ take (suc k) s ]

trim-space : (c : ℕ) (s : Bytes) → is_space c ≡ true → trim (c ∷ s) ≡ trim s
unfolding trim find_first_not_space find_last_not_space
trim-space c s h = elim (Option-cases (find_first_not_space s)) [
  | inl e ↦ ground arith
  | inr (a, e) ↦ elim (Option-cases (find_last_not_space s)) [
    | inl q ↦ ground arith
    | inr (k, q) ↦ ground arith
  ]
]

trim-other : (c : ℕ) (s : Bytes) → is_space c ≡ false → trim (c ∷ s) ≡ strip_right (c ∷ s)
unfolding trim strip_right find_first_not_space find_last_not_space
trim-other c s h = elim (Option-cases (find_last_not_space s)) [
  | inl q ↦ ground arith
  | inr (k, q) ↦ ground arith
]

strip_right-more :
    (c k : ℕ) (s : Bytes)
    → find_last_not_space s ≡ some k
    → (strip_right (c ∷ s) ≡ c ∷ strip_right s) × (strip_right s ≡ take (suc k) s)
unfolding strip_right find_last_not_space
strip_right-more c k s e = ground arith

strip_right-none : (s : Bytes) → find_last_not_space s ≡ none → strip_right s ≡ []
unfolding strip_right
strip_right-none s e = ground arith

strip_right-end :
    (c : ℕ) (s : Bytes)
    → find_last_not_space s ≡ none
    → strip_right (c ∷ s) ≡ (if is_space c then [] else c ∷ [])
unfolding strip_right find_last_not_space
strip_right-end c s e = ground arith

strip_right_split :
    (s : Bytes) → (post : Bytes) × (s ≡ strip_right s ++ post) × All (λ c. is_space c ≡ true) post
strip_right_split [] = unfold strip_right find_last_not_space in ([], refl, tt)
strip_right_split (c ∷ s) =
    let (post, split, spaces) = strip_right_split s in
    elim (Option-cases (find_last_not_space s)) [
      | inl q ↦
          let all_post : s ≡ post = split ∙ ap (λ x. x ++ post) (strip_right-none s q) in
          elim (Bool-cases (is_space c)) [
            | inl sp ↦
                (c ∷ post, rw (strip_right-end c s q, sp) (ap (◌∷◌ c) all_post), (sp, spaces))
            | inr ns ↦ (post, rw (strip_right-end c s q, ns) (ap (◌∷◌ c) all_post), spaces)
          ]
      | inr (k, q) ↦ (post, rw ((strip_right-more c k s q).0) (ap (◌∷◌ c) split), spaces)
    ]

strip_right_last :
    (s : Bytes)
    → (strip_right s ≡ [])
      ⊎ ((m : Bytes) × (d : ℕ) × (strip_right s ≡ m ++ d ∷ []) × (is_space d ≡ false))
strip_right_last [] = unfold strip_right find_last_not_space in inl refl
strip_right_last (c ∷ s) = elim (Option-cases (find_last_not_space s)) [
  | inl q ↦ elim (Bool-cases (is_space c)) [
    | inl sp ↦ inl (rw (strip_right-end c s q, sp))
    | inr ns ↦ inr ([], c, rw (strip_right-end c s q, ns), ns)
  ]
  | inr (k, q) ↦
      let more = (strip_right-more c k s q).0 in
      elim (strip_right_last s) [
        | inl nothing ↦ absurd (some_kept k s q nothing)
        | inr (m, d, e, ns) ↦ inr (c ∷ m, d, more ∙ ap (◌∷◌ c) e, ns)
      ]
]
  where
    some_kept : (k : ℕ) (t : Bytes) → find_last_not_space t ≡ some k → strip_right t ≡ [] → ⊥
    some_kept k [] q z = unfold find_last_not_space in cc
    some_kept k (a ∷ t) q z = unfold strip_right find_last_not_space in ground arith

-- The text is its trimmed part between two runs of spaces, and that part has no space at its ends.
pub trim_split :
    (s : Bytes)
    → (pre : Bytes) × (post : Bytes) × (s ≡ pre ++ (trim s ++ post))
      × All (λ c. is_space c ≡ true) pre
      × All (λ c. is_space c ≡ true) post
      × HasCleanEnds (trim s)
trim_split [] = unfold trim find_first_not_space in ([], [], refl, tt, tt, inl refl)
trim_split (c ∷ s) = elim (Bool-cases (is_space c)) [
  | inl sp ↦
      let (pre, post, e, a, b, clean) = trim_split s in
      (
        c ∷ pre,
        post,
        rw (trim-space c s sp) (ap (◌∷◌ c) e),
        (sp, a),
        b,
        rw (trim-space c s sp) clean,
      )
  | inr ns ↦
      let (post, e, spaces) = strip_right_split (c ∷ s) in
      rw (trim-other c s ns) ([], post, e, tt, spaces, clean_ends c s ns (strip_right_last (c ∷ s)))
]
  where
    clean_ends :
        (a : ℕ) (t : Bytes)
        → is_space a ≡ false
        → (strip_right (a ∷ t) ≡ [])
          ⊎ ((m : Bytes) × (d : ℕ) × (strip_right (a ∷ t) ≡ m ++ d ∷ []) × (is_space d ≡ false))
        → HasCleanEnds (strip_right (a ∷ t))
    clean_ends a t ns (inl z) = inl z
    clean_ends a t ns (inr (m, d, e, last)) = elim (Option-cases (find_last_not_space t)) [
      | inl q ↦ inr (a, [], m, d, rw (strip_right-end a t q, ns), ns, e, last)
      | inr (k, q) ↦ inr (a, strip_right t, m, d, (strip_right-more a k t q).0, ns, e, last)
    ]
