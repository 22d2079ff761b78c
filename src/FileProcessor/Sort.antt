-- ===== src/FileProcessor/Sort.antt =====
-- The sorted result holds the same strings, in order.
use virus_detector.Base.{
  ◌≡◌, refl, sym, ap, ◌∙◌, ◌↔◌, ◌⊎◌, inl, inr, false, none, some, List, [], ◌∷◌, Bytes, ℕ, bytes_lt,
  bytes_lt-asymm, In, Bool-cases, Option-cases, get_elem?,
}
use virus_detector.FileProcessor.{lookup_signatures, insert_sorted, sort}

-- No string comes after a smaller one.
abbrev pub IsSorted : List Bytes → Type 0
IsSorted [] = Unit
IsSorted (s ∷ []) = Unit
IsSorted (s ∷ t ∷ ts) = (bytes_lt t s ≡ false) × IsSorted (t ∷ ts)

In-insert_sorted : (x s : Bytes) (ts : List Bytes) → In x (insert_sorted s ts) ↔ ((x ≡ s) ⊎ In x ts)
unfolding insert_sorted
In-insert_sorted x s [] = (λ m. m, λ m. m)
In-insert_sorted x s (t ∷ ts) = elim (Bool-cases (bytes_lt t s)) [
  | inl below ↦
      let ih = In-insert_sorted x s ts in
      rw below (
        λ m. elim m [
          | inl p ↦ inr (inl p)
          | inr q ↦ elim (ih.0 q) [ inl p ↦ inl p | inr r ↦ inr (inr r) ]
        ],
        λ m. elim m [
          | inl p ↦ inr (ih.1 (inl p))
          | inr (inl p) ↦ inl p
          | inr (inr q) ↦ inr (ih.1 (inr q))
        ],
      )
  | inr here ↦ rw here (λ m. m, λ m. m)
]

pub In-sort : (x : Bytes) (ss : List Bytes) → In x (sort ss) ↔ In x ss
unfolding sort
In-sort x [] = (λ m. m, λ m. m)
In-sort x (s ∷ ss) =
    let one = In-insert_sorted x s (sort ss) in
    let ih = In-sort x ss in
    (
      λ m. elim (one.0 m) [ inl p ↦ inl p | inr q ↦ inr (ih.0 q) ],
      λ m. elim m [ inl p ↦ one.1 (inl p) | inr q ↦ one.1 (inr (ih.1 q)) ],
    )

insert_sorted-IsSorted : (s : Bytes) (ts : List Bytes) → IsSorted ts → IsSorted (insert_sorted s ts)
unfolding insert_sorted
insert_sorted-IsSorted s [] h = tt
insert_sorted-IsSorted s (t ∷ []) h = elim (Bool-cases (bytes_lt t s)) [
  | inl below ↦ rw below (bytes_lt-asymm t s below, tt)
  | inr here ↦ rw here (here, tt)
]
insert_sorted-IsSorted s (t ∷ u ∷ ts) h = elim (Bool-cases (bytes_lt t s)) [
  | inl below ↦
      let rest = insert_sorted-IsSorted s (u ∷ ts) h.1 in
      rw below (elim (Bool-cases (bytes_lt u s)) [
        | inl q ↦ rw q (h.0, rw q at rest)
        | inr q ↦ rw q (bytes_lt-asymm t s below, rw q at rest)
      ])
  | inr here ↦ rw here (here, h)
]

pub sort-IsSorted : (ss : List Bytes) → IsSorted (sort ss)
unfolding sort
sort-IsSorted [] = tt
sort-IsSorted (s ∷ ss) = insert_sorted-IsSorted s (sort ss) (sort-IsSorted ss)

lookup_miss :
    (sigs : List Bytes) (i : ℕ) (is : List ℕ)
    → get_elem? sigs i ≡ none
    → lookup_signatures sigs (i ∷ is) ≡ lookup_signatures sigs is
unfolding lookup_signatures
lookup_miss sigs i is e = rw (e, lookup_signatures)

lookup_hit :
    (sigs : List Bytes) (i : ℕ) (is : List ℕ) (s : Bytes)
    → get_elem? sigs i ≡ some s
    → lookup_signatures sigs (i ∷ is) ≡ s ∷ lookup_signatures sigs is
unfolding lookup_signatures
lookup_hit sigs i is s e = rw (e, lookup_signatures)

-- The strings looked up are those at the indexes.
pub In-lookup_signatures :
    (x : Bytes) (sigs : List Bytes) (is : List ℕ)
    → In x (lookup_signatures sigs is) ↔ ((i : ℕ) × In i is × (get_elem? sigs i ≡ some x))
In-lookup_signatures x sigs [] = unfold lookup_signatures in (λ m. absurd m, λ (i, m, e). absurd m)
In-lookup_signatures x sigs (i ∷ is) =
    let ih = In-lookup_signatures x sigs is in
    elim (Option-cases (get_elem? sigs i)) [
      | inl e ↦ rw (lookup_miss sigs i is e) (
        λ m. let (j, at_j, q) = ih.0 m in (j, inr at_j, q),
        λ (j, m, q). elim m [
          | inl p ↦ let bad : none ≡ some x = sym e ∙ ap (get_elem? sigs) (sym p) ∙ q in cc
          | inr r ↦ ih.1 (j, r, q)
        ],
      )
      | inr (s, e) ↦ rw (lookup_hit sigs i is s e) (
        λ m. elim m [
          | inl p ↦ (i, inl refl, e ∙ ap some (sym p))
          | inr r ↦ let (j, at_j, q) = ih.0 r in (j, inr at_j, q)
        ],
        λ (j, m, q). elim m [
          | inl p ↦ let same : some x ≡ some s = sym q ∙ ap (get_elem? sigs) p ∙ e in inl (cc)
          | inr r ↦ inr (ih.1 (j, r, q))
        ],
      )
    ]
