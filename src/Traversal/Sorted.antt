-- ===== src/Traversal/Sorted.antt =====
-- Listings in the order of their names: what sort_by_name and `under` make of them.
use virus_detector.Base.{
  ◌≡◌, refl, ◌∙◌, ◌⊎◌, inl, inr, true, false, List, [], ◌∷◌, ◌++◌, Bytes, bytes_lt, bytes_lt_irrefl,
  bytes_lt-asymm, bytes_lt_trans, bytes_eq_refl, slash, join, In, In-append-cases, All, All-append,
  arith, Bool-cases, not_both,
}
use virus_detector.Resume.PathFilter.{before}
use virus_detector.Traversal.{insert_by_name, sort_by_name}
use virus_detector.Traversal.Listing.{Listed, concat, under}

-- After `e`, both as a string and by its names.
abbrev pub Comes : Listed → Listed → Type 0
Comes e f = (bytes_lt (join e.0) (join f.0) ≡ true) × (before f.0 e.0 ≡ false)

abbrev pub IsSorted : List Listed → Type 0
IsSorted [] = Unit
IsSorted (e ∷ es) = All (Comes e) es × IsSorted es

-- Two entries of a directory with their listings, in order.
abbrev pub Precedes : Bytes × List Listed → Bytes × List Listed → Type 0
Precedes a b = (bytes_lt a.0 b.0 ≡ true) × ((e f : Listed) → In e a.1 → In f b.1 → Comes e f)

abbrev pub AreOrdered : List (Bytes × List Listed) → Type 0
AreOrdered [] = Unit
AreOrdered (a ∷ ls) = All (Precedes a) ls × AreOrdered ls

abbrev pub Comparable : Bytes × List Listed → Bytes × List Listed → Type 0
Comparable a b = Precedes a b ⊎ Precedes b a

All-insert :
    (P : Bytes × List Listed → Type 0) (a : Bytes × List Listed) (bs : List (Bytes × List Listed))
    → P a
    → All P bs
    → All P (insert_by_name a bs)
unfolding insert_by_name
All-insert P a [] h k = (h, tt)
All-insert P a (b ∷ bs) h k = elim (Bool-cases (bytes_lt b.0 a.0)) [
  | inl lt ↦ rw lt (k.0, All-insert P a bs h k.1)
  | inr ge ↦ rw ge (h, k)
]

-- What does not go before the first of an ordered list goes before none of it.
rest_after :
    (a b : Bytes × List Listed) (bs : List (Bytes × List Listed))
    → bytes_lt b.0 a.0 ≡ false
    → All (Precedes b) bs
    → All (Comparable a) bs
    → All (Precedes a) bs
rest_after a b [] ge h k = tt
rest_after a b (c ∷ bs) ge h k = (
  elim k.0 [
    | inl p ↦ p
    | inr q ↦ absurd (not_both (bytes_lt b.0 a.0) (bytes_lt_trans b.0 c.0 a.0 h.0.0 q.0) ge)
  ],
  rest_after a b bs ge h.1 k.1,
)

insert-AreOrdered :
    (a : Bytes × List Listed) (bs : List (Bytes × List Listed))
    → All (Comparable a) bs
    → AreOrdered bs
    → AreOrdered (insert_by_name a bs)
unfolding insert_by_name
insert-AreOrdered a [] h k = (tt, tt)
insert-AreOrdered a (b ∷ bs) h k = elim (Bool-cases (bytes_lt b.0 a.0)) [
  | inl lt ↦ rw lt (elim h.0 [
    | inl p ↦ absurd (not_both (bytes_lt b.0 a.0) lt (bytes_lt-asymm a.0 b.0 p.0))
    | inr q ↦ (All-insert (Precedes b) a bs q k.0, insert-AreOrdered a bs h.1 k.1)
  ])
  | inr ge ↦ rw ge (elim h.0 [
    | inl p ↦ ((p, rest_after a b bs ge k.0 h.1), k)
    | inr q ↦ absurd (not_both (bytes_lt b.0 a.0) q.0 ge)
  ])
]

abbrev pub AreComparable : List (Bytes × List Listed) → Type 0
AreComparable [] = Unit
AreComparable (a ∷ ls) = All (Comparable a) ls × AreComparable ls

All-sort :
    (P : Bytes × List Listed → Type 0) (ls : List (Bytes × List Listed))
    → All P ls
    → All P (sort_by_name ls)
unfolding sort_by_name
All-sort P [] h = tt
All-sort P (a ∷ ls) h = All-insert P a (sort_by_name ls) h.0 (All-sort P ls h.1)

sort-AreOrdered :
    (ls : List (Bytes × List Listed)) → AreComparable ls → AreOrdered (sort_by_name ls)
unfolding sort_by_name
sort-AreOrdered [] h = tt
sort-AreOrdered (a ∷ ls) h =
    insert-AreOrdered a (sort_by_name ls) (All-sort (Comparable a) ls h.0) (sort-AreOrdered ls h.1)

All-from : {A : Type 0} (P : A → Type 0) (xs : List A) → ((x : A) → In x xs → P x) → All P xs
All-from P [] h = tt
All-from P (x ∷ xs) h = (h x (inl refl), All-from P xs (λ y m. h y (inr m)))

append-IsSorted :
    (es fs : List Listed)
    → IsSorted es
    → IsSorted fs
    → ((e f : Listed) → In e es → In f fs → Comes e f)
    → IsSorted (es ++ fs)
append-IsSorted [] fs h k l = k
append-IsSorted (e ∷ es) fs h k l = (
  All-append (Comes e) es fs h.0 (All-from (Comes e) fs (λ f m. l e f (inl refl) m)),
  append-IsSorted es fs h.1 k (λ d f m n. l d f (inr m) n),
)

concat_after :
    (a : Bytes × List Listed) (ls : List (Bytes × List Listed))
    → All (Precedes a) ls
    → (e f : Listed) → In e a.1
    → In f (concat ls)
    → Comes e f
unfolding concat
concat_after a [] h e f m n = absurd n
concat_after a (b ∷ ls) h e f m n = elim (In-append-cases f b.1 (concat ls) n) [
  | inl l ↦ h.0.1 e f m l
  | inr r ↦ concat_after a ls h.1 e f m r
]

concat-IsSorted :
    (ls : List (Bytes × List Listed))
    → AreOrdered ls
    → All (λ a. IsSorted a.1) ls
    → IsSorted (concat ls)
unfolding concat
concat-IsSorted [] h k = tt
concat-IsSorted (a ∷ ls) h k =
    append-IsSorted a.1 (concat ls) k.0 (concat-IsSorted ls h.1 k.1) (concat_after a ls h.0)

-- The listings of the entries of a directory, put together as the walk does.
pub concat-sort_by_name-IsSorted :
    (ls : List (Bytes × List Listed))
    → AreComparable ls
    → All (λ a. IsSorted a.1) ls
    → IsSorted (concat (sort_by_name ls))
concat-sort_by_name-IsSorted ls h k =
    concat-IsSorted (sort_by_name ls) (sort-AreOrdered ls h) (All-sort (λ a. IsSorted a.1) ls k)

All-concat :
    (P : Listed → Type 0) (ls : List (Bytes × List Listed))
    → All (λ a. All P a.1) ls
    → All P (concat ls)
unfolding concat
All-concat P [] h = tt
All-concat P (a ∷ ls) h = All-append P a.1 (concat ls) h.0 (All-concat P ls h.1)

pub All-sorted :
    (P : Listed → Type 0) (ls : List (Bytes × List Listed))
    → All (λ a. All P a.1) ls
    → All P (concat (sort_by_name ls))
All-sorted P ls h = All-concat P (sort_by_name ls) (All-sort (λ a. All P a.1) ls h)

-- A name in front of two strings leaves their order.
prefix_lt : (n x y : Bytes) → bytes_lt (n ++ x) (n ++ y) ≡ bytes_lt x y
unfolding bytes_lt
prefix_lt [] x y = refl
prefix_lt (c ∷ n) x y = ground (arith, prefix_lt n x y)

-- Not empty: what is listed below a directory has a name there.
abbrev pub IsBelow : Listed → Type 0
IsBelow e = (n : Bytes) × (ns : List Bytes) × (e.0 ≡ n ∷ ns)

join_under : (n : Bytes) (e : Listed) → IsBelow e → join (n ∷ e.0) ≡ n ++ slash ∷ join e.0
unfolding join
join_under n e (m, ns, h) = rw h refl

under-Comes :
    (n : Bytes) (e f : Listed)
    → IsBelow e
    → IsBelow f
    → Comes e f
    → Comes (n ∷ e.0, e.1) (n ∷ f.0, f.1)
unfolding before
under-Comes n e f h k c = (
  rw (join_under n e h, join_under n f k)
      (prefix_lt n (slash ∷ join e.0) (slash ∷ join f.0)
        ∙ prefix_lt (slash ∷ []) (join e.0) (join f.0)
        ∙ c.0),
  rw (bytes_lt_irrefl n, bytes_eq_refl n, c.1, before) refl,
)

All-under :
    (n : Bytes) (e : Listed) (es : List Listed)
    → IsBelow e
    → All IsBelow es
    → All (Comes e) es
    → All (Comes (n ∷ e.0, e.1)) (under n es)
unfolding under
All-under n e [] h k c = tt
All-under n e (f ∷ es) h k c = (under-Comes n e f h k.0 c.0, All-under n e es h k.1 c.1)

pub under-IsSorted :
    (n : Bytes) (es : List Listed) → All IsBelow es → IsSorted es → IsSorted (under n es)
unfolding under
under-IsSorted n [] h k = tt
under-IsSorted n (e ∷ es) h k = (All-under n e es h.0 h.1 k.0, under-IsSorted n es h.1 k.1)
