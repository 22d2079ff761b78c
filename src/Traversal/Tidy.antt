-- ===== src/Traversal/Tidy.antt =====
-- Trees in which the order of strings is that of the walk: no name of an entry continues that of a
-- directory beside it with a byte below '/'.
use virus_detector.Base.{
  ◌≡◌, ◌≢◌, refl, sym, ap, ◌∙◌, ◌⊎◌, inl, inr, true, false, List, [], ◌∷◌, ◌++◌, append-nil, Bytes,
  bytes_lt, bytes_lt_irrefl, bytes_lt-asymm, bytes_lt_trans, bytes_eq, bytes_eq→eq, slash, join,
  IsName, All, arith, Bool-cases, not_both,
}
use virus_detector.Resume.Order.{prefix-below}
use virus_detector.Resume.PathFilter.{before}
use virus_detector.Traversal.{
  Node, Children, file, directory, symlink, special, unreadable, nil, cons,
}
use virus_detector.Traversal.Listing.{Listed}
use virus_detector.Traversal.Sorted.{Comes, IsBelow}

-- All that is at `n` comes before an entry `m` beside it.
abbrev pub IsFirst : Node → Bytes → Bytes → Type 0
IsFirst (directory opens cs) n m = bytes_lt (n ++ slash ∷ []) m ≡ true
IsFirst (file stat) n m = bytes_lt n m ≡ true
IsFirst (symlink target) n m = bytes_lt n m ≡ true
IsFirst special n m = bytes_lt n m ≡ true
IsFirst unreadable n m = bytes_lt n m ≡ true

-- An entry against those listed after it.
abbrev pub IsApart : Bytes → Node → Children → Type 0
IsApart n node nil = Unit
IsApart n node (cons m other cs) = (IsFirst node n m ⊎ IsFirst other m n) × IsApart n node cs

abbrev mutual
  pub IsTidy : Node → Type 0
  IsTidy (directory opens cs) = AreTidy cs
  IsTidy (file stat) = Unit
  IsTidy (symlink target) = Unit
  IsTidy special = Unit
  IsTidy unreadable = Unit

  pub AreTidy : Children → Type 0
  AreTidy nil = Unit
  AreTidy (cons n node cs) = IsName n × IsTidy node × IsApart n node cs × AreTidy cs

lt_append : (s t w : Bytes) → bytes_lt s t ≡ true → bytes_lt s (t ++ w) ≡ true
unfolding bytes_lt
lt_append s [] w h = cc
lt_append [] (b ∷ t) w h = refl
lt_append (a ∷ s) (b ∷ t) w h = ground (arith, lt_append s t w)

slash_lt :
    (n m w x : Bytes)
    → All (λ c. c ≢ slash) m
    → bytes_lt (n ++ slash ∷ []) m ≡ true
    → bytes_lt (n ++ slash ∷ x) (m ++ w) ≡ true
unfolding bytes_lt
slash_lt n [] w x k h = cc
slash_lt [] (b ∷ m) w x k h = ground (arith, k.0)
slash_lt (a ∷ n) (b ∷ m) w x k h = ground (arith, slash_lt n m w x k.1)

pub name_lt : (node : Node) (n m : Bytes) → IsFirst node n m → bytes_lt n m ≡ true
name_lt (directory opens cs) n m h =
    bytes_lt_trans n (n ++ slash ∷ []) m (prefix-below n [] slash) h
name_lt (file stat) n m h = h
name_lt (symlink target) n m h = h
name_lt special n m h = h
name_lt unreadable n m h = h

join_head : (m : Bytes) (ns : List Bytes) → (w : Bytes) × (join (m ∷ ns) ≡ m ++ w)
unfolding join
join_head m [] = ([], sym (append-nil m))
join_head m (n ∷ ns) = (slash ∷ join (n ∷ ns), refl)

before_after :
    (n m : Bytes) (ns ms : List Bytes) → bytes_lt n m ≡ true → before (m ∷ ms) (n ∷ ns) ≡ false
unfolding before
before_after n m ns ms h = elim (Bool-cases (bytes_eq m n)) [
  | inl e ↦
      absurd (
        not_both (bytes_lt n n) (ap (bytes_lt n) (sym (bytes_eq→eq m n e)) ∙ h) (bytes_lt_irrefl n))
  | inr e ↦ rw (bytes_lt-asymm n m h, e, before) refl
]

-- The names that lead to what is listed at `n`.
abbrev pub IsAt : Node → Bytes → Listed → Type 0
IsAt (directory opens cs) n e = (x : Bytes) × (xs : List Bytes) × (e.0 ≡ n ∷ x ∷ xs)
IsAt (file stat) n e = e.0 ≡ n ∷ []
IsAt (symlink target) n e = e.0 ≡ n ∷ []
IsAt special n e = e.0 ≡ n ∷ []
IsAt unreadable n e = e.0 ≡ n ∷ []

pub IsAt-IsBelow : (node : Node) (n : Bytes) (e : Listed) → IsAt node n e → IsBelow e
IsAt-IsBelow (directory opens cs) n e (x, xs, h) = (n, x ∷ xs, h)
IsAt-IsBelow (file stat) n e h = (n, [], h)
IsAt-IsBelow (symlink target) n e h = (n, [], h)
IsAt-IsBelow special n e h = (n, [], h)
IsAt-IsBelow unreadable n e h = (n, [], h)

-- What is listed at an entry comes before what is listed at one after it.
at_lt :
    (node : Node) (n m w : Bytes) (e : Listed)
    → All (λ c. c ≢ slash) m
    → IsFirst node n m
    → IsAt node n e
    → bytes_lt (join e.0) (m ++ w) ≡ true
unfolding join
at_lt (directory opens cs) n m w e k h (x, xs, at_e) = rw at_e (slash_lt n m w (join (x ∷ xs)) k h)
at_lt (file stat) n m w e k h at_e = rw at_e (lt_append n m w h)
at_lt (symlink target) n m w e k h at_e = rw at_e (lt_append n m w h)
at_lt special n m w e k h at_e = rw at_e (lt_append n m w h)
at_lt unreadable n m w e k h at_e = rw at_e (lt_append n m w h)

heads : (node : Node) (n : Bytes) (e : Listed) → IsAt node n e → (ns : List Bytes) × (e.0 ≡ n ∷ ns)
heads (directory opens cs) n e (x, xs, h) = (x ∷ xs, h)
heads (file stat) n e h = ([], h)
heads (symlink target) n e h = ([], h)
heads special n e h = ([], h)
heads unreadable n e h = ([], h)

pub entries_across :
    (node other : Node) (n m : Bytes) (e f : Listed)
    → All (λ c. c ≢ slash) m
    → IsFirst node n m
    → IsAt node n e
    → IsAt other m f
    → Comes e f
entries_across node other n m e f k h at_n at_m =
    let (ns, e_n) = heads node n e at_n in
    let (ms, f_m) = heads other m f at_m in
    let (w, joined) = join_head m ms in
    (
      ap (λ z. bytes_lt (join e.0) (join z)) f_m
          ∙ ap (bytes_lt (join e.0)) joined
          ∙ at_lt node n m w e k h at_n,
      ap (λ z. before z e.0) f_m
          ∙ ap (before (m ∷ ms)) e_n
          ∙ before_after n m ns ms (name_lt node n m h),
    )
