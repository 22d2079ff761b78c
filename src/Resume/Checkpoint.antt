-- ===== src/Resume/Checkpoint.antt =====
-- The checkpoint file survives a restart, and the manager's set, resume point and counter are what
-- the scan relies on.
use virus_detector.Base.{
  ◌≡◌, refl, sym, ap, ◌∙◌, ◌↔◌, ◌⊎◌, inl, inr, ◌≢◌, Bool, true, false, Option, some, List, [], ◌∷◌,
  ◌++◌, Bytes, bytes_eq, bytes_eq_refl, bytes_eq→eq, bytes_lt, bytes_lt_irrefl, bytes_lt_trans,
  bytes_lt-total, lines, path_eq, parts_eq, path_parts, In, All, All-In, arith, Bool-cases,
}
use virus_detector.Resume.Manager.{
  ResumeManager, running, completed, checkpoint_text, load, save, fresh, resumes, begin,
  insert_file, erase_file,
}

-- No newline.
abbrev pub IsLine : Bytes → Type 0
IsLine = All (λ c. c ≢ 10)

pub lines-append : (l s : Bytes) → IsLine l → lines (l ++ 10 ∷ s) ≡ l ∷ lines s
unfolding lines
lines-append [] s h = refl
lines-append (c ∷ l) s h = ground (arith, lines-append l s h.1, h.0)

pub load-checkpoint_text :
    (root status next : Bytes)
    → IsLine root
    → IsLine status
    → IsLine next
    → load (some (checkpoint_text root status next)) ≡ some (root, status, next)
unfolding load checkpoint_text
load-checkpoint_text root status next r s n =
    let three =
      lines-append root (status ++ (10 ∷ (next ++ 10 ∷ []))) r
      ∙ ap (◌∷◌ root)
          (lines-append status (next ++ 10 ∷ []) s ∙ ap (◌∷◌ status) (lines-append next [] n)) in
    rw (three, load)

pub path_eq_refl : (p : Bytes) → path_eq p p ≡ true
unfolding path_eq
path_eq_refl p = go (path_parts p)
  where
    go : (ps : List Bytes) → parts_eq ps ps ≡ true
    go [] = refl
    go (q ∷ ps) = ground (arith, bytes_eq_refl q, go ps)

begin_resumed :
    (writable : Bool) (saved root next : Bytes) (found : Option Bytes)
    → load found ≡ some (saved, running, next)
    → path_eq saved root ≡ true
    → begin writable root (fresh found)
      ≡ (record (fresh found) { root = root; next_file = next }, true, true)
unfolding begin resumes bytes_eq
begin_resumed writable saved root next found e p = rw (e, begin) (rw p)

begin_fresh :
    (writable : Bool) (saved root next : Bytes) (found : Option Bytes)
    → load found ≡ some (saved, completed, next)
    → (begin writable root (fresh found)).1 ≡ false
unfolding begin resumes bytes_eq
begin_fresh writable saved root next found e = rw (e, begin)

pub saved_checkpoint :
    (status : Bytes) (m : ResumeManager)
    → IsLine m.root
    → IsLine status
    → IsLine m.next_file
    → load (save true status m).0.checkpoint ≡ some (m.root, status, m.next_file)
unfolding save
saved_checkpoint status m r s n = load-checkpoint_text m.root status m.next_file r s n

-- A running checkpoint that a manager saved is resumed from: a new process that finds it and scans
-- the same root begins with `resumed` set and with the saved next file, provided that neither path
-- has a newline in it. A completed one is not resumed from.
pub save-begin :
    (m : ResumeManager) (writable : Bool)
    → IsLine m.root
    → IsLine m.next_file
    → (begin writable m.root (fresh (save true running m).0.checkpoint) ≡ (
      record (fresh (save true running m).0.checkpoint) { root = m.root; next_file = m.next_file },
      true,
      true,
    ))
      × ((begin writable m.root (fresh (save true completed m).0.checkpoint)).1 ≡ false)
save-begin m writable r n = (
  begin_resumed writable m.root m.root m.next_file (save true running m).0.checkpoint
      (saved_checkpoint running m r (omega arith) n) (path_eq_refl m.root),
  begin_fresh writable m.root m.root m.next_file (save true completed m).0.checkpoint
      (saved_checkpoint completed m r (omega arith) n),
)

-- `f` comes before every file of the list.
abbrev pub IsBefore : Bytes → List Bytes → Type 0
IsBefore f = All (λ g. bytes_lt f g ≡ true)

-- Strictly ascending.
abbrev pub IsAscending : List Bytes → Type 0
IsAscending [] = Unit
IsAscending (f ∷ fs) = IsBefore f fs × IsAscending fs

IsBefore-trans :
    (f g : Bytes) (fs : List Bytes) → bytes_lt f g ≡ true → IsBefore g fs → IsBefore f fs
IsBefore-trans f g [] h k = tt
IsBefore-trans f g (x ∷ fs) h k = (bytes_lt_trans f g x h k.0, IsBefore-trans f g fs h k.1)

IsBefore-insert :
    (f g : Bytes) (fs : List Bytes)
    → bytes_lt f g ≡ true
    → IsBefore f fs
    → IsBefore f (insert_file g fs)
unfolding insert_file
IsBefore-insert f g [] h k = (h, tt)
IsBefore-insert f g (x ∷ fs) h k = elim (Bool-cases (bytes_lt g x)) [
  | inl lt ↦ rw lt (h, k)
  | inr ge ↦ elim (Bool-cases (bytes_eq g x)) [
    | inl same ↦ rw (ge, same) k
    | inr other ↦ rw (ge, other) (k.0, IsBefore-insert f g fs h k.1)
  ]
]

pub insert_file-IsAscending :
    (f : Bytes) (fs : List Bytes) → IsAscending fs → IsAscending (insert_file f fs)
unfolding insert_file
insert_file-IsAscending f [] h = (tt, tt)
insert_file-IsAscending f (g ∷ fs) h = elim (Bool-cases (bytes_lt f g)) [
  | inl lt ↦ rw lt ((lt, IsBefore-trans f g fs lt h.0), h)
  | inr ge ↦ elim (Bool-cases (bytes_eq f g)) [
    | inl same ↦ rw (ge, same) h
    | inr other ↦
        rw (ge, other)
          (
            IsBefore-insert g f fs (bytes_lt-total f g ge other) h.0,
            insert_file-IsAscending f fs h.1,
          )
  ]
]

IsBefore-erase : (f g : Bytes) (fs : List Bytes) → IsBefore f fs → IsBefore f (erase_file g fs)
unfolding erase_file
IsBefore-erase f g [] h = tt
IsBefore-erase f g (x ∷ fs) h = elim (Bool-cases (bytes_eq g x)) [
  | inl same ↦ rw same h.1
  | inr other ↦ rw other (h.0, IsBefore-erase f g fs h.1)
]

pub erase_file-IsAscending :
    (f : Bytes) (fs : List Bytes) → IsAscending fs → IsAscending (erase_file f fs)
unfolding erase_file
erase_file-IsAscending f [] h = tt
erase_file-IsAscending f (g ∷ fs) h = elim (Bool-cases (bytes_eq f g)) [
  | inl same ↦ rw same h.1
  | inr other ↦ rw other (IsBefore-erase g f fs h.0, erase_file-IsAscending f fs h.1)
]

pub In-insert_file : (x f : Bytes) (fs : List Bytes) → In x (insert_file f fs) ↔ ((x ≡ f) ⊎ In x fs)
unfolding insert_file
In-insert_file x f [] = (λ m. m, λ m. m)
In-insert_file x f (g ∷ fs) = elim (Bool-cases (bytes_lt f g)) [
  | inl lt ↦ rw lt (λ m. m, λ m. m)
  | inr ge ↦ elim (Bool-cases (bytes_eq f g)) [
    | inl same ↦
        rw (ge, same)
          (λ m. inr m, λ m. elim m [ inl e ↦ inl (e ∙ bytes_eq→eq f g same) | inr n ↦ n ])
    | inr other ↦
        let ih = In-insert_file x f fs in
        rw (ge, other)
          (
            λ m. elim m [
              | inl e ↦ inr (inl e)
              | inr n ↦ elim (ih.0 n) [ inl e ↦ inl e | inr o ↦ inr (inr o) ]
            ],
            λ m. elim m [
              | inl e ↦ inr (ih.1 (inl e))
              | inr (inl e) ↦ inl e
              | inr (inr n) ↦ inr (ih.1 (inr n))
            ],
          )
  ]
]

-- In an ascending list erasing takes out the file, and nothing else.
pub In-erase_file :
    (x f : Bytes) (fs : List Bytes) → IsAscending fs → In x (erase_file f fs) ↔ (In x fs × (x ≢ f))
unfolding erase_file
In-erase_file x f [] h = (λ m. absurd m, λ m. absurd m.0)
In-erase_file x f (g ∷ fs) h = elim (Bool-cases (bytes_eq f g)) [
  | inl same ↦
      let f_g = bytes_eq→eq f g same in
      rw same (
        λ m. (
          inr m,
          λ e.
              let lt : bytes_lt g x ≡ true = All-In (λ y. bytes_lt g y ≡ true) x fs h.0 m in
              let eq : g ≡ x = sym (e ∙ f_g) in
              let bad : true ≡ false = sym lt ∙ ap (bytes_lt g) (sym eq) ∙ bytes_lt_irrefl g in
              (cc),
        ),
        λ m. elim m.0 [ inl e ↦ absurd (m.1 (e ∙ sym f_g)) | inr n ↦ n ],
      )
  | inr other ↦
      let ih = In-erase_file x f fs h.1 in
      rw other (
        λ m. elim m [
          | inl e ↦ (
            inl e,
            λ q.
                let bad : true ≡ false =
                  sym (bytes_eq_refl f) ∙ ap (bytes_eq f) (sym q ∙ e) ∙ other in
                (cc),
          )
          | inr n ↦ let (at_x, ne) = ih.0 n in (inr at_x, ne)
        ],
        λ m. elim m.0 [ inl e ↦ inl e | inr n ↦ inr (ih.1 (n, m.1)) ],
      )
]
