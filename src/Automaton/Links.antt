-- ===== src/Automaton/Links.antt =====
-- The invariant of the breadth-first search that fills the failure links. A ghost `prog v` counts
-- the bytes of state `v` that are done, and `seen v` says that `v` was queued (or is the root).
use virus_detector.Base.{
  ℕ, suc, ◌<◌, ◌≤◌, ◌≡◌, refl, sym, ap, ◌∙◌, ◌⊎◌, inl, inr, ◌≢◌, Bool, true, false, some, List, [],
  ◌∷◌, ◌++◌, Bytes, length, arith, In, All, All-append, ◌==◌, if◌then◌else◌, In-append-cases,
}
use virus_detector.Automaton.{Nodes, next, failure, output}
use virus_detector.Automaton.Store.{next_beyond}
use virus_detector.Automaton.Words
use virus_detector.Automaton.Words.{IsTrie, collected, longest-word}
use virus_detector.Automaton.Goto.{goto, fail, depth}

abbrev pub bump : (ℕ → ℕ) → ℕ → ℕ → ℕ
bump prog s v = if v == s then suc (prog s) else prog v

abbrev pub mark : (ℕ → Bool) → ℕ → ℕ → Bool
mark seen t v = if v == t then true else seen v

-- First states of depth `d`, then states of depth `d + 1`.
abbrev pub Levels : (ℕ → ℕ) → ℕ → List ℕ → Type 0
Levels dep d [] = Unit
Levels dep d (q ∷ qs) = ((dep q ≡ d) × Levels dep d qs) ⊎ All (λ r. dep r ≡ suc d) (q ∷ qs)

abbrev pub Distinct : List ℕ → Type 0
Distinct [] = Unit
Distinct (x ∷ xs) = (¬ In x xs) × Distinct xs

pub Levels-snoc :
    (dep : ℕ → ℕ) (d t : ℕ) (qs : List ℕ)
    → Levels dep d qs
    → dep t ≡ suc d
    → Levels dep d (qs ++ t ∷ [])
Levels-snoc dep d t [] l h = inr (h, tt)
Levels-snoc dep d t (q ∷ qs) (inl (e, l)) h = inl (e, Levels-snoc dep d t qs l h)
Levels-snoc dep d t (q ∷ qs) (inr deep) h =
    inr (All-append (λ r. dep r ≡ suc d) (q ∷ qs) (t ∷ []) deep (h, tt))

pub Levels-All : (dep : ℕ → ℕ) (d : ℕ) (qs : List ℕ) → All (λ r. dep r ≡ d) qs → Levels dep d qs
Levels-All dep d [] h = tt
Levels-All dep d (q ∷ qs) h = inl (h.0, Levels-All dep d qs h.1)

pub Distinct-snoc : (t : ℕ) (qs : List ℕ) → Distinct qs → ¬ In t qs → Distinct (qs ++ t ∷ [])
Distinct-snoc t [] h k = (λ m. m, tt)
Distinct-snoc t (q ∷ qs) h k = (
  λ m. elim (In-append-cases q qs (t ∷ []) m) [
    | inl old ↦ h.0 old
    | inr (inl e) ↦ k (inl (sym e))
    | inr (inr none_left) ↦ none_left
  ],
  Distinct-snoc t qs h.1 (λ m. k (inr m)),
)

pub snoc-injective : (u v : Bytes) (a b : ℕ) → u ++ a ∷ [] ≡ v ++ b ∷ [] → (u ≡ v) × (a ≡ b)
snoc-injective [] [] a b e = (refl, cc)
snoc-injective [] (y ∷ []) a b e = (cc, cc)
snoc-injective [] (y ∷ z ∷ v) a b e = (cc, cc)
snoc-injective (x ∷ []) [] a b e = (cc, cc)
snoc-injective (x ∷ w ∷ u) [] a b e = (cc, cc)
snoc-injective (x ∷ u) (y ∷ v) a b e =
    let tails : u ++ a ∷ [] ≡ v ++ b ∷ [] = cc in
    let heads : x ≡ y = cc in let (same, last) = snoc-injective u v a b tails in (cc, last)

pub next-some-lt : (ns : Nodes) (s b t : ℕ) → next ns s b ≡ some t → s < length ns
next-some-lt ns s b t e = ground (arith, next_beyond ns s b)

-- A state has one parent, by one byte.
pub one_parent :
    (tr : Nodes) (word : ℕ → Bytes)
    → IsTrie tr word
    → (s v b c t : ℕ) → next tr s b ≡ some t
    → next tr v c ≡ some t
    → (s ≡ v) × (b ≡ c)
one_parent tr word trie s v b c t p q =
    let (words, bytes) =
      snoc-injective (word s) (word v) b c (sym (trie.child s b t p).1 ∙ (trie.child v c t q).1) in
    (
      sym (longest-word tr word trie s (next-some-lt tr s b t p))
          ∙ ap (Words.longest tr) words
          ∙ longest-word tr word trie v (next-some-lt tr v c t q),
      bytes,
    )

pub record IsLinking (tr : Nodes) (word : ℕ → Bytes) (ns : Nodes) (prog : ℕ → ℕ) (seen : ℕ → Bool)
    (queue : List ℕ) (cur : ℕ) : Type 0 where
  pub size : length ns ≡ length tr
  pub filled : (v c : ℕ) → c < prog v → next ns v c ≡ some (goto tr word v c)
  pub raw : (v c : ℕ) → prog v ≤ c → next ns v c ≡ next tr v c
  pub linked : (v : ℕ) → seen v ≡ true → v ≢ 0 → failure ns v ≡ fail tr word v
  pub gathered : (v : ℕ) → seen v ≡ true → output ns v ≡ collected tr (word v)
  pub fresh : (v : ℕ) → seen v ≡ false → output ns v ≡ output tr v
  pub idle : (v : ℕ) → seen v ≡ false → prog v ≡ 0
  pub frontier : (v c t : ℕ) → c < prog v → next tr v c ≡ some t → seen t ≡ true
  pub parents : (v c t : ℕ) → next tr v c ≡ some t → seen t ≡ true → c < prog v
  pub root_seen : seen 0 ≡ true
  pub cur_seen : seen cur ≡ true
  pub cur_lt : cur < length tr
  pub queued :
      (q : ℕ) → In q queue → (seen q ≡ true) × (prog q ≡ 0) × (q ≢ cur) × (q < length tr) × (q ≢ 0)
  pub placed : (v : ℕ) → seen v ≡ true → In v queue ⊎ ((v ≡ cur) ⊎ (prog v ≡ 256))
  pub distinct : Distinct queue
  pub levels : Levels (depth tr word) (depth tr word cur) queue
  pub shallow : (v : ℕ) → v < length tr → depth tr word v < depth tr word cur → prog v ≡ 256
