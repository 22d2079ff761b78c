-- ===== src/Automaton/Store.antt =====
-- How the accessors of the node vector see each write of the builder.
use virus_detector.Base.{
  ℕ, suc, ◌<◌, ◌≤◌, ◌≡◌, refl, inl, inr, Option, none, List, [], ◌∷◌, ◌++◌, length, get_or, set,
  ◌==◌, ◌&&◌, if◌then◌else◌, arith, length-set, get_or-set_self, get_or-set_ne, Bool-cases, ==_iff,
}
use virus_detector.Automaton.{
  AutomatonNode, Nodes, new_node, next, failure, output, set_next, set_failure, append_output,
}

-- A read of a written node list, by the index.
get_or-set :
    (ns : Nodes) (i j : ℕ) (v : AutomatonNode)
    → i < length ns
    → get_or (set ns i v) j new_node ≡ (if j == i then v else get_or ns j new_node)
get_or-set ns i j v h = elim (Bool-cases (j == i)) [
  | inl e ↦ rw e (rw ((==_iff j i).0 e) (get_or-set_self ns i v new_node h))
  | inr e ↦ rw e (get_or-set_ne ns i j v new_node (λ p. ground arith))
]

module _ (ns : Nodes) (s : ℕ) (h : s < length ns) where
  pub next-set_next :
      (b : ℕ) (v : Option ℕ) (r c : ℕ)
      → next (set_next ns s b v) r c ≡ (if (r == s) && (c == b) then v else next ns r c)
  unfolding next set_next
  next-set_next b v r c = rw (get_or-set ns s r _ h, next, set_next) (ground arith)

  pub failure-set_next :
      (b : ℕ) (v : Option ℕ) (r : ℕ) → failure (set_next ns s b v) r ≡ failure ns r
  unfolding failure set_next
  failure-set_next b v r = rw (get_or-set ns s r _ h, failure, set_next) (ground arith)

  pub output-set_next : (b : ℕ) (v : Option ℕ) (r : ℕ) → output (set_next ns s b v) r ≡ output ns r
  unfolding output set_next
  output-set_next b v r = rw (get_or-set ns s r _ h, output, set_next) (ground arith)

  pub next-set_failure : (f r c : ℕ) → next (set_failure ns s f) r c ≡ next ns r c
  unfolding next set_failure
  next-set_failure f r c = rw (get_or-set ns s r _ h, next, set_failure) (ground arith)

  pub failure-set_failure :
      (f r : ℕ) → failure (set_failure ns s f) r ≡ (if r == s then f else failure ns r)
  unfolding failure set_failure
  failure-set_failure f r = rw (get_or-set ns s r _ h, failure, set_failure) (ground arith)

  pub output-set_failure : (f r : ℕ) → output (set_failure ns s f) r ≡ output ns r
  unfolding output set_failure
  output-set_failure f r = rw (get_or-set ns s r _ h, output, set_failure) (ground arith)

  pub next-append_output : (is : List ℕ) (r c : ℕ) → next (append_output ns s is) r c ≡ next ns r c
  unfolding next append_output
  next-append_output is r c = rw (get_or-set ns s r _ h, next, append_output) (ground arith)

  pub failure-append_output :
      (is : List ℕ) (r : ℕ) → failure (append_output ns s is) r ≡ failure ns r
  unfolding failure append_output
  failure-append_output is r = rw (get_or-set ns s r _ h, failure, append_output) (ground arith)

  pub output-append_output :
      (is : List ℕ) (r : ℕ)
      → output (append_output ns s is) r ≡ (if r == s then output ns r ++ is else output ns r)
  unfolding output append_output
  output-append_output is r = rw (get_or-set ns s r _ h, output, append_output) (ground arith)

pub length-set_next : (ns : Nodes) (s b : ℕ) (v : Option ℕ) → length (set_next ns s b v) ≡ length ns
unfolding set_next
length-set_next ns s b v = length-set ns s _

pub length-set_failure : (ns : Nodes) (s f : ℕ) → length (set_failure ns s f) ≡ length ns
unfolding set_failure
length-set_failure ns s f = length-set ns s _

pub length-append_output :
    (ns : Nodes) (s : ℕ) (is : List ℕ) → length (append_output ns s is) ≡ length ns
unfolding append_output
length-append_output ns s is = length-set ns s _

-- A fresh node at the end changes no read.
get_or-append_new :
    (ns : Nodes) (r : ℕ) → get_or (ns ++ new_node ∷ []) r new_node ≡ get_or ns r new_node
get_or-append_new [] ℕ.zero = refl
get_or-append_new [] (suc r) = refl
get_or-append_new (n ∷ ns) ℕ.zero = refl
get_or-append_new (n ∷ ns) (suc r) = get_or-append_new ns r

pub next-append_new : (ns : Nodes) (r c : ℕ) → next (ns ++ new_node ∷ []) r c ≡ next ns r c
unfolding next
next-append_new ns r c = rw (get_or-append_new ns r, next)

pub output-append_new : (ns : Nodes) (r : ℕ) → output (ns ++ new_node ∷ []) r ≡ output ns r
unfolding output
output-append_new ns r = rw (get_or-append_new ns r, output)

-- Past the end there is no next state and no output.
get_or_beyond : (ns : Nodes) (r : ℕ) → length ns ≤ r → get_or ns r new_node ≡ new_node
get_or_beyond [] r h = refl
get_or_beyond (n ∷ ns) ℕ.zero h = absurd (omega arith)
get_or_beyond (n ∷ ns) (suc r) h = get_or_beyond ns r (omega arith)

pub next_beyond : (ns : Nodes) (r c : ℕ) → length ns ≤ r → next ns r c ≡ none
unfolding next
next_beyond ns r c h = rw (get_or_beyond ns r h, next)

pub output_beyond : (ns : Nodes) (r : ℕ) → length ns ≤ r → output ns r ≡ []
unfolding output
output_beyond ns r h = rw (get_or_beyond ns r h, output)
