-- ===== src/Automaton/Advance.antt =====
-- One byte of the search keeps the invariant, whether or not the trie has a child there.
use virus_detector.Base.{
  ℕ, ◌<◌, ◌≡◌, sym, ap, ◌∙◌, inl, inr, ◌≢◌, Bool, false, none, some, List, [], ◌∷◌, ◌++◌, Bytes,
  length, arith, ◌==◌, ◌&&◌, if◌then◌else◌, Bool-cases, In-append-cases, In-append_left,
  In-append_right, ==_iff,
}
use virus_detector.Automaton.{Nodes, next, failure, output}
use virus_detector.Automaton.Words.{IsTrie, collected}
use virus_detector.Automaton.Goto.{goto, fail, depth, goto_child, depth-child, child-ne-zero}
use virus_detector.Automaton.Links.{IsLinking, bump, mark, Levels-snoc, Distinct-snoc, one_parent}

-- A child that the search is about to reach has not been queued.
pub child-unseen :
    (tr : Nodes) (word : ℕ → Bytes) (ns : Nodes) (prog : ℕ → ℕ) (seen : ℕ → Bool) (queue : List ℕ)
    (cur : ℕ)
    → IsLinking tr word ns prog seen queue cur
    → (t : ℕ) → next ns cur (prog cur) ≡ some t
    → seen t ≡ false
child-unseen tr word ns prog seen queue cur inv t found = elim (Bool-cases (seen t)) [
  | inl s ↦ absurd (
      omega (
        arith,
        inv.parents cur (prog cur) t (sym (inv.raw cur (prog cur) (omega arith)) ∙ found) s,
      ))
  | inr s ↦ s
]

module _ (tr : Nodes) (word : ℕ → Bytes) (trie : IsTrie tr word) (ns ns' : Nodes) (prog : ℕ → ℕ)
    (seen : ℕ → Bool) (queue : List ℕ) (cur : ℕ) (inv : IsLinking tr word ns prog seen queue cur)
    (room : prog cur < 256) (size : length ns' ≡ length ns) where
  module _ (missing : next ns cur (prog cur) ≡ none)
      (nexts : (r c : ℕ)
        → next ns' r c ≡ (
            if (r == cur) && (c == prog cur)
            then some (goto tr word cur (prog cur))
            else next ns r c))
      (failures : (r : ℕ) → failure ns' r ≡ failure ns r)
      (outputs : (r : ℕ) → output ns' r ≡ output ns r) where
    pub advance_missing : IsLinking tr word ns' (bump prog cur) seen queue cur
    advance_missing = record {
      size = size ∙ inv.size;
      filled = λ v c h. ground (arith, nexts v c, inv.filled v c);
      raw = λ v c h. ground (arith, nexts v c, inv.raw v c);
      linked = λ v s ne. failures v ∙ inv.linked v s ne;
      gathered = λ v s. outputs v ∙ inv.gathered v s;
      fresh = λ v s. outputs v ∙ inv.fresh v s;
      idle = λ v s. ground (arith, inv.idle v, inv.cur_seen);
      frontier = λ v c t h e. ground (arith, inv.frontier v c t, inv.raw v c);
      parents = λ v c t e s. ground (arith, inv.parents v c t);
      root_seen = inv.root_seen;
      cur_seen = inv.cur_seen;
      cur_lt = inv.cur_lt;
      queued = λ q m. let (a, b, c, d, e) = inv.queued q m in (a, ground arith, c, d, e);
      placed = λ v s. elim (inv.placed v s) [
        | inl m ↦ inl m
        | inr (inl e) ↦ inr (inl e)
        | inr (inr full) ↦ inr (inr (ground arith))
      ];
      distinct = inv.distinct;
      levels = inv.levels;
      shallow = λ v h k. ground (arith, inv.shallow v);
    }

  module _ (t : ℕ) (found : next ns cur (prog cur) ≡ some t)
      (nexts : (r c : ℕ) → next ns' r c ≡ next ns r c) (link : failure ns' t ≡ fail tr word t)
      (links : (r : ℕ) → r ≢ t → failure ns' r ≡ failure ns r)
      (gather : output ns' t ≡ collected tr (word t))
      (gathers : (r : ℕ) → r ≢ t → output ns' r ≡ output ns r) where
    child : next tr cur (prog cur) ≡ some t
    child = sym (inv.raw cur (prog cur) (omega arith)) ∙ found

    unseen : seen t ≡ false
    unseen = child-unseen tr word ns prog seen queue cur inv t found

    unmarked : (v : ℕ) → mark seen t v ≡ false → (v ≢ t) × (seen v ≡ false)
    unmarked v h = (λ e. ground arith, ground arith)

    pub advance_child : IsLinking tr word ns' (bump prog cur) (mark seen t) (queue ++ t ∷ []) cur
    advance_child = record {
      size = size ∙ inv.size;
      filled = λ v c h. ground (
        arith,
        nexts v c,
        inv.filled v c,
        goto_child tr word trie cur (prog cur) t inv.cur_lt child,
      );
      raw = λ v c h. ground (arith, nexts v c, inv.raw v c);
      linked = λ v s ne. ground (arith, link, links v, inv.linked v);
      gathered = λ v s. ground (arith, gather, gathers v, inv.gathered v);
      fresh = λ v s. let (ne, u) = unmarked v s in gathers v ne ∙ inv.fresh v u;
      idle = λ v s. let (ne, u) = unmarked v s in ground (arith, inv.idle v u, inv.cur_seen);
      frontier = λ v c r h e. ground (arith, inv.frontier v c r, child);
      parents = λ v c r e s. elim (Bool-cases (r == t)) [
        | inl same ↦
            let r_t = (==_iff r t).0 same in
            let (p, q) = one_parent tr word trie cur v (prog cur) c t child (e ∙ ap some r_t) in
            ground arith
        | inr other ↦ ground (arith, inv.parents v c r)
      ];
      root_seen = ground (arith, inv.root_seen);
      cur_seen = ground (arith, inv.cur_seen);
      cur_lt = inv.cur_lt;
      queued = λ q m. elim (In-append-cases q queue (t ∷ []) m) [
        | inl old ↦ let (a, b, c, d, e) = inv.queued q old in (ground arith, ground arith, c, d, e)
        | inr (inl e) ↦ (
          ground arith,
          ground (arith, inv.idle t unseen, inv.cur_seen, unseen),
          λ p. ground (arith, inv.cur_seen, unseen),
          rw e (trie.child cur (prog cur) t child).0,
          λ p. child-ne-zero tr word trie cur (prog cur) t child (sym e ∙ p),
        )
        | inr (inr nothing) ↦ absurd nothing
      ];
      placed = λ v s. elim (Bool-cases (v == t)) [
        | inl same ↦ inl (In-append_right v queue (t ∷ []) (inl ((==_iff v t).0 same)))
        | inr other ↦ elim (inv.placed v (ground arith)) [
          | inl m ↦ inl (In-append_left v queue (t ∷ []) m)
          | inr (inl e) ↦ inr (inl e)
          | inr (inr full) ↦ inr (inr (ground arith))
        ]
      ];
      distinct =
          Distinct-snoc t queue inv.distinct (λ m. ground (arith, (inv.queued t m).0, unseen));
      levels =
          Levels-snoc (depth tr word) (depth tr word cur) t queue inv.levels
            (depth-child tr word trie cur (prog cur) t child);
      shallow = λ v h k. ground (arith, inv.shallow v);
    }
