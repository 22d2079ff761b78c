-- ===== src/Automaton/Steps.antt =====
-- The bodies of the two byte loops, `root_byte` and `state_byte`, keep the invariant of the search,
-- and so does taking the next state off the queue.
use virus_detector.Base.{
  ℕ, suc, ◌<◌, ◌≤◌, ◌≡◌, refl, sym, ap, ◌∙◌, inl, inr, ◌≢◌, Bool, true, Option, none, some, List,
  [], ◌∷◌, ◌++◌, Bytes, length, arith, ◌==◌, ◌&&◌, if◌then◌else◌, Bool-cases, Option-cases,
  append-nil, ==_iff,
}
use virus_detector.Automaton.{
  Nodes, next, output, index, set_next, set_failure, append_output, root_byte, state_byte,
}
use virus_detector.Automaton.Store.{
  next-set_next, failure-set_next, output-set_next, next-set_failure, failure-set_failure,
  output-set_failure, next-append_output, failure-append_output, output-append_output,
  length-set_next, length-set_failure, length-append_output,
}
use virus_detector.Automaton.Words.{IsTrie, collected}
use virus_detector.Automaton.Goto.{
  goto, fail, depth, goto_lt, fail_lt, goto_root_miss, goto_miss, fail_root_child, fail_child,
  collected_state, depth-fail-lt, depth-goto-le, depth-child, child-ne-zero, parent,
}
use virus_detector.Automaton.Links
use virus_detector.Automaton.Links.{IsLinking, bump, mark, Levels, Levels-All}
use virus_detector.Automaton.Advance.{advance_missing, advance_child, child-unseen}

-- What one byte leaves: the invariant, with one byte more done at the current state.
pub record Advanced (tr : Nodes) (word : ℕ → Bytes) (prog : ℕ → ℕ) (cur : ℕ) (r : Nodes × List ℕ)
    : Type 0 where
  pub prog' : ℕ → ℕ
  pub seen' : ℕ → Bool
  pub inv : IsLinking tr word r.0 prog' seen' r.1 cur
  pub at_cur : prog' cur ≡ suc (prog cur)
  pub others : (v : ℕ) → v ≢ cur → prog' v ≡ prog v

root_byte_miss :
    (b : ℕ) (ns : Nodes) (q : List ℕ)
    → next ns 0 b ≡ none
    → root_byte b ns q ≡ (set_next ns 0 b (some 0), q)
unfolding root_byte
root_byte_miss b ns q e = rw (e, root_byte)

root_byte_hit :
    (b t : ℕ) (ns : Nodes) (q : List ℕ)
    → next ns 0 b ≡ some t
    → root_byte b ns q ≡ (set_failure ns t 0, q ++ t ∷ [])
unfolding root_byte
root_byte_hit b t ns q e = rw (e, root_byte)

state_byte_miss :
    (s f b : ℕ) (ns : Nodes) (q : List ℕ)
    → next ns s b ≡ none
    → state_byte s f b ns q ≡ (set_next ns s b (next ns f b), q)
unfolding state_byte
state_byte_miss s f b ns q e = rw (e, state_byte)

state_byte_hit :
    (s f b t r : ℕ) (ns : Nodes) (q : List ℕ)
    → next ns s b ≡ some t
    → next ns f b ≡ some r
    → state_byte s f b ns q
      ≡ (append_output (set_failure ns t r) t (output (set_failure ns t r) r), q ++ t ∷ [])
unfolding state_byte index
state_byte_hit s f b t r ns q e g = rw (e, g, state_byte)

module _ (tr : Nodes) (word : ℕ → Bytes) (trie : IsTrie tr word) (silent : output tr 0 ≡ [])
    (ns : Nodes) (prog : ℕ → ℕ) (seen : ℕ → Bool) (queue : List ℕ) where
  pub root_byte-Advanced :
      IsLinking tr word ns prog seen queue 0
      → prog 0 < 256
      → Advanced tr word prog 0 (root_byte (prog 0) ns queue)
  root_byte-Advanced inv room = elim (Option-cases (next ns 0 (prog 0))) [
    | inl e ↦ rw (root_byte_miss (prog 0) ns queue e) (record {
      prog' = bump prog 0;
      seen' = seen;
      inv =
          advance_missing tr word trie ns _ prog seen queue 0 inv room
            (length-set_next ns 0 (prog 0) (some 0)) e
            (λ r c.
              next-set_next ns 0 root_lt (prog 0) (some 0) r c
              ∙ ap (λ x. if (r == 0) && (c == prog 0) then some x else next ns r c)
                  (sym (goto_root_miss tr word trie (prog 0) (missing e))))
            (failure-set_next ns 0 root_lt (prog 0) (some 0))
            (output-set_next ns 0 root_lt (prog 0) (some 0));
      at_cur = refl;
      others = λ v ne. ground arith;
    })
    | inr (t, e) ↦
        let ch : next tr 0 (prog 0) ≡ some t = missing e in
        let t_lt : t < length ns = rw (inv.size) (trie.child 0 (prog 0) t ch).0 in
        let new = child-unseen tr word ns prog seen queue 0 inv t e in
        rw (root_byte_hit (prog 0) t ns queue e) (record {
          prog' = bump prog 0;
          seen' = mark seen t;
          inv =
              advance_child tr word trie ns _ prog seen queue 0 inv room (length-set_failure ns t 0)
                t e (next-set_failure ns t t_lt 0)
                (ground (
                  arith,
                  failure-set_failure ns t t_lt 0 t,
                  fail_root_child tr word trie (prog 0) t ch,
                ))
                (λ r ne. ground (arith, failure-set_failure ns t t_lt 0 r))
                (output-set_failure ns t t_lt 0 t ∙ inv.fresh t new ∙ own t ch)
                (λ r ne. output-set_failure ns t t_lt 0 r);
          at_cur = refl;
          others = λ v ne. ground arith;
        })
  ]
    where
      root_lt : 0 < length ns
      root_lt = rw (inv.size) trie.nonempty

      missing : {o : Option ℕ} → next ns 0 (prog 0) ≡ o → next tr 0 (prog 0) ≡ o
      missing e = sym (inv.raw 0 (prog 0) (omega arith)) ∙ e

      own : (t : ℕ) → next tr 0 (prog 0) ≡ some t → output tr t ≡ collected tr (word t)
      own t ch = sym (
          collected_state tr word trie t (trie.child 0 (prog 0) t ch).0
            (child-ne-zero tr word trie 0 (prog 0) t ch)
          ∙ ap (λ s. output tr t ++ collected tr (word s))
              (fail_root_child tr word trie (prog 0) t ch)
          ∙ ap (λ x. output tr t ++ collected tr x) trie.root
          ∙ unfold collected in append-nil (output tr t))

  -- While `cur` is at work, every state of its depth or less has been found.
  pub discovered :
      (cur v : ℕ)
      → IsLinking tr word ns prog seen queue cur
      → v < length tr
      → depth tr word v ≤ depth tr word cur
      → seen v ≡ true
  discovered cur v inv h k = elim (Bool-cases (v == 0)) [
    | inl z ↦ rw ((==_iff v 0).0 z) inv.root_seen
    | inr nz ↦
        let (s, c, e) = parent tr word trie v h (λ p. ground arith) in
        let done =
          inv.shallow s (Links.next-some-lt tr s c v e)
            (omega (arith, depth-child tr word trie s c v e)) in
        inv.frontier s c v (rw done (trie.child s c v e).2) e
  ]

  pub state_byte-Advanced :
      (cur : ℕ)
      → cur ≢ 0
      → IsLinking tr word ns prog seen queue cur
      → prog cur < 256
      → Advanced tr word prog cur (state_byte cur (fail tr word cur) (prog cur) ns queue)
  state_byte-Advanced cur nz inv room = elim (Option-cases (next ns cur b)) [
    | inl e ↦ rw (state_byte_miss cur f b ns queue e) (record {
      prog' = bump prog cur;
      seen' = seen;
      inv =
          advance_missing tr word trie ns _ prog seen queue cur inv room
            (length-set_next ns cur b (next ns f b)) e
            (λ r c.
              next-set_next ns cur cur_lt b (next ns f b) r c
              ∙ ap (λ x. if (r == cur) && (c == b) then x else next ns r c)
                  (through ∙ ap some (sym (goto_miss tr word trie cur b inv.cur_lt nz (raw e)))))
            (failure-set_next ns cur cur_lt b (next ns f b))
            (output-set_next ns cur cur_lt b (next ns f b));
      at_cur = ground arith;
      others = λ v ne. ground arith;
    })
    | inr (t, e) ↦
        let ch : next tr cur b ≡ some t = raw e in
        let t_lt : t < length ns = rw (inv.size) (trie.child cur b t ch).0 in
        let t_lt' : t < length (set_failure ns t g) = rw (length-set_failure ns t g) t_lt in
        let new = child-unseen tr word ns prog seen queue cur inv t e in
        let is = output (set_failure ns t g) g in
        rw (state_byte_hit cur f b t g ns queue e through) (record {
          prog' = bump prog cur;
          seen' = mark seen t;
          inv =
              advance_child tr word trie ns _ prog seen queue cur inv room
                (length-append_output (set_failure ns t g) t is ∙ length-set_failure ns t g) t e
                (λ r c.
                  next-append_output (set_failure ns t g) t t_lt' is r c
                  ∙ next-set_failure ns t t_lt g r c)
                (ground (
                  arith,
                  failure-append_output (set_failure ns t g) t t_lt' is t,
                  failure-set_failure ns t t_lt g t,
                  fail_child tr word trie cur b t inv.cur_lt nz ch,
                ))
                (λ r ne. ground (
                  arith,
                  failure-append_output (set_failure ns t g) t t_lt' is r,
                  failure-set_failure ns t t_lt g r,
                ))
                (ground (
                  arith,
                  output-append_output (set_failure ns t g) t t_lt' is t,
                  output-set_failure ns t t_lt g t,
                  inv.fresh t new,
                )
                  ∙ ap (◌++◌ (output tr t)) (output-set_failure ns t t_lt g g ∙ inherited)
                  ∙ own t ch)
                (λ r ne. ground (
                  arith,
                  output-append_output (set_failure ns t g) t t_lt' is r,
                  output-set_failure ns t t_lt g r,
                ));
          at_cur = ground arith;
          others = λ v ne. ground arith;
        })
  ]
    where
      b : ℕ
      b = prog cur

      f : ℕ
      f = fail tr word cur

      g : ℕ
      g = goto tr word f b

      cur_lt : cur < length ns
      cur_lt = rw (inv.size) inv.cur_lt

      raw : {o : Option ℕ} → next ns cur b ≡ o → next tr cur b ≡ o
      raw e = sym (inv.raw cur b (omega arith)) ∙ e

      -- The failure link is shallower, so all its transitions are there.
      through : next ns f b ≡ some g
      through = inv.filled f b (
          rw
            (inv.shallow f (fail_lt tr word trie cur)
              (depth-fail-lt tr word trie cur inv.cur_lt nz))
            room)

      inherited : output ns g ≡ collected tr (word g)
      inherited = inv.gathered g (
          discovered cur g inv (goto_lt tr word trie f b) (
            omega (
              arith,
              depth-goto-le tr word trie f b,
              depth-fail-lt tr word trie cur inv.cur_lt nz,
            )))

      own :
          (t : ℕ)
          → next tr cur b ≡ some t
          → output tr t ++ collected tr (word g) ≡ collected tr (word t)
      own t ch = sym (
          collected_state tr word trie t (trie.child cur b t ch).0
            (child-ne-zero tr word trie cur b t ch)
          ∙ ap (λ s. output tr t ++ collected tr (word s))
              (fail_child tr word trie cur b t inv.cur_lt nz ch))
