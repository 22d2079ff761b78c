-- ===== src/Automaton/Loop.antt =====
-- The loops of buildFailureLinks: they end within their fuel, and leave every transition and every
-- output list as the trie demands.
use virus_detector.Base.{
  ℕ, zero, suc, ◌+◌, ◌<◌, ◌≤◌, ◌≡◌, refl, sym, ap, ◌∙◌, subst, inl, inr, ◌≢◌, Bool, true, some,
  List, [], ◌∷◌, Bytes, length, arith, All-In, ◌==◌, if◌then◌else◌, Bool-cases, ==_iff,
}
use virus_detector.Automaton.{
  Nodes, next, failure, output, root_byte, state_byte, byte_loop, link_loop, build_failure_links,
}
use virus_detector.Automaton.Words.{IsTrie, collected}
use virus_detector.Automaton.Goto.{goto, fail, depth, depth-child, child-ne-zero, parent}
use virus_detector.Automaton.Links
use virus_detector.Automaton.Links.{IsLinking, bump, Levels-All}
use virus_detector.Automaton.Steps.{Advanced, root_byte-Advanced, state_byte-Advanced, discovered}

-- How many of the states below `n` have no byte done.
untouched : (ℕ → ℕ) → ℕ → ℕ
untouched prog zero = 0
untouched prog (suc n) = (if prog n == 0 then 1 else 0) + untouched prog n

untouched_same :
    (p q : ℕ → ℕ) (n : ℕ) → ((v : ℕ) → v < n → q v ≡ p v) → untouched q n ≡ untouched p n
unfolding untouched
untouched_same p q zero h = refl
untouched_same p q (suc n) h =
    let rest = untouched_same p q n (λ v k. h v (omega arith)) in rw (h n (omega arith), rest)

untouched-drop :
    (p q : ℕ → ℕ) (s n : ℕ)
    → s < n
    → p s ≡ 0
    → q s ≢ 0
    → ((v : ℕ) → v ≢ s → q v ≡ p v)
    → untouched p n ≡ suc (untouched q n)
unfolding untouched
untouched-drop p q s zero h a b others = elim h [ ]
untouched-drop p q s (suc n) h a b others = elim (Bool-cases (n == s)) [
  | inl same ↦
      let e = (==_iff n s).0 same in
      let rest = untouched_same p q n (λ v k. others v (λ z. omega arith)) in
      rw (rest) (ground (arith, ap p e, ap q e))
  | inr other ↦
      let ne : n ≢ s = λ e. ground arith in
      let rest = untouched-drop p q s n (omega (arith, ne)) a b others in
      rw (others n ne, rest) (omega arith)
]

-- Every byte of a state done, and no other state touched.
pub record Finished (tr : Nodes) (word : ℕ → Bytes) (prog : ℕ → ℕ) (cur : ℕ) (r : Nodes × List ℕ)
    : Type 0 where
  pub prog' : ℕ → ℕ
  pub seen' : ℕ → Bool
  pub inv : IsLinking tr word r.0 prog' seen' r.1 cur
  pub at_cur : prog' cur ≡ 256
  pub others : (v : ℕ) → v ≢ cur → prog' v ≡ prog v

-- What the search has to reach: transitions and outputs of every state, and failure links of all but
-- the root.
pub record IsLinked (tr : Nodes) (word : ℕ → Bytes) (ns : Nodes) : Type 0 where
  pub size : length ns ≡ length tr
  pub nexts : (v c : ℕ) → v < length tr → c < 256 → next ns v c ≡ some (goto tr word v c)
  pub failures : (v : ℕ) → v < length tr → v ≢ 0 → failure ns v ≡ fail tr word v
  pub outputs : (v : ℕ) → v < length tr → output ns v ≡ collected tr (word v)

module _ (tr : Nodes) (word : ℕ → Bytes) (trie : IsTrie tr word) (silent : output tr 0 ≡ []) where
  abbrev Keeps : ℕ → (ℕ → Nodes → List ℕ → Nodes × List ℕ) → Type 0
  Keeps cur body =
      (ns : Nodes) (prog : ℕ → ℕ) (seen : ℕ → Bool) (queue : List ℕ)
      → IsLinking tr word ns prog seen queue cur
      → prog cur < 256
      → Advanced tr word prog cur (body (prog cur) ns queue)

  byte_loop-Finished :
      (cur : ℕ) (body : ℕ → Nodes → List ℕ → Nodes × List ℕ)
      → Keeps cur body
      → (rounds b : ℕ) (ns : Nodes) (prog : ℕ → ℕ) (seen : ℕ → Bool) (queue : List ℕ) → b ≡ prog cur
      → rounds + b ≡ 256
      → IsLinking tr word ns prog seen queue cur
      → Finished tr word prog cur (byte_loop body rounds b ns queue)
  unfolding byte_loop
  byte_loop-Finished cur body keeps zero b ns prog seen queue e r inv = record {
    prog' = prog;
    seen' = seen;
    inv = inv;
    at_cur = omega arith;
    others = λ v ne. refl;
  }
  byte_loop-Finished cur body keeps (suc rounds) b ns prog seen queue e r inv =
      let one : Advanced tr word prog cur (body b ns queue) =
        rw e (keeps ns prog seen queue inv (omega arith)) in
      let rest =
        byte_loop-Finished cur body keeps rounds (suc b) (body b ns queue).0 one.prog' one.seen'
          (body b ns queue).1 (ap suc e ∙ sym one.at_cur) (omega arith) one.inv in
      record {
        prog' = rest.prog';
        seen' = rest.seen';
        inv = rest.inv;
        at_cur = rest.at_cur;
        others = λ v ne. rest.others v ne ∙ one.others v ne;
      }

  -- When a state is done, the next one in the queue takes its place.
  dequeue-IsLinking :
      (ns : Nodes) (prog : ℕ → ℕ) (seen : ℕ → Bool) (s : ℕ) (queue : List ℕ) (cur : ℕ)
      → IsLinking tr word ns prog seen (s ∷ queue) cur
      → prog cur ≡ 256
      → IsLinking tr word ns prog seen queue s
  dequeue-IsLinking ns prog seen s queue cur inv full = record {
    size = inv.size;
    filled = inv.filled;
    raw = inv.raw;
    linked = inv.linked;
    gathered = inv.gathered;
    fresh = inv.fresh;
    idle = inv.idle;
    frontier = inv.frontier;
    parents = inv.parents;
    root_seen = inv.root_seen;
    cur_seen = front.0;
    cur_lt = front.3;
    queued = λ q m.
        let (a, b, c, d, e) = inv.queued q (inr m) in (a, b, λ p. inv.distinct.0 (rw p at m), d, e);
    placed = λ v h. elim (inv.placed v h) [
      | inl (inl e) ↦ inr (inl e)
      | inl (inr m) ↦ inl m
      | inr (inl e) ↦ inr (inr (ap prog e ∙ full))
      | inr (inr e) ↦ inr (inr e)
    ];
    distinct = inv.distinct.1;
    levels = elim inv.levels [
      | inl (e, l) ↦ rw e l
      | inr deep ↦ Levels-All dep (dep s) queue (rw (deep.0) deep.1)
    ];
    shallow = λ v h k. elim inv.levels [
      | inl (e, l) ↦ inv.shallow v h (omega arith)
      | inr deep ↦
          elim (inv.placed v (
            discovered tr word trie silent ns prog seen (s ∷ queue) cur v inv h
              (omega (arith, deep.0)))) [
                | inl m ↦ absurd (
                    omega (arith, deep.0, All-In (λ r. dep r ≡ suc (dep cur)) v (s ∷ queue) deep m))
                | inr (inl e) ↦ ap prog e ∙ full
                | inr (inr e) ↦ e
              ]
    ];
  }
    where
      dep : ℕ → ℕ
      dep = depth tr word

      front : (seen s ≡ true) × (prog s ≡ 0) × (s ≢ cur) × (s < length tr) × (s ≢ 0)
      front = inv.queued s (inl refl)

  -- With the queue empty, every state is done.
  all_done :
      (ns : Nodes) (prog : ℕ → ℕ) (seen : ℕ → Bool) (cur : ℕ)
      → IsLinking tr word ns prog seen [] cur
      → prog cur ≡ 256
      → (k v : ℕ) → v < length tr
      → depth tr word v < k
      → prog v ≡ 256
  all_done ns prog seen cur inv full zero v h d = elim d [ ]
  all_done ns prog seen cur inv full (suc k) v h d = elim (Bool-cases (v == 0)) [
    | inl z ↦ from_seen (rw ((==_iff v 0).0 z) inv.root_seen)
    | inr nz ↦
        let (s, c, e) = parent tr word trie v h (λ p. ground arith) in
        let done =
          all_done ns prog seen cur inv full k s (Links.next-some-lt tr s c v e)
            (omega (arith, depth-child tr word trie s c v e)) in
        from_seen (inv.frontier s c v (rw done (trie.child s c v e).2) e)
  ]
    where
      from_seen : seen v ≡ true → prog v ≡ 256
      from_seen h = elim (inv.placed v h) [
        | inl nothing ↦ absurd nothing
        | inr (inl e) ↦ ap prog e ∙ full
        | inr (inr e) ↦ e
      ]

  link_loop-IsLinked :
      (fuel : ℕ) (ns : Nodes) (prog : ℕ → ℕ) (seen : ℕ → Bool) (queue : List ℕ) (cur : ℕ)
      → IsLinking tr word ns prog seen queue cur
      → prog cur ≡ 256
      → untouched prog (length tr) ≤ fuel
      → (ns' : Nodes) × (link_loop fuel ns queue ≡ some ns') × IsLinked tr word ns'
  unfolding link_loop
  link_loop-IsLinked fuel ns prog seen [] cur inv full room = (
    ns,
    unfold link_loop in empty_loop fuel ns,
    record {
      size = inv.size;
      nexts = λ v c h k.
          inv.filled v c
            (rw (all_done ns prog seen cur inv full (suc (depth tr word v)) v h (omega arith)) k);
      failures = λ v h nz.
          inv.linked v
            (seen_of_done v
              (all_done ns prog seen cur inv full (suc (depth tr word v)) v h (omega arith)))
            nz;
      outputs = λ v h. inv.gathered v (
          seen_of_done v
            (all_done ns prog seen cur inv full (suc (depth tr word v)) v h (omega arith)));
    },
  )
    where
      empty_loop : (k : ℕ) (m : Nodes) → link_loop k m [] ≡ some m
      empty_loop zero m = refl
      empty_loop (suc k) m = refl

      seen_of_done : (v : ℕ) → prog v ≡ 256 → seen v ≡ true
      seen_of_done v e = elim (Bool-cases (seen v)) [
        | inl s ↦ s
        | inr u ↦ absurd (omega (arith, inv.idle v u))
      ]
  link_loop-IsLinked zero ns prog seen (s ∷ queue) cur inv full room =
      let (_, idle, _, lt, _) = inv.queued s (inl refl) in
      absurd (
        omega (
          arith,
          untouched-drop prog (bump prog s) s (length tr) lt idle (λ e. ground arith)
              (λ v ne. ground arith),
        ))
  link_loop-IsLinked (suc fuel) ns prog seen (s ∷ queue) cur inv full room =
      let (found, idle, _, lt, nz) = inv.queued s (inl refl) in
      let inv' = dequeue-IsLinking ns prog seen s queue cur inv full in
      let link : failure ns s ≡ fail tr word s = inv.linked s found nz in
      let done =
        byte_loop-Finished s (state_byte s (fail tr word s))
          (λ m p z q. state_byte-Advanced tr word trie silent m p z q s nz) 256 0 ns prog seen queue
          (sym idle) refl inv' in
      subst
        (λ f.
          let r = byte_loop (state_byte s f) 256 0 ns queue in
          (ns' : Nodes) × (link_loop fuel r.0 r.1 ≡ some ns') × IsLinked tr word ns')
        (sym link)
        (link_loop-IsLinked fuel _ done.prog' done.seen' _ s done.inv done.at_cur (
          omega (
            arith,
            untouched-drop prog done.prog' s (length tr) lt idle (λ e. omega (arith, done.at_cur))
                done.others,
          )))

  untouched-le : (prog : ℕ → ℕ) (n : ℕ) → untouched prog n ≤ n
  unfolding untouched
  untouched-le prog zero = omega arith
  untouched-le prog (suc n) = ground (arith, untouched-le prog n)

  start-IsLinking : IsLinking tr word tr (λ v. 0) (λ v. v == 0) [] 0
  start-IsLinking = record {
    size = refl;
    filled = λ v c h. absurd (omega arith);
    raw = λ v c h. refl;
    linked = λ v s ne. absurd (ne ((==_iff v 0).0 s));
    gathered = λ v s.
        ap (output tr) ((==_iff v 0).0 s)
        ∙ silent
        ∙ sym (
            ap (λ x. collected tr (word x)) ((==_iff v 0).0 s)
            ∙ ap (collected tr) trie.root
            ∙ unfold collected in refl);
    fresh = λ v s. refl;
    idle = λ v s. refl;
    frontier = λ v c t h e. absurd (omega arith);
    parents = λ v c t e s. absurd (child-ne-zero tr word trie v c t e ((==_iff t 0).0 s));
    root_seen = refl;
    cur_seen = refl;
    cur_lt = trie.nonempty;
    queued = λ q m. absurd m;
    placed = λ v s. inr (inl ((==_iff v 0).0 s));
    distinct = tt;
    levels = tt;
    shallow = λ v h k. unfold depth in absurd (omega (arith, ap length trie.root));
  }

  -- The failure links can always be built, and the result is what the trie demands.
  pub build_failure_links-IsLinked :
      (ns' : Nodes) × (build_failure_links tr ≡ some ns') × IsLinked tr word ns'
  unfolding build_failure_links
  build_failure_links-IsLinked =
      let root =
        byte_loop-Finished 0 root_byte (root_byte-Advanced tr word trie silent) 256 0 tr (λ v. 0)
          (λ v. v == 0) [] refl refl start-IsLinking in
      link_loop-IsLinked (length tr) _ root.prog' root.seen' _ 0 root.inv root.at_cur
        (untouched-le root.prog' (length tr))
