-- ===== src/Exclude/Ancestors.antt =====
-- Refused scan roots by the names of their directories.
use virus_detector.Base.{
  ◌≡◌, ◌≢◌, refl, sym, ap, ◌∙◌, ◌↔◌, inl, inr, true, List, [], ◌∷◌, ◌++◌, append-nil, append_assoc,
  Bytes, slash, join, absolute, IsName, pieces, pieces-append, pieces-join, path_parts,
  path_parts-absolute, map, In, All, All-In, subst,
}
use virus_detector.Exclude.{PathRules, normalize, is_root_inside_excluded_path}
use virus_detector.Exclude.Prefix.{IsBelow, is_root_inside_excluded_path_iff}

join-append :
    (t : Bytes) (ts : List Bytes) (m : Bytes) (ms : List Bytes)
    → join ((t ∷ ts) ++ m ∷ ms) ≡ join (t ∷ ts) ++ slash ∷ join (m ∷ ms)
unfolding join
join-append t [] m ms = refl
join-append t (u ∷ ts) m ms =
    ap (λ s. t ++ slash ∷ s) (join-append u ts m ms)
    ∙ sym (append_assoc t (slash ∷ join (u ∷ ts)) (slash ∷ join (m ∷ ms)))

pieces-append_join :
    (t : Bytes) (ts : List Bytes) (rest : Bytes)
    → All IsName (t ∷ ts)
    → pieces (join (t ∷ ts) ++ slash ∷ rest) ≡ (t ∷ ts) ++ pieces rest
unfolding join
pieces-append_join t [] rest h = pieces-append t rest h.0.1
pieces-append_join t (u ∷ ts) rest h =
    ap pieces (append_assoc t (slash ∷ join (u ∷ ts)) (slash ∷ rest))
    ∙ pieces-append t (join (u ∷ ts) ++ slash ∷ rest) h.0.1
    ∙ ap (◌∷◌ t) (pieces-append_join u ts rest h.1)

tails : (ms ns : List Bytes) → (slash ∷ []) ∷ ms ≡ (slash ∷ []) ∷ ns → ms ≡ ns
tails ms ns e = cc

after_slash : (s u : Bytes) → slash ∷ s ≡ slash ∷ u → s ≡ u
after_slash s u e = cc

not_empty : (s rest : Bytes) → [] ≢ s ++ slash ∷ rest
not_empty [] rest e = cc
not_empty (c ∷ s) rest e = cc

-- A path of names is another one, not the root directory, or below it, exactly when the names of the
-- other begin its own.
absolute_iff :
    (rs : List Bytes) (t : Bytes) (ts : List Bytes)
    → All IsName rs
    → All IsName (t ∷ ts)
    → IsBelow (absolute rs) (absolute (t ∷ ts)) ↔ ((more : List Bytes) × (rs ≡ (t ∷ ts) ++ more))
unfolding join
absolute_iff rs t ts names tops = (forth rs names, back)
  where
    forth :
        (rs : List Bytes)
        → All IsName rs
        → IsBelow (absolute rs) (absolute (t ∷ ts))
        → (more : List Bytes) × (rs ≡ (t ∷ ts) ++ more)
    forth rs names (inl e) = (
      [],
      tails rs (t ∷ ts) (
            sym (path_parts-absolute rs names)
            ∙ ap path_parts e
            ∙ path_parts-absolute (t ∷ ts) tops)
          ∙ sym (append-nil (t ∷ ts)),
    )
    forth [] names (inr (rest, e)) = absurd (not_empty (join (t ∷ ts)) rest (after_slash [] _ e))
    forth (n ∷ ns) names (inr (rest, e)) = (
      pieces rest,
      sym (pieces-join n ns names)
          ∙ ap pieces (after_slash (join (n ∷ ns)) _ e)
          ∙ pieces-append_join t ts rest tops,
    )

    back : (more : List Bytes) × (rs ≡ (t ∷ ts) ++ more) → IsBelow (absolute rs) (absolute (t ∷ ts))
    back ([], e) = inl (ap absolute (e ∙ append-nil (t ∷ ts)))
    back (m ∷ ms, e) = inr (join (m ∷ ms), ap absolute e ∙ ap (◌∷◌ slash) (join-append t ts m ms))

-- A scan root whose normal form is an absolute path of names is refused exactly when it is one of the
-- excluded paths or in a directory below one, however deep: the names of that path begin its own. The
-- excluded paths are absolute ones of names, and none is the root directory.
pub refused_iff :
    (rules : PathRules) (root : Bytes) (rs : List Bytes) (tops : List (Bytes × List Bytes))
    → normalize rules root ≡ absolute rs
    → All IsName rs
    → All (λ e. All IsName (e.0 ∷ e.1)) tops
    → (is_root_inside_excluded_path rules (map (λ e. absolute (e.0 ∷ e.1)) tops) root ≡ true) ↔ (
        (t : Bytes) × (ts : List Bytes) × (more : List Bytes) × In (t, ts) tops
        × (rs ≡ (t ∷ ts) ++ more))
refused_iff rules root rs tops at_root names all = (
  λ h.
      let (e, m, b) = refused.0 h in
      let (t, ts, n, same) = In-map tops e m in
      let below =
        subst (λ z. IsBelow z (absolute (t ∷ ts))) at_root
          (subst (IsBelow (normalize rules root)) same b) in
      let (more, split) =
        (absolute_iff rs t ts names (All-In (λ e. All IsName (e.0 ∷ e.1)) (t, ts) tops all n)).0
          below in
      (t, ts, more, n, split),
  λ (t, ts, more, n, split).
      let b =
        (absolute_iff rs t ts names (All-In (λ e. All IsName (e.0 ∷ e.1)) (t, ts) tops all n)).1
          (more, split) in
      refused.1 (
        absolute (t ∷ ts),
        map-In tops t ts n,
        subst (λ z. IsBelow z (absolute (t ∷ ts))) (sym at_root) b,
      ),
)
  where
    refused :
        let excluded = map (λ e. absolute (e.0 ∷ e.1)) tops in
        (is_root_inside_excluded_path rules excluded root ≡ true)
        ↔ ((e : Bytes) × In e excluded × IsBelow (normalize rules root) e)
    refused = is_root_inside_excluded_path_iff rules (map (λ e. absolute (e.0 ∷ e.1)) tops) root

    In-map :
        (tops : List (Bytes × List Bytes)) (e : Bytes)
        → In e (map (λ e. absolute (e.0 ∷ e.1)) tops)
        → (t : Bytes) × (ts : List Bytes) × In (t, ts) tops × (e ≡ absolute (t ∷ ts))
    In-map [] e m = absurd m
    In-map ((t, ts) ∷ tops) e (inl same) = (t, ts, inl refl, same)
    In-map ((t, ts) ∷ tops) e (inr m) =
        let (u, us, n, same) = In-map tops e m in (u, us, inr n, same)

    map-In :
        (tops : List (Bytes × List Bytes)) (t : Bytes) (ts : List Bytes)
        → In (t, ts) tops
        → In (absolute (t ∷ ts)) (map (λ e. absolute (e.0 ∷ e.1)) tops)
    map-In (x ∷ tops) t ts (inl e) = inl (ap (λ z. absolute (z.0 ∷ z.1)) e)
    map-In (x ∷ tops) t ts (inr m) = inr (map-In tops t ts m)
    map-In [] t ts m = absurd m
