-- ===== src/Exclude/Tests.antt =====
-- Exclusions under a file system in which every path is canonical.
use virus_detector.Base.{
  ◌≡◌, ◌↔◌, true, false, some, All, IsName, refl, List, join, ◌++◌, [], ◌∷◌, Bytes, codes, In,
  slash, arith,
}
use virus_detector.Exclude.{
  PathRules, normalize, is_same_or_descendant, is_root_inside_excluded_path,
}
use virus_detector.Exclude.Ancestors.{refused_iff}
use virus_detector.Exclude.Prefix.{root_excludes_nothing_below}

abbrev plain : PathRules
plain = record { weakly_canonical = λ p. some p; lexically_normal = λ p. p }

abbrev config : Bytes
config = codes "# more\n/srv/x \nrelative\n"

abbrev one_top : List (Bytes × List Bytes)
one_top = (codes "tmp", []) ∷ []

tmp_proper : All IsName (codes "tmp" ∷ [])
tmp_proper = ((λ e. cc, (omega arith, (omega arith, (omega arith, tt)))), tt)

tmp_a_proper : All IsName (codes "tmp" ∷ codes "a" ∷ [])
tmp_a_proper = (tmp_proper.0, ((λ e. cc, (omega arith, tt)), tt))

refused_iff_example :
    (is_root_inside_excluded_path plain (codes "/tmp" ∷ []) (codes "/tmp/a") ≡ true) ↔ (
      (t : Bytes) × (ts : List Bytes) × (more : List Bytes) × In (t, ts) one_top
      × (codes "tmp" ∷ codes "a" ∷ [] ≡ (t ∷ ts) ++ more))
unfolding normalize join
refused_iff_example =
    refused_iff plain (codes "/tmp/a") (codes "tmp" ∷ codes "a" ∷ []) one_top refl tmp_a_proper
      (tmp_proper, tt)

root_excludes_nothing_below_example :
    is_same_or_descendant (slash ∷ 104 ∷ codes "ome") (slash ∷ []) ≡ false
root_excludes_nothing_below_example =
    root_excludes_nothing_below 104 (codes "ome") (λ e. omega (arith, e))
