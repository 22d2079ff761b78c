-- ===== src/Cli/Tests.antt =====
-- Command lines.
use virus_detector.Base.{◌≡◌, ◌⊎◌, List, [], ◌∷◌, Bytes, codes}
use virus_detector.Cli.{
  scan_path, unknown, help, parse, parse-usage, parse-cases, usage, bare, IsUsage,
}

parse-usage_example :
    parse (codes "vd" ∷ codes "scan" ∷ codes "/home" ∷ [])
    ≡ record { type = scan_path; argument = codes "/home" }
unfolding usage
parse-usage_example = parse-usage scan_path (codes "vd") (codes "/home") [] (λ e. cc)

parse-cases_example :
    (parse (codes "vd" ∷ codes "scan" ∷ []) ≡ bare unknown)
    ⊎ ((parse (codes "vd" ∷ codes "scan" ∷ []) ≡ bare help)
        ⊎ ((program : Bytes) × (args : List Bytes) × (codes "vd" ∷ codes "scan" ∷ []
              ≡ program ∷ args)
            × IsUsage args))
parse-cases_example = parse-cases (codes "vd" ∷ codes "scan" ∷ [])
