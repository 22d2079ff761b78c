-- ===== src/Cli.antt =====
-- CLI/CommandParser.{h,cpp}: argv to a command. The list holds argv[0], argv[1], …; argc is its
-- length.
pub mod Tests
use virus_detector.Base.{
  ℕ, ◌≡◌, refl, sym, ap, ◌∙◌, ◌⊎◌, inl, inr, ◌≢◌, Bool, true, false, List, [], ◌∷◌, ◌++◌, Bytes,
  codes, bytes_eq, bytes_eq→eq, arith, if◌then◌else◌, Bool-cases,
}

pub data CommandType : Type 0 where
  scan_all scan_path restore restore_all delete list_quarantine help unknown : CommandType

pub record Command : Type 0 where
  pub type : CommandType
  pub argument : Bytes

abbrev pub bare : CommandType → Command
bare t = record { type = t; argument = [] }

-- `argc < 3` and argv[2].
abbrev with_argument : CommandType → List Bytes → Command
with_argument t [] = bare unknown
with_argument t (a ∷ rest) = record { type = t; argument = a }

unfoldable pub parse_action : Bytes → List Bytes → Command
parse_action action rest =
    if bytes_eq action (codes "scan-all")
    then bare scan_all
    else if bytes_eq action (codes "scan")
    then with_argument scan_path rest
    else if bytes_eq action (codes "restore-all")
    then bare restore_all
    else if bytes_eq action (codes "restore")
    then with_argument restore rest
    else if bytes_eq action (codes "delete")
    then with_argument delete rest
    else if bytes_eq action (codes "q-list")
    then bare list_quarantine
    else if bytes_eq action (codes "help")
    then bare help
    else bare unknown

unfoldable pub parse : List Bytes → Command
unfolding parse_action
parse [] = bare help
parse (program ∷ []) = bare help
parse (program ∷ action ∷ rest) = parse_action action rest

-- The usage text, as the arguments that stand for each command.
pub usage : CommandType → Bytes → List Bytes
usage scan_all a = codes "scan-all" ∷ []
usage scan_path a = codes "scan" ∷ a ∷ []
usage restore a = codes "restore" ∷ a ∷ []
usage restore_all a = codes "restore-all" ∷ []
usage delete a = codes "delete" ∷ a ∷ []
usage list_quarantine a = codes "q-list" ∷ []
usage help a = codes "help" ∷ []
usage unknown a = []

abbrev pub takes_argument : CommandType → Bool
takes_argument scan_path = true
takes_argument restore = true
takes_argument delete = true
takes_argument _ = false

abbrev kept_argument : CommandType → Bytes → Bytes
kept_argument t a = if takes_argument t then a else []

-- Each usage of a known command, with anything after it, is parsed to the command and its
-- argument.
pub parse-usage :
    (t : CommandType) (program a : Bytes) (rest : List Bytes)
    → t ≢ unknown
    → parse (program ∷ (usage t a ++ rest)) ≡ record { type = t; argument = kept_argument t a }
unfolding parse usage bytes_eq
parse-usage scan_all program a rest h = refl
parse-usage scan_path program a rest h = refl
parse-usage restore program a rest h = refl
parse-usage restore_all program a rest h = refl
parse-usage delete program a rest h = refl
parse-usage list_quarantine program a rest h = refl
parse-usage help program a rest h = refl
parse-usage unknown program a rest h = absurd (h refl)

-- A command line past argv[0] that is the usage of a command, with something after it.
abbrev pub IsUsage : List Bytes → Type 0
IsUsage args =
    (t : CommandType) × (a : Bytes) × (rest : List Bytes) × (t ≢ unknown)
    × (args ≡ usage t a ++ rest)

argument_cases :
    (t : CommandType) (action : Bytes) (rest : List Bytes)
    → t ≢ unknown
    → ((a : Bytes) → usage t a ≡ action ∷ a ∷ [])
    → (with_argument t rest ≡ bare unknown) ⊎ IsUsage (action ∷ rest)
argument_cases t action [] h u = inl refl
argument_cases t action (a ∷ rest) h u = inr (t, a, rest, h, ap (λ x. x ++ rest) (sym (u a)))

bare_usage :
    (t : CommandType) (action : Bytes) (rest : List Bytes)
    → t ≢ unknown
    → usage t [] ≡ action ∷ []
    → IsUsage (action ∷ rest)
bare_usage t action rest h u = (t, [], rest, h, ap (λ x. x ++ rest) (sym u))

action_cases :
    (action : Bytes) (rest : List Bytes)
    → (parse_action action rest ≡ bare unknown) ⊎ IsUsage (action ∷ rest)
unfolding parse_action usage
action_cases action rest = elim (Bool-cases (bytes_eq action (codes "scan-all"))) [
  | inl e ↦ inr (bare_usage scan_all action rest (λ q. cc) (named e))
  | inr n1 ↦ elim (Bool-cases (bytes_eq action (codes "scan"))) [
    | inl e ↦ rw (n1, e) (argument_cases scan_path action rest (λ q. cc) (λ a. named_one a e))
    | inr n2 ↦ elim (Bool-cases (bytes_eq action (codes "restore-all"))) [
      | inl e ↦ inr (bare_usage restore_all action rest (λ q. cc) (named e))
      | inr n3 ↦ elim (Bool-cases (bytes_eq action (codes "restore"))) [
        | inl e ↦
            rw (n1, n2, n3, e) (argument_cases restore action rest (λ q. cc) (λ a. named_one a e))
        | inr n4 ↦ elim (Bool-cases (bytes_eq action (codes "delete"))) [
          | inl e ↦
              rw (n1, n2, n3, n4, e)
                (argument_cases delete action rest (λ q. cc) (λ a. named_one a e))
          | inr n5 ↦ elim (Bool-cases (bytes_eq action (codes "q-list"))) [
            | inl e ↦ inr (bare_usage list_quarantine action rest (λ q. cc) (named e))
            | inr n6 ↦ elim (Bool-cases (bytes_eq action (codes "help"))) [
              | inl e ↦ inr (bare_usage help action rest (λ q. cc) (named e))
              | inr n7 ↦ inl (rw (n1, n2, n3, n4, n5, n6, n7))
            ]
          ]
        ]
      ]
    ]
  ]
]
  where
    named : {x y : Bytes} → bytes_eq y x ≡ true → x ∷ [] ≡ y ∷ []
    named {x} {y} e = ap (λ z. z ∷ []) (sym (bytes_eq→eq y x e))

    named_one : (a : Bytes) {x y : Bytes} → bytes_eq y x ≡ true → x ∷ a ∷ [] ≡ y ∷ a ∷ []
    named_one a {x} {y} e = ap (λ z. z ∷ a ∷ []) (sym (bytes_eq→eq y x e))

-- Every command line is parsed to the unknown command, is parsed to help, or is the program's
-- name followed by a usage, and perhaps more.
pub parse-cases :
    (argv : List Bytes)
    → (parse argv ≡ bare unknown)
      ⊎ ((parse argv ≡ bare help)
          ⊎ ((program : Bytes) × (args : List Bytes) × (argv ≡ program ∷ args) × IsUsage args))
unfolding parse
parse-cases [] = inr (inl refl)
parse-cases (program ∷ []) = inr (inl refl)
parse-cases (program ∷ action ∷ rest) = elim (action_cases action rest) [
  | inl u ↦ inl u
  | inr u ↦ inr (inr (program, action ∷ rest, refl, u))
]
