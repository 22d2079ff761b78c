-- ===== src/Output/Decimal.antt =====
-- Numbers in decimal, as streams and std::format print them, and the numbers that a text shows.
use virus_detector.Base.{
  ℕ, zero, suc, ◌+◌, ◌-◌, ◌*◌, ◌/◌, ◌%◌, ◌≤◌, ◌≡◌, refl, ap, ◌∙◌, Bool-cases, inl, inr, Bool, true,
  false, ◌&&◌, Option, none, some, List, [], ◌∷◌, ◌++◌, Bytes, leb, ltb, if◌then◌else◌, arith,
}
use virus_detector.Resume.Checkpoint.{IsLine}

-- Digits before `out`, by fuel: as much as the number is enough.
unfoldable pub decimal_before : ℕ → ℕ → Bytes → Bytes
decimal_before zero n out = (48 + n % 10) ∷ out
decimal_before (suc fuel) n out =
    let more = decimal_before fuel (n / 10) ((48 + n % 10) ∷ out) in
    if ltb n 10 then (48 + n) ∷ out else more

unfoldable pub decimal : ℕ → Bytes
unfolding decimal_before
decimal n = decimal_before n n []

abbrev pub is_digit : ℕ → Bool
is_digit c = leb 48 c && leb c 57

abbrev pub shown : Option ℕ → List ℕ → List ℕ
shown none ns = ns
shown (some n) ns = n ∷ ns

-- The numbers of a text, each a longest run of digits, after one that is being read.
unfoldable pub numbers_after : Option ℕ → Bytes → List ℕ
numbers_after o [] = shown o []
numbers_after none (c ∷ s) = elim (is_digit c) [
  | true ↦ numbers_after (some (c - 48)) s
  | false ↦ numbers_after none s
]
numbers_after (some n) (c ∷ s) = elim (is_digit c) [
  | true ↦ numbers_after (some (n * 10 + (c - 48))) s
  | false ↦ n ∷ numbers_after none s
]

abbrev pub numbers : Bytes → List ℕ
numbers = numbers_after none

digit_shown : (d : ℕ) → d ≤ 9 → (is_digit (48 + d) ≡ true) × (48 + d - 48 ≡ d)
digit_shown d h = (ground arith, omega arith)

next_digit :
    (m d : ℕ) (out : Bytes)
    → d ≤ 9
    → numbers_after (some m) ((48 + d) ∷ out) ≡ numbers_after (some (m * 10 + d)) out
unfolding numbers_after
next_digit m d out h =
    let (digit, back) = digit_shown d h in
    rw (digit, numbers_after) (ap (λ k. numbers_after (some (m * 10 + k)) out) back)

first_digit : (d : ℕ) (out : Bytes) → d ≤ 9 → numbers ((48 + d) ∷ out) ≡ numbers_after (some d) out
unfolding numbers_after
first_digit d out h =
    let (digit, back) = digit_shown d h in
    rw (digit, numbers_after) (ap (λ k. numbers_after (some k) out) back)

numbers-decimal_before :
    (fuel n : ℕ) (out : Bytes)
    → n ≤ fuel
    → numbers (decimal_before fuel n out) ≡ numbers_after (some n) out
unfolding decimal_before
numbers-decimal_before zero n out h =
    first_digit (n % 10) out (omega arith)
    ∙ ap (λ k. numbers_after (some k) out) {y = n} (omega arith)
numbers-decimal_before (suc fuel) n out h = elim (Bool-cases (ltb n 10)) [
  | inl lt ↦ rw lt (first_digit n out (ltb→le n lt))
  | inr ge ↦ rw ge (
      numbers-decimal_before fuel (n / 10) ((48 + n % 10) ∷ out) (small n fuel ge h)
      ∙ next_digit (n / 10) (n % 10) out (omega arith)
      ∙ ap (λ k. numbers_after (some k) out) {y = n} (omega arith))
]
  where
    ltb→le : (n : ℕ) → ltb n 10 ≡ true → n ≤ 9
    ltb→le n e = ground arith

    small : (n fuel : ℕ) → ltb n 10 ≡ false → n ≤ suc fuel → n / 10 ≤ fuel
    small n fuel e h = ground arith

before_append :
    (fuel n : ℕ) (out rest : Bytes)
    → decimal_before fuel n out ++ rest ≡ decimal_before fuel n (out ++ rest)
unfolding decimal_before
before_append zero n out rest = refl
before_append (suc fuel) n out rest =
    ground (arith, before_append fuel (n / 10) ((48 + n % 10) ∷ out) rest)

-- A number in decimal is read as itself, up to the byte after it.
pub numbers-decimal :
    (n : ℕ) (c : ℕ) (rest : Bytes)
    → is_digit c ≡ false
    → numbers (decimal n ++ c ∷ rest) ≡ n ∷ numbers rest
unfolding decimal numbers_after
numbers-decimal n c rest h =
    ap numbers (before_append n n [] (c ∷ rest))
    ∙ numbers-decimal_before n n (c ∷ rest) (omega arith)
    ∙ rw (h, numbers_after) refl

pub numbers-decimal_end : (n : ℕ) → numbers (decimal n ++ []) ≡ n ∷ []
unfolding decimal numbers_after
numbers-decimal_end n =
    ap numbers (before_append n n [] []) ∙ numbers-decimal_before n n [] (omega arith)

before-IsLine : (fuel n : ℕ) (out : Bytes) → IsLine out → IsLine (decimal_before fuel n out)
unfolding decimal_before
before-IsLine zero n out h = (omega arith, h)
before-IsLine (suc fuel) n out h = elim (Bool-cases (ltb n 10)) [
  | inl lt ↦ rw lt (omega arith, h)
  | inr ge ↦ rw ge (before-IsLine fuel (n / 10) ((48 + n % 10) ∷ out) (omega arith, h))
]

pub decimal-IsLine : (n : ℕ) → IsLine (decimal n)
unfolding decimal
decimal-IsLine n = before-IsLine n n [] tt
