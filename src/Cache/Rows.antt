-- ===== src/Cache/Rows.antt =====
-- Entries as rows, the updates of one run, and what a run leaves of each row.
use virus_detector.Base.{
  ℕ, suc, ◌^◌, ◌<◌, ◌≤◌, ◌≡◌, refl, sym, ap, ◌∙◌, subst, inl, inr, Bool, true, false, Option, none,
  some, List, [], ◌∷◌, ◌++◌, Bytes, bytes_eq, All, arith, if◌then◌else◌, pos, Bool-cases,
}
use virus_detector.Cache.{
  FileVerdict, clean, malicious, error, FileMetadata, CacheEntry, Row, to_signed, to_unsigned,
  verdict_code, code_verdict, bind_row, read_row, int_lt, when_not, is_older, Entries, submit,
  CacheManager, new_manager, map_row, verdict_for, update,
}
use mathlib.Core.Option.{some-injective}

-- A value of 64 bits.
abbrev pub IsWord : ℕ → Type 0
IsWord n = n < 2 ^ 64

to_unsigned-to_signed : (n : ℕ) → IsWord n → to_unsigned (to_signed n) ≡ n
unfolding to_unsigned to_signed
to_unsigned-to_signed n h = ground arith

code_verdict-verdict_code : (v : FileVerdict) → code_verdict (verdict_code v) ≡ v
unfolding code_verdict verdict_code
code_verdict-verdict_code clean = refl
code_verdict-verdict_code malicious = refl
code_verdict-verdict_code error = refl

-- An entry whose size and generation are 64-bit values is read back from its row as it was, sizes of
-- 2^63 and more included.
pub read_row-bind_row :
    (e : CacheEntry) → IsWord e.metadata.size → IsWord e.generation → read_row (bind_row e) ≡ e
unfolding read_row bind_row
read_row-bind_row e size generation =
    rw
      (
        to_unsigned-to_signed e.metadata.size size,
        to_unsigned-to_signed e.generation generation,
        code_verdict-verdict_code e.verdict,
      )
      refl

-- The calls of update in a run, the latest first.
unfoldable pub updates : {D : Type 0} → List CacheEntry → CacheManager D → CacheManager D
updates [] m = m
updates (e ∷ es) m = update e (updates es m)

-- The latest call for a path.
unfoldable pub latest : Bytes → List CacheEntry → Option CacheEntry
latest p [] = none
latest p (e ∷ es) = if bytes_eq e.path p then some e else latest p es

abbrev pub stamp : ℕ → CacheEntry → CacheEntry
stamp g e = record e { generation = g }

unfoldable pub stamps : ℕ → List CacheEntry → List CacheEntry
stamps g [] = []
stamps g (e ∷ es) = stamps g es ++ stamp g e ∷ []

pub updates-state :
    {D : Type 0} (d : D) (file : Option ℕ) (entries : Entries) (g : ℕ) (es : List CacheEntry)
    → let m : CacheManager D = record (new_manager d file) {
      cache_entries = entries;
      current_generation = g;
    } in
      ((updates es m).writer ≡ record { upsert_queue = stamps g es; stop = false })
      × ((updates es m).storage ≡ d)
      × ((updates es m).current_generation ≡ g)
unfolding updates stamps update submit
updates-state d file entries g [] = (refl, refl, refl)
updates-state d file entries g (e ∷ es) =
    let (w, s, c) = updates-state d file entries g es in (rw (c, w) refl, s, c)

-- What the run leaves for a path of which the database had a row, or none.
unfoldable pub newest : ℕ → Option CacheEntry → Option Row → Option Row
newest g none o = o
newest g (some e) o = some (bind_row (stamp g e))

pub newest-if :
    (b : Bool) (g : ℕ) (e : CacheEntry) (l : Option CacheEntry) (o x : Option Row)
    → x ≡ newest g l o
    → (if b then some (bind_row (stamp g e)) else x) ≡ newest g (if b then some e else l) o
unfolding newest
newest-if true g e l o x h = refl
newest-if false g e l o x h = h

pub latest-IsWord :
    (p : Bytes) (es : List CacheEntry) (e : CacheEntry)
    → All (λ c. IsWord c.metadata.size) es
    → latest p es ≡ some e
    → IsWord e.metadata.size
unfolding latest
latest-IsWord p [] e h at_p = cc
latest-IsWord p (c ∷ es) e h at_p = elim (Bool-cases (bytes_eq c.path p)) [
  | inl same ↦
      subst (λ z. IsWord z.metadata.size)
        (some-injective c e (sym (ap (λ b. if b then some c else latest p es) same) ∙ at_p)) h.0
  | inr other ↦
      latest-IsWord p es e h.1 (sym (ap (λ b. if b then some c else latest p es) other) ∙ at_p)
]

-- What the database keeps of a row: its generation was completed.
abbrev pub IsPast : ℕ → Option Row → Type 0
IsPast last none = Unit
IsPast last (some r) = (k : ℕ) × (r.generation ≡ pos k) × (k ≤ last)

-- What the next run finds for a path, from the latest update and from what this run found.
abbrev pub expected :
    Bool → FileMetadata → Option CacheEntry → Option FileVerdict → Option FileVerdict
expected full metadata (some e) found = verdict_for metadata (some e)
expected full metadata none found = if full then none else found

unfoldable pub after_delete : Bool → ℕ → Option Row → Option Row
after_delete full g o = if full then when_not (is_older (to_signed g) o) o else o

to_signed_small : (n : ℕ) → n < 2 ^ 63 → to_signed n ≡ pos n
unfolding to_signed
to_signed_small n h = ground arith

older_row :
    (g k : ℕ) (r : Row)
    → suc g < 2 ^ 63
    → r.generation ≡ pos k
    → k ≤ g
    → int_lt r.generation (to_signed (suc g)) ≡ true
unfolding int_lt
older_row g k r h at_k le = rw (at_k, to_signed_small (suc g) h) (ground arith)

not_older : (g : ℕ) → g < 2 ^ 63 → int_lt (to_signed g) (to_signed g) ≡ false
unfolding int_lt
not_older g h = rw (to_signed_small g h) (ground arith)

after_delete_stamped :
    (b : Bool) (g : ℕ) (e : CacheEntry)
    → g < 2 ^ 63
    → after_delete b g (some (bind_row (stamp g e))) ≡ some (bind_row (stamp g e))
unfolding bind_row is_older after_delete
after_delete_stamped true g e h = ap (λ b. when_not b (some (bind_row (stamp g e)))) (not_older g h)
after_delete_stamped false g e h = refl

pub verdict-newest :
    (full : Bool) (metadata : FileMetadata) (g : ℕ) (l : Option CacheEntry) (o : Option Row)
    → suc g < 2 ^ 63
    → ((e : CacheEntry) → l ≡ some e → IsWord e.metadata.size)
    → IsPast g o
    → verdict_for metadata (map_row (after_delete full (suc g) (newest (suc g) l o)))
      ≡ expected full metadata l (verdict_for metadata (map_row o))
unfolding newest after_delete is_older verdict_for map_row
verdict-newest true metadata g none none h w past = refl
verdict-newest true metadata g none (some r) h w (k, at_k, le) =
    ap (λ b. verdict_for metadata (map_row (when_not b (some r)))) (older_row g k r h at_k le)
verdict-newest false metadata g none o h w past = refl
verdict-newest full metadata g (some e) o h w past =
    ap (λ z. verdict_for metadata (map_row z)) (after_delete_stamped full (suc g) e h)
    ∙ ap (λ z. verdict_for metadata (some z))
        (read_row-bind_row (stamp (suc g) e) (w e refl) (omega arith))
