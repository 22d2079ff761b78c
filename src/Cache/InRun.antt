-- ===== src/Cache/InRun.antt =====
-- What a run itself finds after its updates.
use virus_detector.Base.{
  ℕ, ◌≡◌, ◌≢◌, ◌↔◌, refl, ap, ◌∙◌, inl, inr, Bool, true, false, Option, none, some, arith,
  Bool-cases, int_eq_iff, List, [], ◌∷◌, Bytes, bytes_eq, if◌then◌else◌,
}
use virus_detector.Cache.{
  FileVerdict, FileMetadata, CacheEntry, CacheManager, put, update, verdict_for, cached_verdict,
  metadata_eq,
}
use virus_detector.Cache.Rows.{updates, latest, stamp, expected}

put-if :
    (b : Bool) (g : ℕ) (e : CacheEntry) (l : Option CacheEntry) (metadata : FileMetadata)
    (o : Option CacheEntry) (found : Option FileVerdict)
    → verdict_for metadata o ≡ expected false metadata l found
    → verdict_for metadata (if b then some (stamp g e) else o)
      ≡ expected false metadata (if b then some e else l) found
unfolding verdict_for
put-if true g e l metadata o found h = refl
put-if false g e l metadata o found h = h

-- A lookup after the updates, by the latest of its path.
pub updates-cached_verdict :
    {D : Type 0} (es : List CacheEntry) (m : CacheManager D) (p : Bytes) (metadata : FileMetadata)
    → cached_verdict p metadata (updates es m)
      ≡ expected false metadata (latest p es) (cached_verdict p metadata m)
unfolding cached_verdict updates latest update put
updates-cached_verdict [] m p metadata = refl
updates-cached_verdict (e ∷ es) m p metadata =
    put-if (bytes_eq e.path p) (updates es m).current_generation e (latest p es) metadata
      ((updates es m).cache_entries p) (cached_verdict p metadata m)
      (updates-cached_verdict es m p metadata)

pub metadata_eq_iff : (a b : FileMetadata) → (metadata_eq a b ≡ true) ↔ (a ≡ b)
unfolding metadata_eq
metadata_eq_iff a b = (forth, back)
  where
    forth : metadata_eq a b ≡ true → a ≡ b
    forth h =
        let time = (int_eq_iff a.last_modified b.last_modified).0 (ground arith) in
        let signatures =
          (int_eq_iff a.signatures_last_modified b.signatures_last_modified).0 (ground arith) in
        let size : a.size ≡ b.size = ground arith in
        λ i. record {
          last_modified = time i;
          size = size i;
          signatures_last_modified = signatures i;
        }

    back : a ≡ b → metadata_eq a b ≡ true
    back e = ground (
      arith,
      (int_eq_iff a.last_modified b.last_modified).1 (ap (λ d. d.last_modified) e),
      (int_eq_iff a.signatures_last_modified b.signatures_last_modified).1
          (ap (λ d. d.signatures_last_modified) e),
      ap (λ d. d.size) e,
    )

-- After any updates, a lookup of a path whose latest update recorded the same metadata finds that
-- update's verdict, and one whose latest update recorded other metadata finds nothing, whatever was
-- there before; one of a path that no update named finds what it found before them.
pub latest-cached_verdict :
    {D : Type 0} (es : List CacheEntry) (m : CacheManager D) (p : Bytes) (metadata : FileMetadata)
    → let found = cached_verdict p metadata (updates es m) in
      ((e : CacheEntry)
        → latest p es ≡ some e
        → (e.metadata ≡ metadata → found ≡ some e.verdict) × (e.metadata ≢ metadata → found ≡ none))
      × (latest p es ≡ none → found ≡ cached_verdict p metadata m)
unfolding verdict_for
latest-cached_verdict es m p metadata = (
  λ e l. (
    λ same. at_latest e l ∙ rw ((metadata_eq_iff e.metadata metadata).1 same) refl,
    λ other. elim (Bool-cases (metadata_eq e.metadata metadata)) [
      | inl h ↦ absurd (other ((metadata_eq_iff e.metadata metadata).0 h))
      | inr h ↦ at_latest e l ∙ rw h refl
    ],
  ),
  λ l.
      updates-cached_verdict es m p metadata
      ∙ ap (λ o. expected false metadata o (cached_verdict p metadata m)) l,
)
  where
    at_latest :
        (e : CacheEntry)
        → latest p es ≡ some e
        → cached_verdict p metadata (updates es m)
          ≡ (if metadata_eq e.metadata metadata then some e.verdict else none)
    at_latest e l =
        updates-cached_verdict es m p metadata
        ∙ ap (λ o. expected false metadata o (cached_verdict p metadata m)) l
