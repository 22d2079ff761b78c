-- ===== src/Cache/Tests.antt =====
-- A database as a function of the path, and an entry in it.
use virus_detector.Base.{
  ◌⊎◌, ◌^◌, In, ◌≡◌, ◌≢◌, refl, true, false, Option, none, some, [], ◌∷◌, Bytes, codes, bytes_eq,
  arith, if◌then◌else◌, pos,
}
use virus_detector.Cache.{
  Committing, verdict_for, malicious, FileMetadata, CacheEntry, Row, Database, CacheWriter,
  CacheManager, new_manager, committing, commit_generation, when_not, is_older, bind_row, read_row,
  to_signed, take_upserts, submit, upserts, cached_verdict,
}
use virus_detector.Cache.Writer.{
  Writing, Reach, here, next, submits, finishes, writes, returned-commit_generation,
}
use virus_detector.Cache.Rows.{expected, latest, updates}
use virus_detector.Cache.Failing.{ran_with, failing-cached_verdict}
use virus_detector.Cache.InRun.{latest-cached_verdict}
use virus_detector.Cache.NextRun.{ran-cached_verdict, ran, loaded}

abbrev pub Table : Type 0
Table = Bytes → Option Row

abbrev pub table : Database Table
table = record {
  row = λ p d. d p;
  upsert = λ r d p. if bytes_eq r.path p then some r else d p;
  delete_older = λ g d p. when_not (is_older g (d p)) (d p);
  delete_all = λ d p. none;
  row-upsert = λ p r d. refl;
  row-delete_older = λ p g d. refl;
  row-delete_all = λ p d. refl;
}

abbrev seen : CacheEntry
seen = record {
  path = codes "/a";
  metadata = record { last_modified = pos 5; size = 2 ^ 63; signatures_last_modified = pos 7 };
  verdict = malicious;
  generation = 3;
}

abbrev pub no_rows : Table
no_rows p = none

abbrev wrote : Writing Table
wrote = record {
  writer = record { upsert_queue = []; stop = true };
  database = upserts table (seen ∷ []) no_rows;
  submitted = seen ∷ [];
  returned = true;
  intact = true;
}

wrote-Reach : Reach table no_rows wrote
unfolding submit take_upserts virus_detector.Cache.upsert_batch
wrote-Reach =
    next (next (next here (submits seen)) finishes)
      (writes true (seen ∷ []) true (record { upsert_queue = []; stop = true }) refl refl)

-- The manager of that run, before its commit.
abbrev filled : CacheManager Table
filled = record (new_manager no_rows none) {
  current_generation = 3;
  writer = record { upsert_queue = seen ∷ []; stop = false };
}

returned-commit_generation_example :
    (commit_generation table committing true filled).storage
    ≡ table.delete_older (to_signed 3) wrote.database
returned-commit_generation_example =
    returned-commit_generation table no_rows filled true wrote refl wrote-Reach refl refl refl

-- A database with a row of the last completed run, number 3.
abbrev one_row : Table
one_row = table.upsert (bind_row seen) no_rows

ran-cached_verdict_example :
    let after = ran table false (seen ∷ []) one_row (some 3) in
    (cached_verdict (codes "/a") seen.metadata (loaded table after.storage after.generation_file)
      ≡ expected false seen.metadata
          (latest (codes "/a") (seen ∷ []))
          (cached_verdict (codes "/a") seen.metadata (loaded table one_row (some 3))))
    × (after.generation_file ≡ some 4)
unfolding virus_detector.Cache.last_completed bind_row virus_detector.Cache.to_signed bytes_eq
ran-cached_verdict_example =
    ran-cached_verdict table false (seen ∷ []) one_row (some 3) (codes "/a") seen.metadata
      (omega arith) (omega arith, tt) (3, refl, omega arith)

latest-cached_verdict_example :
    let found =
      cached_verdict (codes "/a") seen.metadata (updates (seen ∷ []) (loaded table no_rows none)) in
    ((e : CacheEntry)
      → latest (codes "/a") (seen ∷ []) ≡ some e
      → (e.metadata ≡ seen.metadata → found ≡ some e.verdict)
        × (e.metadata ≢ seen.metadata → found ≡ none))
    × (latest (codes "/a") (seen ∷ []) ≡ none
        → found ≡ cached_verdict (codes "/a") seen.metadata (loaded table no_rows none))
latest-cached_verdict_example =
    latest-cached_verdict (seen ∷ []) (loaded table no_rows none) (codes "/a") seen.metadata

-- The transaction fails, and the old rows are deleted.
abbrev half : Committing
half = record { batches = (1, true) ∷ []; commits = false; deletes = true; writes = true }

failing-cached_verdict_example :
    let after = ran_with table half true (seen ∷ []) one_row (some 3) in
    let found =
      cached_verdict
        (codes "/a")
        seen.metadata
        (loaded table after.storage after.generation_file) in
    ((e : CacheEntry) × In e (seen ∷ [])
      × (e.path ≡ codes "/a")
      × (e.metadata ≡ seen.metadata)
      × (found ≡ some e.verdict))
    ⊎ (found ≡ cached_verdict (codes "/a") seen.metadata (loaded table one_row (some 3)))
    ⊎ (found ≡ none)
unfolding virus_detector.Cache.last_completed
failing-cached_verdict_example =
    failing-cached_verdict table half true (seen ∷ []) one_row (some 3) (codes "/a") seen.metadata
      (omega arith) (omega arith, tt)
