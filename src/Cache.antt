-- ===== src/Cache.antt =====
-- Cache/CacheEntry.h, CacheManager.{h,cpp}, CacheWriter.{h,cpp} and SqliteCacheManager.{h,cpp}: the
-- verdicts of earlier scans. The database is an interface: what the SQL statements do to its rows,
-- by path, its primary key. A map is a function. The manager's writer holds its entries until it is
-- finished; Cache.Writer models the thread that writes them earlier.
pub mod Writer
pub mod Rows
pub mod NextRun
pub mod InRun
pub mod Failing
pub mod Tests
use Prim.Native.Nat.{◌%◌}
use virus_detector.Base.{
  ℕ, zero, suc, ◌+◌, ◌-◌, ◌^◌, ◌<◌, ◌≡◌, Bool, true, false, not, ◌&&◌, ◌||◌, Option, none, some,
  List, [], ◌∷◌, ◌++◌, Bytes, bytes_eq, length, ltb, leb, ◌==◌, if◌then◌else◌, ℤ, pos, negsuc,
  int_eq, take, drop,
}

pub data FileVerdict : Type 0 where
  clean malicious error : FileVerdict

pub record FileMetadata : Type 0 where
  pub last_modified : ℤ
  pub size : ℕ
  pub signatures_last_modified : ℤ

unfoldable pub metadata_eq : FileMetadata → FileMetadata → Bool
metadata_eq a b =
    int_eq a.last_modified b.last_modified
    && ((a.size == b.size) && int_eq a.signatures_last_modified b.signatures_last_modified)

pub record CacheEntry : Type 0 where
  pub path : Bytes
  pub metadata : FileMetadata
  pub verdict : FileVerdict
  pub generation : ℕ

-- A row of the table. SQLite integers are signed.
pub record Row : Type 0 where
  pub path : Bytes
  pub file_last_modified : ℤ
  pub file_size : ℤ
  pub signatures_last_modified : ℤ
  pub verdict : ℕ
  pub generation : ℤ

-- The casts between 64-bit unsigned and signed values.
unfoldable pub to_signed : ℕ → ℤ
to_signed n = if ltb n (2 ^ 63) then pos n else negsuc (2 ^ 64 - 1 - n)

unfoldable pub to_unsigned : ℤ → ℕ
to_unsigned (pos n) = n
to_unsigned (negsuc n) = 2 ^ 64 - 1 - n

unfoldable pub verdict_code : FileVerdict → ℕ
verdict_code clean = 0
verdict_code malicious = 1
verdict_code error = 2

-- Of the codes that verdict_code gives; the program writes no other.
unfoldable pub code_verdict : ℕ → FileVerdict
code_verdict zero = clean
code_verdict (suc zero) = malicious
code_verdict (suc (suc n)) = error

-- The values that upsertBatch binds, and those that loadAll reads.
unfoldable pub bind_row : CacheEntry → Row
bind_row e = record {
  path = e.path;
  file_last_modified = e.metadata.last_modified;
  file_size = to_signed e.metadata.size;
  signatures_last_modified = e.metadata.signatures_last_modified;
  verdict = verdict_code e.verdict;
  generation = to_signed e.generation;
}

unfoldable pub read_row : Row → CacheEntry
read_row r = record {
  path = r.path;
  metadata = record {
    last_modified = r.file_last_modified;
    size = to_unsigned r.file_size;
    signatures_last_modified = r.signatures_last_modified;
  };
  verdict = code_verdict r.verdict;
  generation = to_unsigned r.generation;
}

-- `generation < ?`, on signed values.
unfoldable pub int_lt : ℤ → ℤ → Bool
int_lt (pos a) (pos b) = ltb a b
int_lt (pos a) (negsuc b) = false
int_lt (negsuc a) (pos b) = true
int_lt (negsuc a) (negsuc b) = ltb b a

abbrev pub when_not : {A : Type 0} → Bool → Option A → Option A
when_not b o = if b then none else o

unfoldable pub is_older : ℤ → Option Row → Bool
is_older g none = false
is_older g (some r) = int_lt r.generation g

-- The SQL statements on an open database, with what SQLite documents of them.
pub record Database (D : Type 0) : Type 0 where
  pub row : Bytes → D → Option Row
  pub upsert : Row → D → D
  pub delete_older : ℤ → D → D
  pub delete_all : D → D
  pub row-upsert :
      (p : Bytes) (r : Row) (d : D)
      → row p (upsert r d) ≡ (if bytes_eq r.path p then some r else row p d)
  pub row-delete_older :
      (p : Bytes) (g : ℤ) (d : D)
      → row p (delete_older g d) ≡ when_not (is_older g (row p d)) (row p d)
  pub row-delete_all : (p : Bytes) (d : D) → row p (delete_all d) ≡ none

abbrev pub Entries : Type 0
Entries = Bytes → Option CacheEntry

-- CacheWriter: its queue and its flag.
pub record CacheWriter : Type 0 where
  pub upsert_queue : List CacheEntry
  pub stop : Bool

abbrev pub batch_size : ℕ
batch_size = 100

unfoldable pub submit : CacheEntry → CacheWriter → CacheWriter
submit e w = if w.stop then w else record w { upsert_queue = w.upsert_queue ++ e ∷ [] }

-- One critical section of the loop of run: the entries to write and whether to return after them,
-- or `none` while it waits.
unfoldable pub take_upserts : CacheWriter → Option (List CacheEntry × Bool × CacheWriter)
take_upserts w =
    if w.stop || leb batch_size (length w.upsert_queue)
    then some (w.upsert_queue, w.stop, record w { upsert_queue = [] })
    else none

pub record CacheManager (D : Type 0) : Type 0 where
  pub cache_entries : Entries
  pub current_generation : ℕ
  pub generation_file : Option ℕ
  pub storage : D
  pub writer : CacheWriter

-- A new process that finds this database and this generation file (`none`: missing or no number).
abbrev pub new_manager : {D : Type 0} → D → Option ℕ → CacheManager D
new_manager d file = record {
  cache_entries = λ p. none;
  current_generation = 0;
  generation_file = file;
  storage = d;
  writer = record { upsert_queue = []; stop = false };
}

unfoldable pub put : CacheEntry → Entries → Entries
put e entries p = if bytes_eq e.path p then some e else entries p

unfoldable pub map_row : Option Row → Option CacheEntry
map_row none = none
map_row (some r) = some (read_row r)

unfoldable pub last_completed : Option ℕ → ℕ
last_completed none = 0
last_completed (some g) = g

-- The generation file, with whether it can be written and renamed into place.
abbrev pub save_last_completed_generation : Bool → ℕ → Option ℕ → Option ℕ
save_last_completed_generation writes generation file = if writes then some generation else file

unfoldable pub verdict_for : FileMetadata → Option CacheEntry → Option FileVerdict
verdict_for metadata none = none
verdict_for metadata (some e) = if metadata_eq e.metadata metadata then some e.verdict else none

-- What a load meets: whether the database opens and its rows can be read, and, after the last
-- generation, whether it is cleared and the generation written.
pub record Opening : Type 0 where
  pub opens : Bool
  pub reads : Bool
  pub clears : Bool
  pub writes : Bool

abbrev no_entries : Entries
no_entries p = none

abbrev pub opening : Opening
opening = record { opens = true; reads = true; clears = true; writes = true }

-- How the writer's thread takes the queue, and whether its transactions commit, the old rows are deleted and the generation is written.
pub record Committing : Type 0 where
  pub batches : List (ℕ × Bool)
  pub commits : Bool
  pub deletes : Bool
  pub writes : Bool

abbrev pub committing : Committing
committing = record { batches = []; commits = true; deletes = true; writes = true }

module _ {D : Type 0} (db : Database D) where
  unfoldable pub load_all : D → Entries
  load_all d p = map_row (db.row p d)

  -- The statements of one transaction, and the transaction with whether it commits.
  unfoldable pub upserts : List CacheEntry → D → D
  upserts [] d = d
  upserts (e ∷ es) d = upserts es (db.upsert (bind_row e) d)

  unfoldable pub upsert_batch : Bool → List CacheEntry → D → D × Bool
  unfolding upserts
  upsert_batch commits [] d = (d, true)
  upsert_batch true (e ∷ es) d = (upserts (e ∷ es) d, true)
  upsert_batch false (e ∷ es) d = (d, false)

  -- A queue in the batches in which the thread takes it, each with its size and whether it commits, and
  -- the rest in a last one.
  unfoldable pub upsert_batches : List (ℕ × Bool) → Bool → List CacheEntry → D → D
  upsert_batches [] last q d = (upsert_batch last q d).0
  upsert_batches ((n, commits) ∷ batches) last q d =
      upsert_batches batches last (drop n q) (upsert_batch commits (take n q) d).0

  -- SqliteCacheManager::clearAll and cleanOldGenerations, with whether the statement succeeds.
  abbrev pub clear_all : Bool → D → D
  clear_all clears d = if clears then db.delete_all d else d

  abbrev pub clean_old_generations : Bool → ℕ → D → D
  clean_old_generations deletes current_generation d =
      if deletes then db.delete_older (to_signed current_generation) d else d

  -- CacheManager::load, with whether the database opens.
  unfoldable pub load : Opening → CacheManager D → CacheManager D × Bool
  load o m =
      let cleared = clear_all o.clears m.storage in
      if o.opens
      then if last_completed m.generation_file == 2 ^ 64 - 1
        then (
          record m {
            storage = cleared;
            generation_file = save_last_completed_generation o.writes 0 m.generation_file;
            cache_entries = if o.reads then load_all cleared else no_entries;
            current_generation = 1;
          },
          true,
        )
        else (
          record m {
            cache_entries = if o.reads then load_all m.storage else no_entries;
            current_generation = last_completed m.generation_file + 1;
          },
          true,
        )
      else (m, false)

unfoldable pub cached_verdict :
    {D : Type 0} → Bytes → FileMetadata → CacheManager D → Option FileVerdict
cached_verdict path metadata m = verdict_for metadata (m.cache_entries path)

unfoldable pub update : {D : Type 0} → CacheEntry → CacheManager D → CacheManager D
unfolding put submit
update entry m =
    let stamped : CacheEntry = record entry { generation = m.current_generation } in
    record m { cache_entries = put stamped m.cache_entries; writer = submit stamped m.writer }

-- commitGeneration. The queue has the entries of the run; the thread may have written some batches of
-- it before finish() is called, each in a transaction that commits or not.
unfoldable pub commit_generation :
    {D : Type 0} → Database D → Committing → Bool → CacheManager D → CacheManager D
unfolding upsert_batches
commit_generation db k full m =
    let written = upsert_batches db k.batches k.commits m.writer.upsert_queue m.storage in
    record m {
      writer = record { upsert_queue = []; stop = true };
      storage =
          if full then clean_old_generations db k.deletes m.current_generation written else written;
      generation_file =
          save_last_completed_generation k.writes m.current_generation m.generation_file;
    }
