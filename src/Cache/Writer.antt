-- ===== src/Cache/Writer.antt =====
-- CacheWriter's thread: entries are written in batches, between submissions, in any interleaving.
use virus_detector.Base.{
  not_both, ◌≡◌, refl, sym, ap, ◌∙◌, Bool, true, false, some, List, [], ◌∷◌, ◌++◌, arith,
  if◌then◌else◌, Bool-cases, inl, inr,
}
use mathlib.Core.Path.{ap₂}
use virus_detector.Cache.{
  Database, CacheEntry, CacheWriter, submit, take_upserts, upserts, upsert_batch, bind_row,
  CacheManager, committing, commit_generation, to_signed,
}

module _ {D : Type 0} (db : Database D) where
  pub upserts-append :
      (xs ys : List CacheEntry) (d : D) → upserts db (xs ++ ys) d ≡ upserts db ys (upserts db xs d)
  unfolding upserts
  upserts-append [] ys d = refl
  upserts-append (x ∷ xs) ys d = upserts-append xs ys (db.upsert (bind_row x) d)

  pub upsert_batch_commits :
      (xs : List CacheEntry) (d : D) → upsert_batch db true xs d ≡ (upserts db xs d, true)
  unfolding upsert_batch upserts
  upsert_batch_commits [] d = refl
  upsert_batch_commits (x ∷ xs) d = refl

-- The writer with its database: the entries taken so far, in order; whether the thread has returned,
-- and whether every transaction has committed.
pub record Writing (D : Type 0) : Type 0 where
  pub writer : CacheWriter
  pub database : D
  pub submitted : List CacheEntry
  pub returned : Bool
  pub intact : Bool

abbrev pub idle : {D : Type 0} → D → Writing D
idle d = record {
  writer = record { upsert_queue = []; stop = false };
  database = d;
  submitted = [];
  returned = false;
  intact = true;
}

pub data Step {D : Type 0} (db : Database D) (s : Writing D) : Writing D → Type 0 where
  submits :
      (e : CacheEntry)
      → Step db s (record s {
        writer = submit e s.writer;
        submitted = if s.writer.stop then s.submitted else s.submitted ++ e ∷ [];
      })
  finishes : Step db s (record s { writer = record (s.writer) { stop = true } })
  writes :
      (commits : Bool) (batch : List CacheEntry) (stop : Bool) (w : CacheWriter)
      → s.returned ≡ false
      → take_upserts s.writer ≡ some (batch, stop, w)
      → Step db s (record s {
        writer = w;
        database = (upsert_batch db commits batch s.database).0;
        returned = stop;
        intact = if commits then s.intact else false;
      })

pub data Reach {D : Type 0} (db : Database D) (d : D) : Writing D → Type 0 where
  here : Reach db d (idle d)
  next : {s t : Writing D} → Reach db d s → Step db s t → Reach db d t

pub record IsComplete {D : Type 0} (db : Database D) (d : D) (s : Writing D) : Type 0 where
  pub stored :
      s.intact ≡ true → upserts db s.writer.upsert_queue s.database ≡ upserts db s.submitted d
  pub ended : s.returned ≡ true → (s.writer.stop ≡ true) × (s.writer.upsert_queue ≡ [])

taken :
    (w w' : CacheWriter) (batch : List CacheEntry) (stop : Bool)
    → take_upserts w ≡ some (batch, stop, w')
    → (batch ≡ w.upsert_queue) × (stop ≡ w.stop) × (w' ≡ record w { upsert_queue = [] })
unfolding take_upserts
taken w w' batch stop e = ground arith

module _ {D : Type 0} (db : Database D) (d : D) where
  submits-IsComplete :
      (s : Writing D) (e : CacheEntry)
      → IsComplete db d s
      → IsComplete db d (record s {
        writer = submit e s.writer;
        submitted = if s.writer.stop then s.submitted else s.submitted ++ e ∷ [];
      })
  unfolding submit
  submits-IsComplete s e v = elim (Bool-cases s.writer.stop) [
    | inl stopped ↦ record {
      stored = λ i. rw stopped (v.stored i);
      ended = λ r. rw stopped (refl, (v.ended r).1);
    }
    | inr going ↦ rw going record {
      stored = λ i.
          upserts-append db s.writer.upsert_queue (e ∷ []) s.database
          ∙ ap (upserts db (e ∷ [])) (v.stored i)
          ∙ sym (upserts-append db s.submitted (e ∷ []) d);
      ended = λ r. absurd (not_both s.writer.stop (v.ended r).0 going);
    }
  ]

  writes-stored :
      (s : Writing D) (commits : Bool)
      → IsComplete db d s
      → (if commits then s.intact else false) ≡ true
      → (upsert_batch db commits s.writer.upsert_queue s.database).0 ≡ upserts db s.submitted d
  writes-stored s true v i =
      ap (λ r. r.0) (upsert_batch_commits db s.writer.upsert_queue s.database) ∙ v.stored i
  writes-stored s false v i = absurd (not_both false i refl)

  Step-IsComplete : {s t : Writing D} → IsComplete db d s → Step db s t → IsComplete db d t
  unfolding upserts
  Step-IsComplete {s} v (submits e) = submits-IsComplete s e v
  Step-IsComplete v finishes = record { stored = v.stored; ended = λ r. (refl, (v.ended r).1) }
  Step-IsComplete {s} v (writes commits batch stop w running e) =
      let (all, stops, rest) = taken s.writer w batch stop e in
      record {
        stored = λ i.
            ap (λ z. upserts db z.upsert_queue (upsert_batch db commits batch s.database).0) rest
            ∙ ap (λ z. (upsert_batch db commits z s.database).0) all
            ∙ writes-stored s commits v i;
        ended = λ r. (ap (λ z. z.stop) rest ∙ sym stops ∙ r, ap (λ z. z.upsert_queue) rest);
      }

  -- In every reachable state in which each transaction has committed, writing what is still queued
  -- makes the database that writing all the submitted entries in order makes; and a thread that has
  -- returned was told to stop and left nothing queued.
  pub Reach-IsComplete : {s : Writing D} → Reach db d s → IsComplete db d s
  Reach-IsComplete here = record { stored = λ i. refl; ended = λ r. absurd (not_both false r refl) }
  Reach-IsComplete (next r step) = Step-IsComplete (Reach-IsComplete r) step

  -- When the thread has returned, as finish() waits for, and each transaction has committed, the
  -- database is the one that writing all the submitted entries in order makes.
  pub returned-upserts :
      (s : Writing D)
      → Reach db d s
      → s.returned ≡ true
      → s.intact ≡ true
      → s.database ≡ upserts db s.submitted d
  unfolding upserts
  returned-upserts s r e i =
      let v = Reach-IsComplete r in
      sym (ap (λ q. upserts db q s.database) (v.ended e).1) ∙ v.stored i

  -- CacheManager's commit writes one queue of all the entries of its run at the end. That is what the
  -- thread comes to, whatever its batches and however they fall between the submissions: when it has
  -- returned, as finish() waits for, and each transaction has committed, the commit leaves the
  -- thread's database, without the rows of older generations if the whole system was scanned.
  pub returned-commit_generation :
      (m : CacheManager D) (full : Bool) (s : Writing D)
      → m.storage ≡ d
      → Reach db d s
      → s.returned ≡ true
      → s.intact ≡ true
      → s.submitted ≡ m.writer.upsert_queue
      → (commit_generation db committing full m).storage
        ≡ (if full then db.delete_older (to_signed m.current_generation) s.database else s.database)
  returned-commit_generation m full s at_d r e i all =
      let written : (upsert_batch db true m.writer.upsert_queue m.storage).0 ≡ s.database =
        ap (λ z. z.0) (upsert_batch_commits db m.writer.upsert_queue m.storage)
        ∙ ap₂ (upserts db) (sym all) at_d
        ∙ sym (returned-upserts s r e i) in
      committed full written
    where
      committed :
          (full : Bool)
          → (upsert_batch db true m.writer.upsert_queue m.storage).0 ≡ s.database
          → (commit_generation db committing full m).storage ≡ (
              if full
              then db.delete_older (to_signed m.current_generation) s.database
              else s.database)
      committed true w =
          unfold commit_generation in ap (db.delete_older (to_signed m.current_generation)) w
      committed false w = unfold commit_generation in w
