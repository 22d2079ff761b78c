-- ===== src/Quarantine/All.antt =====
-- restoreAll over the whole repository.
use virus_detector.Base.{
  ℕ, ◌≡◌, refl, sym, ap, ◌∙◌, ◌≢◌, ◌&&◌, Bool, true, Option, none, some, List, [], ◌∷◌, Bytes,
  bytes_eq_refl, All,
}
use virus_detector.Metadata.{QuarantineEntry, Json, root_json, find, erase_id}
use virus_detector.Files.{RegularFile, Files, set_permissions}
use virus_detector.Files.Move.{
  bytes_ne, set_file_hit, set_file_miss, move_present-IsMoved, move_file_present,
  set_permissions_present, apart,
}
use virus_detector.Quarantine.{
  returns, QuarantineManager, saving, Restoring, restore_one, restore_each, restore_all,
}
use virus_detector.Quarantine.Restored.{IsRestoring, restore_one_moved, save_done}

-- Neither path of the entry.
abbrev pub IsApart : QuarantineEntry → Bytes → Type 0
IsApart e p = (p ≢ e.original_path) × (p ≢ e.quarantine_path)

abbrev pub AreDistinct : QuarantineEntry → QuarantineEntry → Type 0
AreDistinct e d =
    (d.id ≢ e.id)
    × IsApart e d.original_path
    × IsApart e d.quarantine_path
    × IsApart d e.original_path

-- Each entry's file is in quarantine, its original path is free, and no two entries share an
-- identifier or a path.
abbrev pub AreHeld : Files → List QuarantineEntry → Type 0
AreHeld files [] = Unit
AreHeld files (e ∷ es) =
    ((f : RegularFile) × (files e.quarantine_path ≡ some f))
    × (files e.original_path ≡ none)
    × All (AreDistinct e) es
    × AreHeld files es

-- The permissions that were recorded, if any were.
abbrev pub HasMode : Option ℕ → RegularFile → Type 0
HasMode none g = Unit
HasMode (some m) g = g.permissions ≡ m

abbrev pub IsBack : Files → Files → QuarantineEntry → Type 0
IsBack files files' e =
    (f : RegularFile) × (g : RegularFile) × (files e.quarantine_path ≡ some f)
    × (files' e.original_path ≡ some g)
    × (g.content ≡ f.content)
    × HasMode e.original_permissions g

set_permissions_lem :
    (s : Bytes) (o : Option ℕ) (g : RegularFile) (files : Files)
    → files s ≡ some g
    → (h : RegularFile) × (set_permissions true s o files s ≡ some h)
      × (h.content ≡ g.content)
      × HasMode o h
      × ((p : Bytes) → p ≢ s → set_permissions true s o files p ≡ files p)
set_permissions_lem s none g files e = unfold set_permissions in (g, e, refl, tt, λ p ne. refl)
set_permissions_lem s (some m) g files e =
    let changed : RegularFile = record g { permissions = m } in
    let is = set_permissions_present s m g files e in
    (
      changed,
      ap (λ z. z s) is ∙ set_file_hit s (some changed) files,
      refl,
      refl,
      λ p ne. ap (λ z. z p) is ∙ set_file_miss s p (some changed) files ne,
    )

erase_others :
    (e : QuarantineEntry) (es : List QuarantineEntry)
    → All (AreDistinct e) es
    → erase_id e.id es ≡ es
unfolding erase_id
erase_others e [] h = refl
erase_others e (d ∷ es) (h, hs) = rw (bytes_ne d.id e.id h.0) (ap (◌∷◌ d) (erase_others e es hs))

first_entry :
    (e : QuarantineEntry) (es : List QuarantineEntry)
    → All (AreDistinct e) es
    → (find e.id (e ∷ es) ≡ some e) × (erase_id e.id (e ∷ es) ≡ es)
unfolding find erase_id
first_entry e es h = rw (bytes_eq_refl e.id) (refl, erase_others e es h)

AreHeld-keeps :
    (files files' : Files) (es : List QuarantineEntry)
    → AreHeld files es
    → All
        (λ d.
          (files' d.quarantine_path ≡ files d.quarantine_path)
          × (files' d.original_path ≡ files d.original_path))
        es
    → AreHeld files' es
AreHeld-keeps files files' [] h k = tt
AreHeld-keeps files files' (e ∷ es) ((f, there), free, distinct, rest) ((a, b), ks) =
    ((f, a ∙ there), b ∙ free, distinct, AreHeld-keeps files files' es rest ks)

map_All :
    {A : Type 0} (P Q : A → Type 0) (xs : List A) → ((x : A) → P x → Q x) → All P xs → All Q xs
map_All P Q [] f h = tt
map_All P Q (x ∷ xs) f (h, hs) = (f x h, map_All P Q xs f hs)

zip_All :
    {A : Type 0} (P Q R : A → Type 0) (xs : List A)
    → ((x : A) → P x → Q x → R x)
    → All P xs
    → All Q xs
    → All R xs
zip_All P Q R [] f h k = tt
zip_All P Q R (x ∷ xs) f (h, hs) (k, ks) = (f x h k, zip_All P Q R xs f hs ks)

-- Every file is back, and a path that is none of theirs is as it was.
abbrev pub AreRestored : Files → Files → List QuarantineEntry → Type 0
AreRestored files files' es =
    All (IsBack files files') es × ((p : Bytes) → All (λ e. IsApart e p) es → files' p ≡ files p)

module _ {T : Type 0} where
  -- One round of the loop.
  restored_one :
      (c : Restoring) (e : QuarantineEntry) (es : List QuarantineEntry) (q : QuarantineManager T)
      → IsRestoring c
      → q.entries ≡ e ∷ es
      → AreHeld q.files (e ∷ es)
      → let r = restore_one c e.id q in
        (r.1 ≡ true)
        × (r.0.entries ≡ es)
        × (r.0.metadata_file ≡ q.metadata_file)
        × IsBack q.files r.0.files e
        × ((p : Bytes) → IsApart e p → r.0.files p ≡ q.files p)
  restored_one c e es q able is ((f, there), free, distinct, rest) =
      let (at_id, erased) = first_entry e es distinct in
      let ne : e.quarantine_path ≢ e.original_path =
        apart q.files e.quarantine_path e.original_path f there free in
      let (moved, done) =
        move_present-IsMoved c.moves e.quarantine_path e.original_path f q.files able.0 ne free in
      let same = move_file_present c.moves e.quarantine_path e.original_path f q.files there in
      let (h, at_h, content, mode, others) =
        set_permissions_lem e.original_path e.original_permissions moved.arrived _ moved.there in
      rw
        (
          restore_one_moved c e.id e q able (ap (find e.id) is ∙ at_id) free
              (ap (λ r. r.1) same ∙ done),
          same,
          is,
        )
        (
          refl,
          erased,
          refl,
          (f, h, there, at_h, content ∙ moved.same, mode),
          λ p (a, b). others p a ∙ moved.others p b a,
        )

  restored_each :
      (c : Bytes → Restoring) (es : List QuarantineEntry) (b : Bool) (q : QuarantineManager T)
      → ((id : Bytes) → IsRestoring (c id))
      → q.entries ≡ es
      → AreHeld q.files es
      → let r = restore_each c es b q in
        (r.1 ≡ b) × (r.0.entries ≡ []) × AreRestored q.files r.0.files es
  unfolding restore_each
  restored_each c [] b q able is held = (refl, is, (tt, λ p h. refl))
  restored_each c (e ∷ es) b q able is held =
      let distinct = held.2 in
      let (done, left, _, back, others) = restored_one (c e.id) e es q (able e.id) is held in
      let q' = (restore_one (c e.id) e.id q).0 in
      let unmoved : All
          (λ d.
            (q'.files d.quarantine_path ≡ q.files d.quarantine_path)
            × (q'.files d.original_path ≡ q.files d.original_path))
          es =
        map_All (AreDistinct e) _ es
          (λ d (_, o, p, _). (others d.quarantine_path p, others d.original_path o)) distinct in
      let (ok, gone, (backs, others')) =
        restored_each c es ((restore_one (c e.id) e.id q).1 && b) q' able left
          (AreHeld-keeps q.files q'.files es held.3 unmoved) in
      let kept = others' e.original_path (
        map_All (AreDistinct e) (λ d. IsApart d e.original_path) es (λ d (_, _, _, a). a)
          distinct) in
      let (f, g, there, at_g, content, mode) = back in
      (
        ok ∙ ap (λ z. z && b) done,
        gone,
        (
          (
            (f, g, there, kept ∙ at_g, content, mode),
            zip_All _ _ (IsBack q.files _) es
                (λ d (a, _) (f', g', there', r1, r2, r3). (f', g', sym a ∙ there', r1, r2, r3))
                unmoved backs,
          ),
          λ p (h, hs). others' p hs ∙ others p h,
        ),
      )

-- If the files of all entries are in quarantine, with their original paths free and no identifier or
-- path shared, and the calls and the save succeed, restoreAll reports success: every file is back with
-- its content and the permissions recorded for it, all other paths but those in quarantine are as they
-- were, and no entry is left, in memory or in the saved metadata.
pub restore_all-AreRestored :
    {J T : Type 0} (json : Json J T) (c : Bytes → Restoring) (q : QuarantineManager T) (t : T)
    → ((id : Bytes) → IsRestoring (c id))
    → AreHeld q.files q.entries
    → json.dump (root_json json []) ≡ some t
    → let r = restore_all json c saving q in
      (r.1 ≡ returns true)
      × (r.0.entries ≡ [])
      × (r.0.metadata_file ≡ some t)
      × AreRestored q.files r.0.files q.entries
unfolding restore_all
restore_all-AreRestored json c q t able held dumped =
    let (ok, gone, all) = restored_each c q.entries true q able refl held in
    let q' = (restore_each c q.entries true q).0 in
    let saved = save_done json q' t (ap (λ es. json.dump (root_json json es)) gone ∙ dumped) in
    rw (saved, ok) (refl, gone, refl, all)
