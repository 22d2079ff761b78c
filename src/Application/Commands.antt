-- ===== src/Application/Commands.antt =====
-- What the commands of the quarantine come to, on the command line.
use virus_detector.Base.{
  ℕ, ◌<◌, ◌^◌, ◌≡◌, refl, ap, ◌∙◌, Bool, true, false, none, some, List, [], ◌∷◌, ◌++◌, Bytes,
  length, All, ◌⊎◌, inl, inr,
}
use virus_detector.Cli.{
  CommandType, scan_all, scan_path, restore, restore_all, delete, list_quarantine, help, unknown,
  Command, parse, usage, parse-usage,
}
use virus_detector.Metadata.{Json, root_json, find, add}
use virus_detector.Metadata.Laws.{IsStorable}
use virus_detector.Files.{RegularFile}
use virus_detector.Files.Move.{IsMoving}
use virus_detector.Quarantine.{
  returns, QuarantineManager, saving, Quarantining, new_entry, quarantine, load,
  restore as restore_file,
}
use virus_detector.Quarantine.Restored.{IsRestoring, restore-quarantine, load-quarantine}
use virus_detector.Application.{
  Running, exit_code, run_loaded, run_quarantine, dispatch, main, caught,
}

module _ {J T : Type 0} (json : Json J T)
    (scan : Bytes → QuarantineManager T → QuarantineManager T × Bool) where
  dispatch-restore :
      (c : Running) (id : Bytes) (q r z : QuarantineManager T)
      → load json c.makes c.opens (record q { entries = [] }) ≡ (r, true)
      → restore_file json (c.restores id) c.saves id r ≡ (z, returns true)
      → dispatch json scan c (record { type = restore; argument = id }) q ≡ (z, some 0)
  unfolding dispatch run_quarantine run_loaded exit_code
  dispatch-restore c id q r z loaded restored = rw (loaded, restored) refl

  main-restore :
      (c : Running) (program id : Bytes) (rest : List Bytes) (q r z : QuarantineManager T)
      → load json c.makes c.opens (record q { entries = [] }) ≡ (r, true)
      → restore_file json (c.restores id) c.saves id r ≡ (z, returns true)
      → main json scan c (program ∷ (usage restore id ++ rest)) q ≡ (z, 0)
  unfolding main
  main-restore c program id rest q r z loaded restored =
      ap (λ k. caught (dispatch json scan c k q)) (parse-usage restore program id rest (λ e. cc))
      ∙ ap caught (dispatch-restore c id q r z loaded restored)

  -- What one process quarantines, with a new identifier and a free place, another run of the program
  -- brings back: `restore` and the identifier on its command line end in 0, with each file as it was
  -- before the quarantine, content and permissions, and the entries and the metadata file too. All
  -- calls of the move back and the saves succeed, the metadata can be opened and hold entries in the
  -- range of their types.
  pub main-quarantine :
      (k : Quarantining) (s : Bytes) (sigs : List Bytes) (q : QuarantineManager T) (f : RegularFile)
      (c : Running) (program : Bytes) (rest : List Bytes) (t u : T)
      → q.files s ≡ some f
      → q.files k.destination ≡ none
      → IsMoving k.moves
      → find k.id q.entries ≡ none
      → k.saves ≡ saving
      → json.dump (root_json json (add (new_entry k s sigs f) q.entries)) ≡ some t
      → json.dump (root_json json q.entries) ≡ some u
      → All IsStorable q.entries
      → f.permissions < 4096
      → length f.content < 2 ^ 64
      → c.makes ≡ true
      → c.opens ≡ true
      → c.saves ≡ saving
      → IsRestoring (c.restores k.id)
      → let held = (quarantine json k s sigs q).0 in
        let r = main json scan c (program ∷ (usage restore k.id ++ rest)) held in
        (held.files s ≡ none)
        × (r.1 ≡ 0)
        × ((p : Bytes) → r.0.files p ≡ q.files p)
        × (r.0.entries ≡ q.entries)
        × (r.0.metadata_file ≡ some u)
  main-quarantine k s sigs q f c program rest t u at_s free moving new saves dumped dumped' storable
        mode size makes opens saves' restores =
      let held = (quarantine json k s sigs q).0 in
      let (_, gone, back, files, entries, metadata) =
        restore-quarantine json k s sigs q f at_s free moving new (c.restores k.id) t u restores
          saves dumped dumped' in
      let loaded : load json c.makes c.opens (record held { entries = [] }) ≡ (held, true) =
        ap (λ m. load json m c.opens (record held { entries = [] })) makes
        ∙ ap (λ o. load json true o (record held { entries = [] })) opens
        ∙ load-quarantine json k s sigs q f at_s free moving new t saves dumped storable mode
            size in
      let z = restore_file json (c.restores k.id) saving k.id held in
      let restored : restore_file json (c.restores k.id) c.saves k.id held ≡ (z.0, returns true) =
        ap (λ v. restore_file json (c.restores k.id) v k.id held) saves'
        ∙ ap (λ o. (z.0, o)) back in
      let done = main-restore c program k.id rest held held z.0 loaded restored in
      (
        gone,
        ap (λ r. r.1) done,
        λ p. ap (λ r. r.0.files p) done ∙ files p,
        ap (λ r. r.0.entries) done ∙ entries,
        ap (λ r. r.0.metadata_file) done ∙ metadata,
      )

-- The commands that open the quarantine.
abbrev pub opens_quarantine : CommandType → Bool
opens_quarantine restore = true
opens_quarantine restore_all = true
opens_quarantine delete = true
opens_quarantine list_quarantine = true
opens_quarantine scan_all = false
opens_quarantine scan_path = false
opens_quarantine help = false
opens_quarantine unknown = false

module _ {J T : Type 0} (json : Json J T) where
  -- A load changes neither the files nor the metadata.
  load_kept :
      (makes opens : Bool) (q : QuarantineManager T)
      → ((load json makes opens q).0.files ≡ q.files)
        × ((load json makes opens q).0.metadata_file ≡ q.metadata_file)
  unfolding load
  load_kept true opens q = (refl, refl)
  load_kept false opens q = (refl, refl)

  -- Failed, with the quarantine as it was.
  abbrev pub IsRefusal : QuarantineManager T → QuarantineManager T × ℕ → Type 0
  IsRefusal q r = (r.1 ≡ 1) × (r.0.files ≡ q.files) × (r.0.metadata_file ≡ q.metadata_file)

  run_quarantine-IsRefusal :
      (c : Running) (k : Command) (q : QuarantineManager T)
      → (load json c.makes c.opens (record q { entries = [] })).1 ≡ false
      → IsRefusal q (caught (run_quarantine json c k q))
  unfolding run_quarantine
  run_quarantine-IsRefusal c k q e = rw e (
      let (files, metadata) = load_kept c.makes c.opens (record q { entries = [] }) in
      (refl, files, metadata))

module _ {J T : Type 0} (json : Json J T)
    (scan : Bytes → QuarantineManager T → QuarantineManager T × Bool) where
  dispatch-IsRefusal :
      (c : Running) (t : CommandType) (id : Bytes) (q : QuarantineManager T)
      → (t ≡ unknown)
        ⊎ ((opens_quarantine t ≡ true)
            × ((load json c.makes c.opens (record q { entries = [] })).1 ≡ false))
      → IsRefusal json q (caught (dispatch json scan c (record { type = t; argument = id }) q))
  unfolding dispatch
  dispatch-IsRefusal c unknown id q h = (refl, refl, refl)
  dispatch-IsRefusal c scan_all id q (inl e) = cc
  dispatch-IsRefusal c scan_path id q (inl e) = cc
  dispatch-IsRefusal c help id q (inl e) = cc
  dispatch-IsRefusal c scan_all id q (inr (e, l)) = cc
  dispatch-IsRefusal c scan_path id q (inr (e, l)) = cc
  dispatch-IsRefusal c help id q (inr (e, l)) = cc
  dispatch-IsRefusal c restore id q (inl e) = cc
  dispatch-IsRefusal c restore_all id q (inl e) = cc
  dispatch-IsRefusal c delete id q (inl e) = cc
  dispatch-IsRefusal c list_quarantine id q (inl e) = cc
  dispatch-IsRefusal c restore id q (inr (e, l)) =
      run_quarantine-IsRefusal json c (record { type = restore; argument = id }) q l
  dispatch-IsRefusal c restore_all id q (inr (e, l)) =
      run_quarantine-IsRefusal json c (record { type = restore_all; argument = id }) q l
  dispatch-IsRefusal c delete id q (inr (e, l)) =
      run_quarantine-IsRefusal json c (record { type = delete; argument = id }) q l
  dispatch-IsRefusal c list_quarantine id q (inr (e, l)) =
      run_quarantine-IsRefusal json c (record { type = list_quarantine; argument = id }) q l

  -- A command line that is not understood, and every command of the quarantine when its directory
  -- cannot be made or its metadata not be opened or read, ends in 1 and leaves the files and the
  -- metadata file as they were.
  pub main-IsRefusal :
      (c : Running) (argv : List Bytes) (q : QuarantineManager T)
      → ((parse argv).type ≡ unknown)
        ⊎ ((opens_quarantine (parse argv).type ≡ true)
            × ((load json c.makes c.opens (record q { entries = [] })).1 ≡ false))
      → IsRefusal json q (main json scan c argv q)
  unfolding main
  main-IsRefusal c argv q h = dispatch-IsRefusal c (parse argv).type (parse argv).argument q h
