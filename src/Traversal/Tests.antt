-- ===== src/Traversal/Tests.antt =====
-- A directory with two files, of which a resumed walk counts one.
use virus_detector.Base.{ℕ, suc, ◌≡◌, refl, true, some, [], codes, pos, path_parts}
use virus_detector.Exclude.{PathRules}
use virus_detector.Traversal.{FileStat, Children, file, directory, nil, cons, FileInfo, walk}
use virus_detector.Traversal.Listing.{list_root, kept}
use virus_detector.Traversal.Resumed.{on, feed, walk-kept}

abbrev pub plain : PathRules
plain = record { weakly_canonical = λ p. some p; lexically_normal = λ p. p }

abbrev stat : FileStat
stat = record { size = some 3; write_time = some (pos 9) }

abbrev two_files : Children
two_files = cons (codes "b") (file stat) (cons (codes "a") (file stat) nil)

abbrev count_file : FileInfo → ℕ → ℕ
count_file info n = suc n

walk-kept_example :
    walk plain []
      (codes "/r")
      (on plain [] (codes "/r") count_file)
      (some (directory true two_files))
      (codes "b")
      0
    ≡ (
      feed plain []
          (codes "/r")
          count_file
          (kept (path_parts (codes "b")) (list_root plain [] (codes "/r") true two_files))
          0,
      true,
    )
unfolding virus_detector.Exclude.is_root_inside_excluded_path
walk-kept_example = walk-kept plain [] (codes "/r") count_file true two_files (codes "b") 0 refl
