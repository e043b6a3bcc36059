-- ===== src/Os/File/Tests.antt =====
-- Files at concrete inputs.
use amidb.Base.{ℕ, ◌≡◌, none, some, [], ◌∷◌}
use amidb.Os.File.{current, end, file_size}
use amidb.Os.File.Disk.{Disk, disk, disk_laws}
use amidb.Os.File.Laws.{file_size-position}

abbrev three : Disk
three = record { content = 1 ∷ 2 ∷ 3 ∷ []; at = 1 }

file_size-position_example :
    ((disk.seek three 0 current).1 ≡ none → (file_size disk three).1 ≡ none)
    × ((p : ℕ)
        → (disk.seek three 0 current).1 ≡ some p
        → (disk.seek (disk.seek three 0 current).0 0 end).1 ≡ none
        → (file_size disk three).1 ≡ none)
    × ((p n : ℕ)
        → (disk.seek three 0 current).1 ≡ some p
        → (disk.seek (disk.seek three 0 current).0 0 end).1 ≡ some n
        → (file_size disk three).1 ≡ some 1)
    × ((file_size disk three).0.content ≡ 1 ∷ 2 ∷ 3 ∷ [])
unfolding disk_laws
file_size-position_example = file_size-position disk disk_laws three
