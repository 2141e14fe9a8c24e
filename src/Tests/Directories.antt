-- ===== src/Tests/Directories.antt =====
-- The directories' theorems at a directory of one file.
use slsfs.Backend.Directory.Entries.{last_entry_lost, new_entry_stored}
use slsfs.Backend.Directory.{write_content, start_meta_addfile, file_count}
use slsfs.Bytes.{store, load, hton, ntoh, Bytes}
use slsfs.Prelude.{length, ◌*◌, arith, ◌+◌, ◌≡◌, ◌++◌, replicate, get_or, refl, ◌∷◌}

-- The first 64 bytes of a directory with one entry, whose entry is still to be read.
abbrev short_a : Bytes
short_a = 0 ∷ 0 ∷ 0 ∷ 1 ∷ replicate 60 0

abbrev whole_a : Bytes
whole_a = short_a ++ replicate 64 9

abbrev meta_a : Bytes
meta_a = replicate 64 7

file_count-short : file_count short_a ≡ 1
unfolding file_count ntoh hton load store
file_count-short = refl

file_count-whole : file_count whole_a ≡ 1
unfolding file_count ntoh hton load store
file_count-whole = refl

new_entry_stored_example :
    (whole : Bytes) × (start_meta_addfile whole_a meta_a ≡ write_content whole)
    × (length whole ≡ (file_count whole_a + 2) * 64)
    × (file_count whole ≡ file_count whole_a + 1)
    × (get_or whole ((file_count whole_a + 1) * 64 + 5) 0 ≡ get_or meta_a 5 0)
    × (get_or whole 70 0 ≡ get_or whole_a 70 0)
new_entry_stored_example =
    new_entry_stored whole_a meta_a refl (omega (arith, file_count-whole)) 5 70 (omega arith)
      (omega arith) (omega (arith, file_count-whole)) (omega (arith, file_count-whole))

last_entry_lost_example :
    (whole : Bytes) × (start_meta_addfile short_a meta_a ≡ write_content whole)
    × (get_or whole (file_count short_a * 64 + 5) 0 ≡ 0)
last_entry_lost_example =
    last_entry_lost short_a meta_a refl (omega (arith, file_count-short)) 5 (omega arith)
      (omega (arith, file_count-short)) (omega (arith, file_count-short))
