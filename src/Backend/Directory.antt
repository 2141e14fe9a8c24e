-- ===== src/Backend/Directory.antt =====
-- `start_meta_addfile`, `start_meta_mkdir` and `start_meta_ls` of storage-conf-ssbd-backend.hpp: what
-- they make of the directory file that `start_read` delivers. The file holds the number of its
-- entries in the first 64 bytes and entry `i` in the 64 bytes from `i * 64` on.
pub mod Entries
use slsfs.Ssbd.Block.{resize}
use slsfs.Text.{to_string, codes}
use slsfs.Bytes.{hton, store, load, ntoh, Bytes}
use slsfs.Prelude.{
  Option, ◌^◌, ◌%◌, ◌&&◌, ◌*◌, length, ◌++◌, ◌==◌, ◌+◌, drop, replicate, ltb, take, ◌>>=◌,
  if◌then◌else◌, refl, suc, zero, inr, inl, false, true, none, some, ◌∷◌, [], ℕ,
}

-- `sizeof(filemeta)` and `sizeof(stats)`
abbrev pub entry_size : ℕ
entry_size = 64

-- `stat.file_count`, turned round from the network's order.
unfoldable pub file_count : Bytes → ℕ
file_count content = ntoh 4 (load (take 4 content))

unfoldable pub overlay : ℕ → Bytes → Bytes → Bytes
overlay pos src dst = take pos dst ++ (src ++ drop (pos + length src) dst)

-- `std::memcpy` into a buffer, with `none` for one past its end.
unfoldable pub put_at : ℕ → Bytes → Bytes → Option Bytes
put_at pos src dst =
    if ltb (length dst) (pos + length src) then none else some (overlay pos src dst)

-- What the callback of the read does: it answers with an error, reads again with another size, writes
-- a new content, or answers with a listing; or it copies from outside the buffer.
pub data Reply : Type 0 where
  no_such_directory fault : Reply
  read_again : ℕ → Reply
  write_content : Bytes → Reply
  listing : Bytes → Reply

-- The new content: one entry more at the end, and the new count in front. `meta` is the 64 bytes of the
-- request's `filemeta`; a shorter request, past which the code reads on, has none.
unfoldable pub add_entry : Bytes → Bytes → Option Bytes
add_entry content meta =
    let count = (file_count content + 1) % 2 ^ 32 in
    let position = count * entry_size % 2 ^ 32 in
    put_at position meta (resize (position + entry_size) content)
    >>= put_at 0 (store 4 (hton 4 count))

unfoldable pub start_meta_addfile : Bytes → Bytes → Reply
start_meta_addfile content meta =
    if ltb (length content) entry_size
    then no_such_directory
    else if ltb (length content) (file_count content * entry_size)
    then read_again (file_count content * entry_size % 2 ^ 32)
    else elim (add_entry content meta) [ none ↦ fault | some whole ↦ write_content whole ]

-- The content of a new directory: `stats` with a count of 0, and whatever its reserved bytes hold.
unfoldable pub start_meta_mkdir : Bytes → Bytes
start_meta_mkdir reserved = store 4 (hton 4 0) ++ reserved

-- The name in an entry: behind owner and permission, up to the first zero byte.
unfoldable pub name_until_zero : Bytes → Bytes
name_until_zero [] = []
name_until_zero (b ∷ bs) = if b == 0 then [] else b ∷ name_until_zero bs

unfoldable pub entry_at : ℕ → Bytes → Bytes
entry_at i content = take entry_size (drop (i * entry_size % 2 ^ 32) content)

unfoldable pub entry_name : Bytes → Bytes
entry_name entry = name_until_zero (drop 4 entry)

-- `for (i = 1; i <= stat.file_count; i++)`, with the entries that are left.
unfoldable pub list_from : ℕ → ℕ → Bytes → Bytes
list_from zero i content = []
list_from (suc left) i content =
    entry_name (entry_at i content) ++ (10 ∷ list_from left (i + 1) content)

unfoldable pub start_meta_ls : Bytes → Reply
start_meta_ls content =
    let count = file_count content in
    if ltb (length content) entry_size
    then no_such_directory
    else if ltb (length content) (count * entry_size)
    then read_again (count * entry_size % 2 ^ 32)
    else if ltb (length content) ((count + 1) * entry_size) && ltb 0 count
    then fault
    else listing
        (codes "total: " ++ (to_string count ++ (codes " files\n" ++ list_from count 1 content)))
