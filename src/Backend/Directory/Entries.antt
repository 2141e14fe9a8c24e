-- ===== src/Backend/Directory/Entries.antt =====
-- What adding a file does to the entries of a directory.
use slsfs.Bytes.Laws.{ntoh-load-store, length-store}
use slsfs.Ssbd.Block.{resize}
use slsfs.Bytes.{load, ntoh, store, hton, Bytes}
use slsfs.Backend.Directory.{
  put_at, write_content, start_meta_addfile, add_entry, file_count, overlay,
}
use slsfs.Ssbd.Block.Content.{length-resize, get_or-resize_lt}
use slsfs.Prelude.{
  sym, take-append, ◌∙◌, ◌∙◌, ap, some, get_or-ge, ◌%◌, get_or-drop, length-drop, get_or-take,
  length-take, get_or-append, ◌-◌, drop, ◌^◌, ◌++◌, ltb, ◌<◌, take, ◌&&◌, ◌*◌, length-append, leb,
  arith, get_or, ◌≡◌, ◌≤◌, length, ◌+◌, if◌then◌else◌, refl, false, ℕ,
}

get_or-overlay :
    (pos : ℕ) (src dst : Bytes) (i : ℕ)
    → pos + length src ≤ length dst
    → get_or (overlay pos src dst) i 0
      ≡ (if leb pos i && ltb i (pos + length src) then get_or src (i - pos) 0 else get_or dst i 0)
unfolding overlay
get_or-overlay pos src dst i fits = ground (
  arith,
  get_or-append (take pos dst) (src ++ drop (pos + length src) dst) i 0,
  get_or-append src (drop (pos + length src) dst) (i - length (take pos dst)) 0,
  get_or-take pos dst i 0,
  get_or-drop (pos + length src) dst (i - length (take pos dst) - length src) 0,
  length-take pos dst,
)

length-overlay :
    (pos : ℕ) (src dst : Bytes)
    → pos + length src ≤ length dst
    → length (overlay pos src dst) ≡ length dst
unfolding overlay
length-overlay pos src dst fits = omega (
  arith,
  length-append (take pos dst) (src ++ drop (pos + length src) dst),
  length-append src (drop (pos + length src) dst),
  length-take pos dst,
  length-drop (pos + length src) dst,
)

file_count-front : (n : ℕ) (rest : Bytes) → n < 2 ^ 32 → file_count (store 4 (hton 4 n) ++ rest) ≡ n
unfolding file_count
file_count-front n rest lt =
    ap (λ b. ntoh 4 (load b))
      (take-append (store 4 (hton 4 n)) rest 4 (sym (length-store 4 (hton 4 n))))
    ∙ ntoh-load-store 4 n lt

module _ (content meta : Bytes) (size : length meta ≡ 64)
    (small : (file_count content + 2) * 64 < 2 ^ 32) where
  new_content : Bytes
  new_content = overlay 0 (store 4 (hton 4 ((file_count content + 1) % 2 ^ 32))) (
      overlay ((file_count content + 1) % 2 ^ 32 * 64 % 2 ^ 32) meta
        (resize ((file_count content + 1) % 2 ^ 32 * 64 % 2 ^ 32 + 64) content))

  -- No copy goes past the buffer.
  add_entry-fits : add_entry content meta ≡ some new_content
  unfolding add_entry put_at new_content
  add_entry-fits =
      let position = (file_count content + 1) % 2 ^ 32 * 64 % 2 ^ 32 in
      let room = resize (position + 64) content in
      let full = length-resize (position + 64) content in
      let head = length-store 4 (hton 4 ((file_count content + 1) % 2 ^ 32)) in
      let laid = length-overlay position meta room (omega (arith, full, size)) in
      let a : ltb (length room) (position + length meta) ≡ false = ground (arith, full, size) in
      let b : ltb (length (overlay position meta room))
            (0 + length (store 4 (hton 4 ((file_count content + 1) % 2 ^ 32))))
          ≡ false =
        ground (arith, laid, full, head) in
      rw a (rw b refl)

  -- Byte `i` of the new content.
  get_or-new_content :
      (i : ℕ)
      → 4 ≤ i
      → let position = (file_count content + 1) * 64 in
        get_or new_content i 0 ≡ (
          if leb position i && ltb i (position + 64)
          then get_or meta (i - position) 0
          else get_or (resize (position + 64) content) i 0)
  unfolding new_content
  get_or-new_content i le =
      let counted : (file_count content + 1) % 2 ^ 32 ≡ file_count content + 1 = omega arith in
      let placed : (file_count content + 1) * 64 % 2 ^ 32 ≡ (file_count content + 1) * 64 =
        omega arith in
      rw counted (
        rw placed (
          let count = file_count content + 1 in
          let position = count * 64 in
          let room = resize (position + 64) content in
          let full = length-resize (position + 64) content in
          let head = length-store 4 (hton 4 count) in
          let fits = length-overlay position meta room (omega (arith, full, size)) in
          ground (
            arith,
            get_or-overlay 0 (store 4 (hton 4 count)) (overlay position meta room) i,
            get_or-overlay position meta room i,
            full,
            head,
            fits,
            size,
          )))

  length-new_content : length new_content ≡ (file_count content + 2) * 64
  unfolding new_content
  length-new_content =
      let count = (file_count content + 1) % 2 ^ 32 in
      let position = count * 64 % 2 ^ 32 in
      let room = resize (position + 64) content in
      let full = length-resize (position + 64) content in
      let head = length-store 4 (hton 4 count) in
      let laid = length-overlay position meta room (omega (arith, full, size)) in
      omega (
        arith,
        length-overlay 0 (store 4 (hton 4 count)) (overlay position meta room)
            (omega (arith, laid, full, head)),
        laid,
        full,
      )

  file_count-new_content : file_count new_content ≡ file_count content + 1
  unfolding new_content overlay
  file_count-new_content =
      let counted : (file_count content + 1) % 2 ^ 32 ≡ file_count content + 1 = omega arith in
      file_count-front ((file_count content + 1) % 2 ^ 32) _ (omega arith) ∙ counted

  addfile-writes :
      64 ≤ length content
      → file_count content * 64 ≤ length content
      → start_meta_addfile content meta ≡ write_content new_content
  unfolding start_meta_addfile
  addfile-writes some_bytes enough =
      let a : ltb (length content) 64 ≡ false = ground arith in
      let b : ltb (length content) (file_count content * 64) ≡ false = ground arith in
      rw a (rw b (rw add_entry-fits refl))

  -- Adding a file, by the 64 bytes of its entry, to a directory whose content holds all its entries, with
  -- fewer than 2 ^ 32 bytes when there is one more: the new content has the size of the entries with the
  -- new one, the count is one more, byte `i` of the new entry is that of the given one, and byte `k`
  -- of the old content, behind the count and up to the end of the last entry, is what it was.
  pub new_entry_stored :
      (i k : ℕ)
      → i < 64
      → 4 ≤ k
      → k < (file_count content + 1) * 64
      → (file_count content + 1) * 64 ≤ length content
      → (whole : Bytes) × (start_meta_addfile content meta ≡ write_content whole)
        × (length whole ≡ (file_count content + 2) * 64)
        × (file_count whole ≡ file_count content + 1)
        × (get_or whole ((file_count content + 1) * 64 + i) 0 ≡ get_or meta i 0)
        × (get_or whole k 0 ≡ get_or content k 0)
  new_entry_stored i k lt le below whole =
      let position = (file_count content + 1) * 64 in
      (
        new_content,
        addfile-writes (omega arith) (omega arith),
        length-new_content,
        file_count-new_content,
        ground (arith, get_or-new_content (position + i) (omega arith)),
        ground (
          arith,
          get_or-new_content k le,
          get_or-resize_lt (position + 64) content k (omega arith),
        ),
      )

  -- Where all the entries with one more stay below 2 ^ 32 bytes, a content of exactly `file_count * 64`
  -- bytes is taken as complete, although the last entry lies behind it: the new content has zeros in
  -- that entry's place.
  pub last_entry_lost :
      (i : ℕ)
      → i < 64
      → 0 < file_count content
      → length content ≡ file_count content * 64
      → (whole : Bytes) × (start_meta_addfile content meta ≡ write_content whole)
        × (get_or whole (file_count content * 64 + i) 0 ≡ 0)
  last_entry_lost i lt pos exact = (
    new_content,
    addfile-writes (omega arith) (omega arith),
    ground (
      arith,
      get_or-new_content (file_count content * 64 + i) (omega arith),
      get_or-resize_lt ((file_count content + 1) * 64 + 64) content (file_count content * 64 + i)
          (omega arith),
      get_or-ge content (file_count content * 64 + i) 0,
    ),
  )
