-- ===== src/Cache/Blocks/Hit.antt =====
-- Reads that the cache answers: with what bytes, and after which writes.
use slsfs.Prelude.{
  ◌∙◌, ◌∙◌, ltb, ap, ◌*◌, ◌-◌, Bool-cases, drop, ◌%◌, take, ◌^◌, length, arith, ◌+◌, ◌≡◌, ◌≤◌, ◌<◌,
  Bool, ◌/◌, ◌≡◌, ◌≤◌, ◌<◌, refl, inr, inl, false, none, some, ◌∷◌, [],
}
use slsfs.Bytes.{Bytes}
use slsfs.Cache.Table.{
  same_bytes, CachingMap, update_file, BlockMap, find_file, find_block, emplace_block, emplace_file,
}
use slsfs.Cache.Lru.{Entry, Cache, set}
use slsfs.Cache.Lru.Set.{IsSized, set_lem}
use slsfs.Cache.Blocks.{
  write_cached, blocksize, Request, get_block_ids, collect_blocks, read_from_cache, copy_size,
  block_data, entry_of, write_new, write_to_cache,
}
use slsfs.Cache.Blocks.Straddle.{get_block_ids-one}
use slsfs.Cache.Blocks.Evicted.{set-roomy, set-absent}
use slsfs.Proxy.Header.HeaderBytes.{same_bytes_refl}

-- A request of at most the size of a block.
pub record IsSmall (r : Request) : Type 0 where
  pub some_bytes : 0 < r.size
  pub one_block : r.size ≤ blocksize
  pub no_wrap : r.position + blocksize < 2 ^ 32

-- A cache that is large enough for any block, and whose sizes are right.
pub record HasRoom (c : Cache) : Type 0 where
  pub sized : IsSized c
  pub cap_large : blocksize ≤ c.cap
  pub cap_small : c.cap + blocksize < 2 ^ 32

ids_of : (r : Request) → IsSmall r → get_block_ids r ≡ some (r.position / blocksize ∷ [])
ids_of r v = get_block_ids-one r v.some_bytes v.one_block v.no_wrap

copy_size_small : (r : Request) → IsSmall r → copy_size r (r.position / blocksize) ≡ r.size
unfolding copy_size
copy_size_small r v = ground (arith, v.some_bytes, v.one_block)

block_data_small :
    (r : Request) (xs : Bytes)
    → IsSmall r
    → r.size ≤ length xs
    → block_data r xs (r.position / blocksize) ≡ some (take r.size xs)
unfolding block_data
block_data_small r xs v long =
    let id = r.position / blocksize in
    let nothing : (id - id) * blocksize ≡ 0 = omega arith in
    let from : drop ((id - id) * blocksize) xs ≡ xs = ap (λ n. drop n xs) nothing in
    let enough : ltb (length xs) r.size ≡ false = ground arith in
    rw (copy_size_small r v) (rw from (rw enough refl))

set_fits :
    (e : Entry) (c : Cache)
    → HasRoom c
    → e.data_size ≤ blocksize
    → (c' : Cache) × (set e c ≡ some c') × HasRoom c'
set_fits e c room fits =
    let (c', q, nodes, sized, cap) =
      set_lem e c room.sized (omega (arith, room.cap_large)) (omega (arith, room.cap_small)) in
    (
      c',
      q,
      record {
        sized = sized;
        cap_large = omega (arith, cap, room.cap_large);
        cap_small = omega (arith, cap, room.cap_small);
      },
    )

-- A read of at most a block's size is answered with the whole block in which it starts, if that is
-- cached, wherever in the block it starts and whatever its size is.
pub read_hit :
    (fifo : Bool) (r : Request) (c : Cache) (blocks : BlockMap) (buf : Bytes)
    → IsSmall r
    → HasRoom c
    → length buf ≤ blocksize
    → find_file r.uuid c.files ≡ some blocks
    → find_block (r.position / blocksize) blocks ≡ some buf
    → (c' : Cache) × (read_from_cache fifo r c ≡ some (c', some buf))
unfolding read_from_cache collect_blocks
read_hit fifo r c blocks buf v room short file block =
    let used : Entry = record {
      file_key = r.uuid;
      block_id = r.position / blocksize;
      data_size = length buf % 2 ^ 32;
    } in
    let (c', q, kept) = set_fits used c room (omega arith) in
    elim (Bool-cases fifo) [
      | inl on ↦ (
        c,
        rw (file, read_from_cache) (rw (ids_of r v) (rw (block, collect_blocks) (rw on refl))),
      )
      | inr off ↦ (
        c',
        rw (file, read_from_cache)
            (rw (ids_of r v) (rw (block, collect_blocks) (rw off (rw q refl)))),
      )
    ]

-- A write of at most a block's size to a file that is not cached puts its bytes into the cache.
pub write_fresh :
    (r : Request) (xs : Bytes) (c : Cache)
    → IsSmall r
    → HasRoom c
    → r.size ≤ length xs
    → find_file r.uuid c.files ≡ none
    → (c' : Cache) × (write_to_cache r xs c ≡ some c')
      × HasRoom c'
      × (find_file r.uuid c'.files ≡ some ((r.position / blocksize, take r.size xs) ∷ []))
unfolding write_to_cache write_new entry_of emplace_block emplace_file find_block find_file
write_fresh r xs c v room long fresh =
    let id = r.position / blocksize in
    let size : copy_size r id ≤ blocksize = omega (arith, copy_size_small r v, v.one_block) in
    let (c1, q, room1) = set_fits (entry_of r id) c room size in
    let gone = set-absent r.uuid (entry_of r id) c c1 fresh q in
    let blocks : BlockMap = (id, take r.size xs) ∷ [] in
    let c2 : Cache = record c1 { files = (r.uuid, blocks) ∷ c1.files } in
    (
      c2,
      rw (ids_of r v, write_to_cache)
          (rw fresh (rw (block_data_small r xs v long) (rw q (rw (gone, emplace_file) refl)))),
      record { sized = room1.sized; cap_large = room1.cap_large; cap_small = room1.cap_small },
      rw (same_bytes_refl r.uuid) refl,
    )

pub find_file-updated :
    (f : Bytes) (old new : BlockMap) (files : CachingMap)
    → find_file f files ≡ some old
    → find_file f (update_file f new files) ≡ some new
unfolding find_file update_file
find_file-updated f old new [] h = absurd (cc)
find_file-updated f old new ((key, blocks) ∷ files) h = elim (Bool-cases (same_bytes f key)) [
  | inl on ↦ rw (on, update_file) (rw on refl)
  | inr off ↦
      let rest : find_file f files ≡ some old = rw (off, find_file) at h in
      rw (off, update_file) (rw (off, find_file) (find_file-updated f old new files rest))
]

-- A write of at most a block's size to a block that is cached leaves the old bytes there, where the cache
-- has room and drops nothing.
pub write_again :
    (r : Request) (xs old : Bytes) (c : Cache) (blocks : BlockMap)
    → IsSmall r
    → HasRoom c
    → r.size ≤ length xs
    → c.cur_size + r.size ≤ c.cap
    → find_file r.uuid c.files ≡ some blocks
    → find_block (r.position / blocksize) blocks ≡ some old
    → (c' : Cache) × (write_to_cache r xs c ≡ some c')
      × HasRoom c'
      × (find_file r.uuid c'.files ≡ some blocks)
unfolding write_to_cache write_cached entry_of emplace_block
write_again r xs old c blocks v room long free file block =
    let id = r.position / blocksize in
    let size : copy_size r id ≤ blocksize = omega (arith, copy_size_small r v, v.one_block) in
    let (c1, q, room1) = set_fits (entry_of r id) c room size in
    let same : c1.files ≡ c.files =
      set-roomy (entry_of r id) c c1 (omega (arith, copy_size_small r v, free))
        (omega (arith, room.cap_small)) q in
    let file1 : find_file r.uuid c1.files ≡ some blocks = ap (find_file r.uuid) same ∙ file in
    let c2 : Cache = record c1 { files = update_file r.uuid blocks c1.files } in
    let kept : emplace_block id (take r.size xs) blocks ≡ blocks = rw (block, emplace_block) refl in
    (
      c2,
      rw (ids_of r v, write_to_cache)
          (rw file (rw (block_data_small r xs v long) (rw q (rw file1 (rw kept refl))))),
      record { sized = room1.sized; cap_large = room1.cap_large; cap_small = room1.cap_small },
      find_file-updated r.uuid blocks blocks c1.files file1,
    )
