-- ===== src/DataFunction/Cached.antt =====
-- Requests of a data function with a cache: what a read is answered with after a write.
use slsfs.Prelude.{
  ==_refl, ◌∙◌, length-take, ◌∙◌, arith, ap, ◌+◌, ◌/◌, ◌≤◌, ◌+◌, ◌/◌, ◌≤◌, ◌≡◌, length, take, ◌≡◌,
  refl, false, true, none, some, ◌∷◌, [],
}
use slsfs.Bytes.{Bytes}
use slsfs.Cache.Table.{BlockMap, find_file, find_block}
use slsfs.Cache.Lru.{Cache}
use slsfs.Cache.Blocks.{blocksize, read_from_cache, write_to_cache}
use slsfs.Cache.Blocks.Hit.{write_again, IsSmall, HasRoom, read_hit, write_fresh}
use slsfs.Proxy.Request.{request_data}
use slsfs.DataFunction.Command.{
  Settings, CommandPacket, ProxyCommand, BackendCall, request_of, is_file, is_write, write_packet,
  send_response, cached_file, read_or_ask, start_storage_perform, put_in_cache, on_storage_answer,
}

-- A write of at most a block's size, whose packet has its data.
pub record IsSmallWrite (p : CommandPacket) : Type 0 where
  pub a_file : is_file p ≡ true
  pub a_write : is_write p ≡ true
  pub small : IsSmall (request_of p)
  pub long : (request_of p).size ≤ length (request_data p.buf)

-- A read of at most a block's size that starts in the same block of the same file.
pub record IsReadOf (q p : CommandPacket) : Type 0 where
  pub a_file : is_file q ≡ true
  pub a_read : is_write q ≡ false
  pub small : IsSmall (request_of q)
  pub same_uuid : (request_of q).uuid ≡ (request_of p).uuid
  pub same_block : (request_of q).position / blocksize ≡ (request_of p).position / blocksize

-- The bytes that a write has for its block.
abbrev pub written_by : CommandPacket → Bytes
written_by p = take (request_of p).size (request_data p.buf)

-- The callback of a write's answer in one go.
answered :
    (settings : Settings) (p : CommandPacket) (answer : Bytes) (s : ProxyCommand) (c : Cache)
    → settings.enable_cache ≡ true
    → is_write p ≡ true
    → write_to_cache (request_of p) (request_data p.buf) s.cache ≡ some c
    → on_storage_answer settings (BackendCall.perform_file p) answer s
      ≡ some (record (send_response p answer s) { cache = c })
unfolding on_storage_answer put_in_cache send_response write_packet
answered settings p answer s c on w q =
    rw (on, on_storage_answer) (rw w (rw (q, put_in_cache) refl))

-- A read that the cache answers.
served :
    (settings : Settings) (q : CommandPacket) (s : ProxyCommand) (c : Cache) (buf : Bytes)
    → is_file q ≡ true
    → is_write q ≡ false
    → read_from_cache settings.fifo (request_of q) s.cache ≡ some (c, some buf)
    → start_storage_perform settings q s
      ≡ some (send_response q buf (record s { cache = c; cache_hits = s.cache_hits + 1 }))
unfolding start_storage_perform cached_file read_or_ask send_response write_packet
served settings q s c buf f r h = rw (f, start_storage_perform) (rw r (rw (h, cached_file) refl))

-- A read of a cached block.
served_block :
    (settings : Settings) (p q : CommandPacket) (s : ProxyCommand) (blocks : BlockMap) (buf : Bytes)
    → IsReadOf q p
    → HasRoom s.cache
    → length buf ≤ blocksize
    → find_file (request_of p).uuid s.cache.files ≡ some blocks
    → find_block ((request_of p).position / blocksize) blocks ≡ some buf
    → (c : Cache) × (start_storage_perform settings q s
        ≡ some (send_response q buf (record s { cache = c; cache_hits = s.cache_hits + 1 })))
served_block settings p q s blocks buf v room short file block =
    let (c, h) =
      read_hit settings.fifo (request_of q) s.cache blocks buf v.small room short
        (ap (λ u. find_file u s.cache.files) v.same_uuid ∙ file)
        (ap (λ b. find_block b blocks) v.same_block ∙ block) in
    (c, served settings q s c buf v.a_file v.a_read h)

-- With the cache enabled and large enough for any block: after the backend's answer to a write of 1 to 4096
-- bytes to a file that is not cached, an error too, a read of 1 to 4096 bytes that starts in the same
-- block is answered from the cache with the bytes of the write, and the backend is not asked.
pub unconfirmed_write_served :
    (settings : Settings) (p q : CommandPacket) (answer : Bytes) (s : ProxyCommand)
    → settings.enable_cache ≡ true
    → IsSmallWrite p
    → IsReadOf q p
    → HasRoom s.cache
    → find_file (request_of p).uuid s.cache.files ≡ none
    → (t : ProxyCommand) × (u : ProxyCommand) × (on_storage_answer settings
          (BackendCall.perform_file p)
          answer
          s
        ≡ some t)
      × (start_storage_perform settings q t ≡ some u)
      × (u.sent ≡ (send_response q (written_by p) t).sent)
      × (u.asked ≡ s.asked)
unfolding send_response write_packet find_block
unconfirmed_write_served settings p q answer s on w v room fresh =
    let r = request_of p in
    let xs = request_data p.buf in
    let (c, e, room1, file) = write_fresh r xs s.cache w.small room w.long fresh in
    let t : ProxyCommand = record (send_response p answer s) { cache = c } in
    let short : length (written_by p) ≤ blocksize =
      omega (arith, length-take r.size xs, w.small.one_block) in
    let (c', e') =
      served_block settings p q t ((r.position / blocksize, written_by p) ∷ []) (written_by p) v
        room1 short file (rw (==_refl (r.position / blocksize)) refl) in
    (
      t,
      send_response q (written_by p) (record t { cache = c'; cache_hits = t.cache_hits + 1 }),
      answered settings p answer s c on w.a_write e,
      e',
      refl,
      refl,
    )

-- With the cache enabled and large enough for any block: after a write of 1 to 4096 bytes to a block that
-- is cached, where the cache has room for one block more, so that neither the write nor the read drops
-- anything, a read of 1 to 4096 bytes that starts in the block is still answered from the cache with the bytes before the write, whatever the backend answered, and
-- the backend is not asked.
pub overwritten_block_stale :
    (settings : Settings) (p q : CommandPacket) (answer old : Bytes) (s : ProxyCommand)
    (blocks : BlockMap)
    → settings.enable_cache ≡ true
    → IsSmallWrite p
    → IsReadOf q p
    → HasRoom s.cache
    → s.cache.cur_size + blocksize ≤ s.cache.cap
    → find_file (request_of p).uuid s.cache.files ≡ some blocks
    → find_block ((request_of p).position / blocksize) blocks ≡ some old
    → length old ≤ blocksize
    → (t : ProxyCommand) × (u : ProxyCommand) × (on_storage_answer settings
          (BackendCall.perform_file p)
          answer
          s
        ≡ some t)
      × (start_storage_perform settings q t ≡ some u)
      × (u.sent ≡ (send_response q old t).sent)
      × (u.asked ≡ s.asked)
unfolding send_response write_packet
overwritten_block_stale settings p q answer old s blocks on w v room free file block short =
    let (c, e, room1, file1) =
      write_again (request_of p) (request_data p.buf) old s.cache blocks w.small room w.long
        (omega (arith, free, w.small.one_block)) file block in
    let t : ProxyCommand = record (send_response p answer s) { cache = c } in
    let (c', e') = served_block settings p q t blocks old v room1 short file1 block in
    (
      t,
      send_response q old (record t { cache = c'; cache_hits = t.cache_hits + 1 }),
      answered settings p answer s c on w.a_write e,
      e',
      refl,
      refl,
    )
