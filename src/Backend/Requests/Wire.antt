-- ===== src/Backend/Requests/Wire.antt =====
-- A block server reads the packets of a request as they were meant.
use slsfs.Ssbd.Packet.RoundTrip.{msg_of-code}
use slsfs.Ssbd.Key.{as_string}
use slsfs.Text.{to_string}
use slsfs.Backend.Requests.{
  read_request, commit_request, start_send_request, prepare_request, sent_message, create_request,
}
use slsfs.Ssbd.Protocol.{Message}
use native.Mathlib.Nat
use slsfs.Backend.Split.Tiles.{Tiles-le, split-Tiles, Tiles}
use slsfs.Bytes.{IsByte, Bytes}
use slsfs.Backend.Split.{split, Chunk, chunk_data}
use slsfs.Prelude.{
  subst, length-drop, Bool-cases, drop, length-take, ◌==◌, ◌*◌, ap, ◌%◌, arith, ◌++◌, ◌-◌, Bool,
  ◌≤◌, ◌+◌, All, ◌≡◌, ◌^◌, List, length, ◌<◌, if◌then◌else◌, refl, inr, inl, false, true, some, ◌∷◌,
  [], ℕ,
}
use slsfs.Ssbd.Packet
use slsfs.Ssbd.Packet.{msg_of, code, serialize, IsHeader, Msg, Header, Packet}

-- What the packets of a request rely on: a salt of four bytes, a file name of 32, and block sizes
-- that `position` can index.
pub record IsRequest (salt : Msg → Chunk → Bytes) (uuid : Bytes) (version bs pos size : ℕ)
    : Type 0 where
  pub salt_size : (m : Msg) (c : Chunk) → length (salt m c) ≡ 4
  pub salt_bytes : (m : Msg) (c : Chunk) → All IsByte (salt m c)
  pub uuid_size : length uuid ≡ 32
  pub uuid_bytes : All IsByte uuid
  pub version_fits : version < 2 ^ 32
  pub blocks : 0 < bs
  pub offset_fits : bs ≤ 2 ^ 16
  pub in_range : pos + size < 2 ^ 32

-- A chunk whose fields the header can hold, inside the request's data of `size` bytes.
pub record ChunkFits (size : ℕ) (c : Chunk) : Type 0 where
  pub blockid_fits : c.blockid < 2 ^ 32
  pub offset_fits : c.offset < 2 ^ 16
  pub size_fits : c.size < 2 ^ 32
  pub in_data : c.start + c.size ≤ size
  pub inside_block : c.offset + c.size ≤ 2 ^ 16

Tiles-ChunkFits :
    (bs p end start size : ℕ) (cs : List Chunk)
    → 0 < bs
    → bs ≤ 2 ^ 16
    → end < 2 ^ 32
    → start + (end - p) ≤ size
    → Tiles bs p end start cs
    → All (ChunkFits size) cs
Tiles-ChunkFits bs p end start size [] b small fits room t = tt
Tiles-ChunkFits bs p end start size (c ∷ cs) b small fits room
      (at, from, some_bytes, inside, full, t) =
    let le = Tiles-le bs (p + c.size) end (start + c.size) cs t in
    let below : c.blockid ≤ c.blockid * bs = Nat.le-mul_of_pos_right c.blockid b in
    (
      record {
        blockid_fits = omega (arith, le, below);
        offset_fits = omega arith;
        size_fits = omega (arith, le);
        in_data = omega (arith, le);
        inside_block = omega arith;
      },
      Tiles-ChunkFits bs (p + c.size) end (start + c.size) size cs b small fits (omega (arith, le))
          t,
    )

-- The file's block that a chunk names, as the block servers name it.
abbrev pub block_key : Bytes → Chunk → Bytes
block_key uuid c = uuid ++ to_string c.blockid

-- A message to the chunk's block, at the chunk's offset.
pub record IsMessage (uuid : Bytes) (c : Chunk) (type : Msg) (size : ℕ) (m : Message) : Type 0 where
  pub valid : IsHeader m.0
  pub key : as_string m.0 ≡ block_key uuid c
  pub kind : msg_of m.0.type ≡ some type
  pub at_offset : m.0.position ≡ c.offset
  pub size_sent : m.0.datasize ≡ size

pub code-lt : (m : Msg) → code m < 2 ^ 16
unfolding code
code-lt m = ground arith

module _ (salt : Msg → Chunk → Bytes) (uuid : Bytes) (version bs pos size : ℕ)
    (r : IsRequest salt uuid version bs pos size) where
  pub split-ChunkFits : All (ChunkFits size) (split bs pos size)
  split-ChunkFits =
      Tiles-ChunkFits bs pos (pos + size) 0 size (split bs pos size) r.blocks r.offset_fits
        r.in_range (omega arith) (split-Tiles bs pos size r.blocks r.in_range)

  create-IsMessage :
      (c : Chunk) (type : Msg) (v n : ℕ) (body : Bytes)
      → ChunkFits size c
      → v < 2 ^ 32
      → n < 2 ^ 32
      → IsMessage uuid c type n
          ((create_request (salt type c) uuid type v c.blockid c.offset n).header, body)
  unfolding create_request as_string
  create-IsMessage c type v n body f vf nf =
      let b : c.blockid % 2 ^ 32 ≡ c.blockid = omega (arith, f.blockid_fits) in
      record {
        valid = record {
          type_fits = code-lt type;
          uuid_size = r.uuid_size;
          uuid_bytes = r.uuid_bytes;
          blockid_fits = omega arith;
          position_fits = omega arith;
          datasize_fits = omega arith;
          version_fits = vf;
          salt_size = r.salt_size type c;
          salt_bytes = r.salt_bytes type c;
        };
        key = ap (λ k. uuid ++ to_string k) b;
        kind = msg_of-code type;
        at_offset = omega (arith, f.offset_fits);
        size_sent = omega arith;
      }

  -- A serialized packet: its size is that of its data.
  pub sent-IsMessage :
      (c : Chunk) (type : Msg) (v n : ℕ) (body : Bytes)
      → (code type == code Packet.get) ≡ false
      → ChunkFits size c
      → v < 2 ^ 32
      → length body < 2 ^ 32
      → let m =
          sent_message (record (create_request (salt type c) uuid type v c.blockid c.offset n) {
            data_buf = body;
          }) in
        IsMessage uuid c type (length body) m × (m.1 ≡ body)
  unfolding sent_message start_send_request serialize create_request
  sent-IsMessage c type v n body no_get f vf lf =
      rw no_get (create-IsMessage c type v (length body) body f vf lf, refl)

  pub length-chunk_data :
      (xs : Bytes) (c : Chunk)
      → length xs ≡ size
      → ChunkFits size c
      → length (chunk_data xs c) ≡ c.size
  unfolding chunk_data
  length-chunk_data xs c l f =
      omega (arith, length-take c.size (drop c.start xs), length-drop c.start xs, f.in_data)

  pub prepare-IsMessage :
      (is_checked : Chunk → Bool) (xs : Bytes) (c : Chunk)
      → length xs ≡ size
      → ChunkFits size c
      → let m = sent_message (prepare_request salt is_checked uuid version xs c) in
        IsMessage uuid c
          (if is_checked c then Packet.two_pc_prepare_quick else Packet.two_pc_prepare)
          c.size
          m
        × (m.1 ≡ chunk_data xs c)
  unfolding prepare_request code
  prepare-IsMessage is_checked xs c l f =
      let n = length-chunk_data xs c l f in
      let type = if is_checked c then Packet.two_pc_prepare_quick else Packet.two_pc_prepare in
      let no_get : (code type == code Packet.get) ≡ false = elim (Bool-cases (is_checked c)) [
        | inl on ↦ rw on
        | inr off ↦ rw off
      ] in
      let (m, same) =
        sent-IsMessage c type version c.size (chunk_data xs c) no_get f r.version_fits
          (omega (arith, n, f.size_fits)) in
      (
        subst
            (λ k.
              IsMessage uuid c type k
                (sent_message (prepare_request salt is_checked uuid version xs c)))
            n m,
        same,
      )

  pub commit-IsMessage :
      (all_agree : Bool) (c : Chunk)
      → ChunkFits size c
      → let m = sent_message (commit_request salt all_agree uuid version c) in
        IsMessage uuid c
          (if all_agree then Packet.two_pc_commit_execute else Packet.two_pc_commit_rollback)
          0
          m
        × (m.1 ≡ [])
  unfolding commit_request code create_request
  commit-IsMessage true c f =
      sent-IsMessage c Packet.two_pc_commit_execute version 0 [] refl f r.version_fits (omega arith)
  commit-IsMessage false c f =
      sent-IsMessage c Packet.two_pc_commit_rollback version 0 [] refl f r.version_fits
        (omega arith)

  pub read-IsMessage :
      (c : Chunk)
      → ChunkFits size c
      → let m = sent_message (read_request salt uuid c) in
        IsMessage uuid c Packet.get c.size m × (m.1 ≡ [])
  unfolding read_request sent_message start_send_request create_request code
  read-IsMessage c f = (create-IsMessage c Packet.get 0 c.size [] f (omega arith) f.size_fits, refl)
