-- ===== src/Backend/Phase.antt =====
-- One message to each block of a request: what a whole phase does to a block server.
use slsfs.Ssbd.Log.View.{Bytes-discrete}
use slsfs.Ssbd.Protocol.Track.{start_read_header-view, step_lift}
use slsfs.Text.{to_string}
use slsfs.Text.Decimal.{to_string-injective}
use slsfs.Ssbd.Node.View.{view}
use slsfs.Backend.Split.Blocks.{Ascending}
use slsfs.Ssbd.Key.Distinct.{as_string-IsKey, IsKey}
use slsfs.Ssbd.Key.{as_string}
use slsfs.Backend.Requests.Wire.{block_key}
use slsfs.Ssbd.Protocol.{run, Message}
use slsfs.Backend.Split.{Chunk}
use slsfs.Ssbd.Kv.{Db}
use slsfs.Bytes.{Bytes}
use slsfs.Prelude.{
  ◌^◌, if_neg, ◌∙◌, sym, map, subst, All, arith, ◌≢◌, List, ap, ◌<◌, ◌≡◌, ◌++◌, refl, some, ◌∷◌, [],
  ℕ,
}
use slsfs.Ssbd.Packet.{IsHeader}
use slsfs.Ssbd.Spec.{BlockState, step}
use slsfs.Ssbd.Node.{Node, Outcome}

append_cancel : (xs ys zs : Bytes) → xs ++ ys ≡ xs ++ zs → ys ≡ zs
append_cancel [] ys zs e = e
append_cancel (x ∷ xs) ys zs e =
    append_cancel xs ys zs (ap {B = Bytes} (elim [ [] ↦ [] | x ∷ l ↦ l ]) e)

pub block_key-distinct :
    (uuid : Bytes) (c c' : Chunk)
    → c.blockid < c'.blockid
    → c'.blockid < 2 ^ 32
    → block_key uuid c ≢ block_key uuid c'
block_key-distinct uuid c c' lt fits e = omega (
  arith,
  to_string-injective c.blockid c'.blockid (omega arith) fits
      (append_cancel uuid (to_string c.blockid) (to_string c'.blockid) e),
)

module _ (d : Db) (uuid : Bytes) (f : Chunk → Message) (g : Chunk → BlockState)
    (o : Chunk → Outcome) where
  -- The message of a chunk is one that the chunk's block takes.
  pub record Takes (n : Node d) (c : Chunk) : Type 0 where
    pub valid : IsHeader (f c).0
    pub blockid_fits : c.blockid < 2 ^ 32
    pub key : as_string (f c).0 ≡ block_key uuid c
    pub taken : step (f c).0 (f c).1 (view d n (block_key uuid c)) ≡ some (g c, o c)

  Takes-other :
      (n n' : Node d) (b : ℕ) (cs : List Chunk)
      → ((c : Chunk)
          → b < c.blockid
          → c.blockid < 2 ^ 32
          → IsKey (block_key uuid c)
          → view d n' (block_key uuid c) ≡ view d n (block_key uuid c))
      → All (λ c. b < c.blockid) cs
      → All (Takes n) cs
      → All (Takes n') cs
  Takes-other n n' b [] same later t = tt
  Takes-other n n' b (c ∷ cs) same later t =
      let hk = subst IsKey t.0.key (as_string-IsKey (f c).0 t.0.valid) in
      (
        record {
          valid = t.0.valid;
          blockid_fits = t.0.blockid_fits;
          key = t.0.key;
          taken = ap (step (f c).0 (f c).1) (same c later.0 t.0.blockid_fits hk) ∙ t.0.taken;
        },
        Takes-other n n' b cs same later.1 t.1,
      )

  pub phase :
      (n : Node d) (cs : List Chunk)
      → Ascending cs
      → All (Takes n) cs
      → (n' : Node d) × (run d n (map f cs) ≡ some (n', map o cs))
        × All (λ c. view d n' (block_key uuid c) ≡ g c) cs
        × ((j : Bytes) → IsKey j → All (λ c. block_key uuid c ≢ j) cs → view d n' j ≡ view d n j)
  unfolding run
  phase n [] up t = (n, refl, tt, λ j hj away. refl)
  phase n (c ∷ cs) up t =
      let key = block_key uuid c in
      let hk = subst IsKey t.0.key (as_string-IsKey (f c).0 t.0.valid) in
      let (n1, e1, v1) =
        step_lift d n (f c).0 (f c).1 (g c) (o c) t.0.valid
          (ap (λ k. step (f c).0 (f c).1 (view d n k)) t.0.key ∙ t.0.taken) in
      let away : (j : Bytes) → IsKey j → key ≢ j → view d n1 j ≡ view d n j = λ j hj ne.
        start_read_header-view d n n1 (f c).0 (f c).1 j (o c) t.0.valid hj e1
        ∙ if_neg (Bytes-discrete (as_string (f c).0) j) (λ e. ne (sym t.0.key ∙ e)) _ _ in
      let later =
        Takes-other n n1 c.blockid cs
          (λ c' lt fits hk'. away (block_key uuid c') hk' (block_key-distinct uuid c c' lt fits))
          up.0 t.1 in
      let (n', e, done, rest) = phase n1 cs up.1 later in
      (
        n',
        rw e1 (rw e),
        (rest key hk (apart n c cs up.0 t.1) ∙ ap (view d n1) (sym t.0.key) ∙ v1, done),
        λ j hj ne. rest j hj ne.1 ∙ away j hj ne.0,
      )
    where
      apart :
          (n : Node d) (c : Chunk) (cs : List Chunk)
          → All (λ c'. c.blockid < c'.blockid) cs
          → All (Takes n) cs
          → All (λ c'. block_key uuid c' ≢ block_key uuid c) cs
      apart n c [] up t = tt
      apart n c (c' ∷ cs) up t =
          (λ e. block_key-distinct uuid c c' up.0 t.0.blockid_fits (sym e), apart n c cs up.1 t.1)
