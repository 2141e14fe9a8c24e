-- ===== src/Ssbd/Protocol/Track.antt =====
-- After any sequence of messages each block is where the specification takes it by its own messages.
use slsfs.Prelude.{
  >>=-some, if_neg, sym, ◌∙◌, if_pos, some_inj, ap, ite, Option, All, ◌≡◌, List, refl, none, some,
  ◌∷◌, [],
}
use slsfs.Bytes.{Bytes}
use slsfs.Ssbd.Packet.{Header, IsHeader}
use slsfs.Ssbd.Kv.{Db}
use slsfs.Ssbd.Key.{as_string}
use slsfs.Ssbd.Key.Distinct.{IsKey, as_string-IsKey}
use slsfs.Ssbd.Log.View.{Bytes-discrete}
use slsfs.Ssbd.Node.{Node, Outcome, start_read_header}
use slsfs.Ssbd.Node.View.{view}
use slsfs.Ssbd.Node.Refine.{seen, placed}
use slsfs.Ssbd.Node.Simulation.{start_read_header_refines}
use slsfs.Ssbd.Spec.{BlockState, step}
use slsfs.Ssbd.Protocol.{Message, run, after, track}

abbrev pub AllHeaders : List Message → Type 0
AllHeaders = All (λ m. IsHeader m.0)

placed-after :
    (k j : Bytes) (w b : BlockState) (v : BlockState) (o : Outcome)
    → (k ≡ j → b ≡ w)
    → (s : Option (BlockState × Outcome)) → some (v, o) ≡ placed k j w s
    → v ≡ ite (Bytes-discrete k j) (after b s) w
placed-after k j w b v o same none e = cc
placed-after k j w b v o same (some (b', o')) e = ap (λ p. p.0) (some_inj e)

seen-some :
    (d : Db) (j : Bytes) (s : Option (Node d × Outcome)) (b : BlockState) (o : Outcome)
    → seen d j s ≡ some (b, o)
    → (n : Node d) × (s ≡ some (n, o)) × (view d n j ≡ b)
seen-some d j none b o e = cc
seen-some d j (some (n, o')) b o e =
    let q = some_inj e in (n, ap (λ x. some (n, x)) (ap (λ p. p.1) q), ap (λ p. p.0) q)

module _ (d : Db) where
  -- One message, seen at any block.
  pub start_read_header-view :
      (n n' : Node d) (h : Header) (body j : Bytes) (o : Outcome)
      → IsHeader h
      → IsKey j
      → start_read_header d n h body ≡ some (n', o)
      → view d n' j
        ≡ ite
            (Bytes-discrete (as_string h) j)
            (after (view d n j) (step h body (view d n j)))
            (view d n j)
  start_read_header-view n n' h body j o v hj e =
      let key = as_string h in
      placed-after key j (view d n j) (view d n key) (view d n' j) o (ap (view d n))
        (step h body (view d n key))
        (ap (seen d j) (sym e) ∙ start_read_header_refines d n h body j v hj)
      ∙ elim (Bytes-discrete key j) [ yes q ↦ rw q | no q ↦ rw (if_neg _ q) (rw (if_neg _ q)) ]

  -- One message that the specification can take, seen at the block that it names.
  pub step_lift :
      (n : Node d) (h : Header) (body : Bytes) (b : BlockState) (o : Outcome)
      → IsHeader h
      → step h body (view d n (as_string h)) ≡ some (b, o)
      → (n' : Node d) × (start_read_header d n h body ≡ some (n', o))
        × (view d n' (as_string h) ≡ b)
  step_lift n h body b o v e =
      let key = as_string h in
      let hk = as_string-IsKey h v in
      let same : seen d key (start_read_header d n h body) ≡ some (b, o) =
        start_read_header_refines d n h body key v hk
        ∙ ap (placed key key (view d n key)) e
        ∙ ap (λ x. some (x, o)) (if_pos (Bytes-discrete key key) refl _ _) in
      seen-some d key (start_read_header d n h body) b o same

  -- After any sequence of messages with valid headers that the server takes, each block is where
  -- the specification takes it by the messages that name it.
  pub run-track :
      (ms : List Message) (n n' : Node d) (os : List Outcome) (j : Bytes)
      → AllHeaders ms
      → IsKey j
      → run d n ms ≡ some (n', os)
      → view d n' j ≡ track j (view d n j) ms
  unfolding run track
  run-track [] n n' os j v hj e = ap (λ p. view d p.0 j) (some_inj (sym e))
  run-track ((h, body) ∷ ms) n n' os j v hj e =
      let ((n1, o1), e1, e2) = >>=-some (start_read_header d n h body) _ (n', os) e in
      let ((n2, os2), e3, e4) = >>=-some (run d n1 ms) _ (n', os) e2 in
      run-track ms n1 n' os2 j v.1 hj (e3 ∙ ap (λ p. some (p, os2)) (ap (λ p. p.0) (some_inj e4)))
      ∙ ap (λ b. track j b ms) (start_read_header-view n n1 h body j o1 v.0 hj e1)
