-- ===== src/Backend/Coordinator/Count.antt =====
-- One reply and one decision for each write whose requests are all sent before the responses come.
use slsfs.Backend.Coordinator.{
  timed_out, found_pending, on_timer, ok, start, finish, agrees, Write, on_response, send,
  respond_all, send_all,
}
use slsfs.Prelude.{
  ap₂, ◌==◌, ◌∙◌, arith, ap, ◌-◌, ◌+◌, ◌&&◌, ◌<◌, ◌≡◌, length, Bool, Option, List, if◌then◌else◌,
  refl, suc, zero, false, true, some, ◌∷◌, [], ℕ,
}
use slsfs.Ssbd.Packet
use slsfs.Ssbd.Packet.{Msg}

-- Whether every response agrees.
abbrev pub unanimous : List (Option Msg) → Bool
unanimous [] = true
unanimous (t ∷ ts) = agrees t && unanimous ts

send_all-lem : (n : ℕ) (w : Write) → send_all n w ≡ record w { outstanding = w.outstanding + n }
unfolding send_all send
send_all-lem zero w = ap (λ k. record w { outstanding = k }) (omega arith)
send_all-lem (suc n) w =
    send_all-lem n (send w) ∙ ap (λ k. record w { outstanding = k }) (omega arith)

voted : Option Msg → Write → Write
voted t w = record w {
  outstanding = w.outstanding - 1;
  all_ssbd_agree = w.all_ssbd_agree && agrees t;
}

vote : (b a : Bool) → (if a then b else false) ≡ (b && a)
vote b a = ground arith

-- A response that leaves some request open changes the counter and the vote, and nothing else.
on_response-open : (t : Option Msg) (w : Write) → 1 < w.outstanding → on_response t w ≡ voted t w
unfolding on_response voted
on_response-open t w open_left =
    let not_last : (w.outstanding - 1 == 0) ≡ false = ground arith in
    rw not_last (
      ap (λ b. record w { outstanding = w.outstanding - 1; all_ssbd_agree = b })
        (vote w.all_ssbd_agree (agrees t)))

on_response-last :
    (t : Option Msg) (w : Write) → w.outstanding ≡ 1 → on_response t w ≡ finish (voted t w)
unfolding on_response voted
on_response-last t w e =
    let last : (w.outstanding - 1 == 0) ≡ true = ground arith in
    rw last (
      ap (λ b. finish (record w { outstanding = w.outstanding - 1; all_ssbd_agree = b }))
        (vote w.all_ssbd_agree (agrees t)))

-- The last of the responses decides.
pub respond_all-last :
    (t : Option Msg) (ts : List (Option Msg)) (w : Write)
    → suc (length ts) ≡ w.outstanding
    → respond_all (t ∷ ts) w
      ≡ finish
          (record w { outstanding = 0; all_ssbd_agree = w.all_ssbd_agree && unanimous (t ∷ ts) })
unfolding respond_all voted
respond_all-last t [] w e =
    on_response-last t w (omega arith)
    ∙ ap₂ (λ k b. finish (record w { outstanding = k; all_ssbd_agree = b })) (omega arith)
        (ground arith)
respond_all-last t (u ∷ ts) w e =
    ap (respond_all (u ∷ ts)) (on_response-open t w (omega arith))
    ∙ respond_all-last u ts (voted t w) (omega arith)
    ∙ ap (λ b. finish (record w { outstanding = 0; all_ssbd_agree = b })) (ground arith)

sent :
    (n : ℕ) (checked : Bool)
    → send_all n (start checked) ≡ record (start checked) { outstanding = n }
unfolding start
sent n checked =
    send_all-lem n (start checked)
    ∙ ap (λ k. record (start checked) { outstanding = k }) (omega arith)

-- When all requests of a write are sent before a response comes, the responses, one for each
-- request, give exactly one reply and one decision: `OK` and commit when all of them agree, the error
-- and rollback when one does not.
pub one_decision :
    (t : Option Msg) (ts : List (Option Msg)) (checked : Bool)
    → let w = respond_all (t ∷ ts) (send_all (suc (length ts)) (start checked)) in
      let agreed = unanimous (t ∷ ts) in
      (w.replies ≡ (if agreed then ok else found_pending) ∷ [])
      × (w.commits ≡ agreed ∷ [])
      × (w.is_checked ≡ agreed)
      × (w.timer_waits ≡ false)
      × (w.outstanding ≡ 0)
unfolding start finish
one_decision t ts checked =
    let e =
      ap (respond_all (t ∷ ts)) (sent (suc (length ts)) checked)
      ∙ respond_all-last t ts (record (start checked) { outstanding = suc (length ts) }) refl in
    (
      ap (λ w. w.replies) e,
      ap (λ w. w.commits) e,
      ap (λ w. w.is_checked) e,
      ap (λ w. w.timer_waits) e,
      ap (λ w. w.outstanding) e,
    )

-- A response that comes before the next request is sent is taken for the last one: the write is
-- answered `OK` and committed on it alone, and answered and decided once more later.
pub early_response_decides_twice :
    (t : Option Msg) (checked : Bool)
    → let w =
        on_response t
          (send (on_response (some Packet.two_pc_prepare_agree) (send (start checked)))) in
      (w.replies ≡ ok ∷ (if agrees t then ok else found_pending) ∷ [])
      × (w.commits ≡ true ∷ agrees t ∷ [])
unfolding start finish send on_response agrees voted
early_response_decides_twice t checked =
    let w1 = finish (voted (some Packet.two_pc_prepare_agree) (send (start checked))) in
    let e1 = on_response-last (some Packet.two_pc_prepare_agree) (send (start checked)) refl in
    let e2 = ap (λ w. on_response t (send w)) e1 ∙ on_response-last t (send w1) refl in
    (ap (λ w. w.replies) e2, ap (λ w. w.commits) e2)

-- After its timer has run out a write is answered a second time by its last response.
pub late_response_replies_twice :
    (t : Option Msg) (ts : List (Option Msg)) (checked : Bool)
    → let w = respond_all (t ∷ ts) (on_timer (send_all (suc (length ts)) (start checked))) in
      w.replies ≡ timed_out ∷ (if unanimous (t ∷ ts) then ok else found_pending) ∷ []
unfolding start finish on_timer
late_response_replies_twice t ts checked =
    ap (λ w. (respond_all (t ∷ ts) (on_timer w)).replies) (sent (suc (length ts)) checked)
    ∙ ap (λ w. w.replies)
        (respond_all-last t ts (on_timer (record (start checked) { outstanding = suc (length ts) }))
          refl)
