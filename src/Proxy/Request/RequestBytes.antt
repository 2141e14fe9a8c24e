-- ===== src/Proxy/Request/RequestBytes.antt =====
-- A request is read back as it was written.
use slsfs.Bytes.{hton, store, Bytes}
use slsfs.Proxy.Request.{FileRequest, request_data, request_bytes, copy_request, bytes_at}
use slsfs.Prelude.{
  drop-append, arith, drop-drop, sym, ◌∙◌, append_assoc, take, ap, drop, ◌+◌, take-append, ◌^◌, ◌<◌,
  ◌++◌, length, ◌≡◌, refl, ℕ,
}
use slsfs.Bytes.Laws.{length-store, ntoh-load-store}

drop-skip : (x rest : Bytes) (a k : ℕ) → a ≡ length x + k → drop a (x ++ rest) ≡ drop k rest
drop-skip x rest a k e =
    ap (λ m. drop m (x ++ rest)) e
    ∙ sym (drop-drop (length x) k (x ++ rest))
    ∙ ap (drop k) (drop-append x rest (length x) refl)

skip :
    (x rest : Bytes) (a k n : ℕ) → a ≡ length x + k → bytes_at a n (x ++ rest) ≡ bytes_at k n rest
unfolding bytes_at
skip x rest a k n e = ap (take n) (drop-skip x rest a k e)

here : (x rest : Bytes) (n : ℕ) → n ≡ length x → bytes_at 0 n (x ++ rest) ≡ x
unfolding bytes_at
here x rest n e = take-append x rest n e

-- Reading a request gives the request that was written, and its data is what follows it, where the
-- fields fit their types.
pub copy_request-request_bytes :
    (padding : Bytes) (r : FileRequest) (rest : Bytes)
    → length padding ≡ 2
    → r.type < 2 ^ 8
    → r.operation < 2 ^ 8
    → r.position < 2 ^ 32
    → r.size < 2 ^ 32
    → (copy_request (request_bytes padding r ++ rest) ≡ r)
      × (request_data (request_bytes padding r ++ rest) ≡ rest)
unfolding copy_request request_bytes request_data
copy_request-request_bytes padding r rest pad t o p s =
    let a = store 1 (hton 1 r.type) in
    let b = store 1 (hton 1 r.operation) in
    let c = store 4 (hton 4 r.position) in
    let e = store 4 (hton 4 r.size) in
    let la : length a ≡ 1 = length-store 1 (hton 1 r.type) in
    let lb : length b ≡ 1 = length-store 1 (hton 1 r.operation) in
    let lc : length c ≡ 4 = length-store 4 (hton 4 r.position) in
    let le : length e ≡ 4 = length-store 4 (hton 4 r.size) in
    let tail = padding ++ (c ++ (e ++ rest)) in
    let flat : request_bytes padding r ++ rest ≡ a ++ (b ++ tail) = simp append_assoc in
    let first = here a (b ++ tail) 1 (sym la) in
    let second = skip a (b ++ tail) 1 0 1 (omega arith) ∙ here b tail 1 (sym lb) in
    let third =
      skip a (b ++ tail) 4 3 4 (omega arith)
      ∙ skip b tail 3 2 4 (omega arith)
      ∙ skip padding (c ++ (e ++ rest)) 2 0 4 (omega arith)
      ∙ here c (e ++ rest) 4 (sym lc) in
    let fourth =
      skip a (b ++ tail) 8 7 4 (omega arith)
      ∙ skip b tail 7 6 4 (omega arith)
      ∙ skip padding (c ++ (e ++ rest)) 6 4 4 (omega arith)
      ∙ skip c (e ++ rest) 4 0 4 (omega arith)
      ∙ here e rest 4 (sym le) in
    let left =
      drop-skip a (b ++ tail) 12 11 (omega arith)
      ∙ drop-skip b tail 11 10 (omega arith)
      ∙ drop-skip padding (c ++ (e ++ rest)) 10 8 (omega arith)
      ∙ drop-skip c (e ++ rest) 8 4 (omega arith)
      ∙ drop-skip e rest 4 0 (omega arith) in
    (
      rw flat (
          rw (first, second, third, fourth)
            (rw
              (
                ntoh-load-store 1 r.type t,
                ntoh-load-store 1 r.operation o,
                ntoh-load-store 4 r.position p,
                ntoh-load-store 4 r.size s,
              )
              refl)),
      rw flat left,
    )
