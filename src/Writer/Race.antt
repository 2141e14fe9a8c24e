-- ===== src/Writer/Race.antt =====
-- `v1::socket_writer` of proxy/socket-writer.hpp with calls and callbacks on several threads, which take
-- turns after each access to the queue or the flag.
use slsfs.Prelude.{◌≢◌, sym, ◌≢◌, ◌++◌, ◌++◌, ◌≡◌, ◌≡◌, Bool, List, refl, false, true, ◌∷◌, []}
use slsfs.Bytes.{Bytes}

-- What a thread does next: in `start_write_socket` the push, the test of the flag and the store; in
-- `start_write_one_packet` `try_pop` with the write that follows, or the store when it found nothing.
pub data Pc : Type 0 where
  push : Bytes → Pc
  test : Pc
  set_flag : Pc
  try_pop : Pc
  clear_flag : Pc

pub record SharedWriter : Type 0 where
  pub queue : List Bytes
  pub is_writing : Bool
  pub in_flight : List Bytes
  pub ended : List Bytes
  pub threads : List Pc

abbrev pub new_writer : SharedWriter
new_writer = record { queue = []; is_writing = false; in_flight = []; ended = []; threads = [] }

-- One access of one thread, a new call, or the callback of a write that ended well.
pub data Access (s : SharedWriter) : SharedWriter → Type 0 where
  call : (p : Bytes) → Access s (record s { threads = Pc.push p ∷ s.threads })
  pushes :
      (p : Bytes) (xs ys : List Pc)
      → s.threads ≡ xs ++ (Pc.push p ∷ ys)
      → Access s (record s { queue = s.queue ++ (p ∷ []); threads = xs ++ (Pc.test ∷ ys) })
  sees_busy :
      (xs ys : List Pc)
      → s.threads ≡ xs ++ (Pc.test ∷ ys)
      → s.is_writing ≡ true
      → Access s (record s { threads = xs ++ ys })
  sees_idle :
      (xs ys : List Pc)
      → s.threads ≡ xs ++ (Pc.test ∷ ys)
      → s.is_writing ≡ false
      → Access s (record s { threads = xs ++ (Pc.set_flag ∷ ys) })
  sets :
      (xs ys : List Pc)
      → s.threads ≡ xs ++ (Pc.set_flag ∷ ys)
      → Access s (record s { is_writing = true; threads = xs ++ (Pc.try_pop ∷ ys) })
  pops :
      (p : Bytes) (ps : List Bytes) (xs ys : List Pc)
      → s.threads ≡ xs ++ (Pc.try_pop ∷ ys)
      → s.queue ≡ p ∷ ps
      → Access s (record s { queue = ps; in_flight = s.in_flight ++ (p ∷ []); threads = xs ++ ys })
  finds_none :
      (xs ys : List Pc)
      → s.threads ≡ xs ++ (Pc.try_pop ∷ ys)
      → s.queue ≡ []
      → Access s (record s { threads = xs ++ (Pc.clear_flag ∷ ys) })
  clears :
      (xs ys : List Pc)
      → s.threads ≡ xs ++ (Pc.clear_flag ∷ ys)
      → Access s (record s { is_writing = false; threads = xs ++ ys })
  ends :
      (p : Bytes) (ps : List Bytes)
      → s.in_flight ≡ p ∷ ps
      → Access s (record s {
        in_flight = ps;
        ended = s.ended ++ (p ∷ []);
        threads = Pc.try_pop ∷ s.threads;
      })

pub data Reach (s : SharedWriter) : SharedWriter → Type 0 where
  here : Reach s s
  later : {t u : SharedWriter} → Reach s t → Access t u → Reach s u

-- The writer while it writes one packet and nothing else waits.
abbrev pub writing : Bytes → SharedWriter
writing p = record { queue = []; is_writing = true; in_flight = p ∷ []; ended = []; threads = [] }

start_write_alone : (p : Bytes) → Reach new_writer (writing p)
start_write_alone p =
    let called = later here (Access.call p) in
    let pushed = later called (Access.pushes p [] [] refl) in
    let seen = later pushed (Access.sees_idle [] [] refl refl) in
    let set = later seen (Access.sets [] [] refl) in later set (Access.pops p [] [] [] refl refl)

-- The packet `q` waits, while nothing is in flight, no thread is at work, and the flag is not set.
abbrev pub forgotten : Bytes → Bytes → SharedWriter
forgotten p q = record {
  queue = q ∷ [];
  is_writing = false;
  in_flight = [];
  ended = p ∷ [];
  threads = [];
}

forgets : (p q : Bytes) → Reach new_writer (forgotten p q)
forgets p q =
    let ended = later (start_write_alone p) (Access.ends p [] refl) in
    let none_left = later ended (Access.finds_none [] [] refl refl) in
    let called = later none_left (Access.call q) in
    let pushed = later called (Access.pushes q [] (Pc.clear_flag ∷ []) refl) in
    let busy = later pushed (Access.sees_busy [] (Pc.clear_flag ∷ []) refl refl) in
    later busy (Access.clears [] [] refl)

no_thread : (pc : Pc) (xs ys : List Pc) → xs ++ (pc ∷ ys) ≢ []
no_thread pc [] ys e = absurd (cc)
no_thread pc (x ∷ xs) ys e = absurd (cc)

only_calls :
    (p q : Bytes) (t : SharedWriter)
    → Access (forgotten p q) t
    → (r : Bytes) × (t ≡ record (forgotten p q) { threads = Pc.push r ∷ [] })
only_calls p q t (Access.call r) = (r, refl)
only_calls p q t (Access.pushes r xs ys e) = absurd (no_thread (Pc.push r) xs ys (sym e))
only_calls p q t (Access.sees_busy xs ys e _) = absurd (no_thread Pc.test xs ys (sym e))
only_calls p q t (Access.sees_idle xs ys e _) = absurd (no_thread Pc.test xs ys (sym e))
only_calls p q t (Access.sets xs ys e) = absurd (no_thread Pc.set_flag xs ys (sym e))
only_calls p q t (Access.pops r rs xs ys e _) = absurd (no_thread Pc.try_pop xs ys (sym e))
only_calls p q t (Access.finds_none xs ys e _) = absurd (no_thread Pc.try_pop xs ys (sym e))
only_calls p q t (Access.clears xs ys e) = absurd (no_thread Pc.clear_flag xs ys (sym e))
only_calls p q t (Access.ends r rs e) = absurd (cc)

-- A call that comes between the `try_pop` that finds nothing and the store of the flag leaves its packet in
-- the queue with no write in flight, and then nothing happens but for a new call.
pub packet_forgotten :
    (p q : Bytes)
    → Reach new_writer (forgotten p q)
      × ((t : SharedWriter)
          → Access (forgotten p q) t
          → (r : Bytes) × (t ≡ record (forgotten p q) { threads = Pc.push r ∷ [] }))
packet_forgotten p q = (forgets p q, only_calls p q)

-- The writer while it writes two packets at the same time.
abbrev pub writing_both : Bytes → Bytes → SharedWriter
writing_both p q = record {
  queue = [];
  is_writing = true;
  in_flight = p ∷ q ∷ [];
  ended = [];
  threads = [];
}

-- Two calls that both test the flag before either sets it start two writes on the socket at the same time.
pub two_writes_at_once : (p q : Bytes) → Reach new_writer (writing_both p q)
two_writes_at_once p q =
    let called = later (later here (Access.call p)) (Access.call q) in
    let first = later called (Access.pushes p (Pc.push q ∷ []) [] refl) in
    let second = later first (Access.pushes q [] (Pc.test ∷ []) refl) in
    let both =
      later (later second (Access.sees_idle [] (Pc.test ∷ []) refl refl))
        (Access.sees_idle (Pc.set_flag ∷ []) [] refl refl) in
    let set =
      later (later both (Access.sets [] (Pc.set_flag ∷ []) refl))
        (Access.sets (Pc.try_pop ∷ []) [] refl) in
    later (later set (Access.pops p (q ∷ []) [] (Pc.try_pop ∷ []) refl refl))
      (Access.pops q [] [] [] refl refl)
