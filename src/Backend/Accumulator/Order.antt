-- ===== src/Backend/Accumulator/Order.antt =====
-- A read is answered once, with the blocks in the order of the file, whatever order the responses have.
use slsfs.Backend.Accumulator.{
  BufStat, Read, start_accumulator, begin_read, fill, all_ready, on_read_response, respond_each,
}
use slsfs.Backend.Accumulator.Slots.{
  joined, done, Filled, missing, open_at, fill-Filled, fill-missing, fill-open, all_ready-missing,
  Filled-done, collect_ready-done, nothing_yet, Filled-start, missing-start, open-start,
}
use slsfs.Backend.Split.{Chunk, split, chunk_data}
use slsfs.Backend.Split.Tiles.{gather, gather-split}
use slsfs.Bytes.{Bytes}
use slsfs.Prelude.{
  sym, subst, ◌^◌, ◌^◌, ◌+◌, ◌+◌, replicate, arith, ap, ◌++◌, ◌==◌, ◌<◌, ◌∙◌, ◌<◌, length, ◌∙◌,
  get_or, map, All, ◌≡◌, ◌≡◌, List, refl, ℕ, suc, true, false, ◌∷◌, [],
}

-- No index twice.
abbrev pub Unique : List ℕ → Type 0
Unique [] = Unit
Unique (i ∷ is) = All (λ j. (i == j) ≡ false) is × Unique is

-- The responses of the blocks with data `ds`, in an order.
abbrev pub responses : List Bytes → List ℕ → List (ℕ × Bytes)
responses ds = map (λ i. (i, get_or ds i []))

answered : List Bytes → Read → Read
answered ds r = record {
  result_accumulator = map done ds;
  timer_waits = false;
  replies = r.replies ++ (joined ds ∷ []);
}

filled : ℕ → Bytes → Read → Read
filled i d r = record r { result_accumulator = fill i d r.result_accumulator }

last_response :
    (i : ℕ) (ds : List Bytes) (r : Read)
    → Filled ds (fill i (get_or ds i []) r.result_accumulator)
    → missing (fill i (get_or ds i []) r.result_accumulator) ≡ 0
    → on_read_response i (get_or ds i []) r ≡ answered ds r
unfolding on_read_response answered
last_response i ds r h e =
    let all : all_ready (fill i (get_or ds i []) r.result_accumulator) ≡ true =
      all_ready-missing (fill i (get_or ds i []) r.result_accumulator) ∙ ap (λ n. n == 0) e in
    rw all (
      rw (Filled-done ds (fill i (get_or ds i []) r.result_accumulator) h e) (
        ap
          (λ b. record {
            result_accumulator = map done ds;
            timer_waits = false;
            replies = r.replies ++ (b ∷ []);
          })
          (collect_ready-done ds)))

early_response :
    (i n : ℕ) (d : Bytes) (r : Read)
    → missing (fill i d r.result_accumulator) ≡ suc n
    → on_read_response i d r ≡ filled i d r
unfolding on_read_response filled
early_response i n d r e =
    let open_left : all_ready (fill i d r.result_accumulator) ≡ false =
      all_ready-missing (fill i d r.result_accumulator) ∙ ap (λ n. n == 0) e ∙ ground arith in
    rw open_left refl

still_open :
    (i : ℕ) (d : Bytes) (is : List ℕ) (ss : List BufStat)
    → All (λ j. (i == j) ≡ false) is
    → All (λ j. open_at j ss ≡ true) is
    → All (λ j. open_at j (fill i d ss) ≡ true) is
still_open i d [] ss u o = tt
still_open i d (j ∷ js) ss u o = (fill-open i j d ss u.0 o.0, still_open i d js ss u.1 o.1)

respond_each-answered :
    (i : ℕ) (is : List ℕ) (ds : List Bytes) (r : Read)
    → Unique (i ∷ is)
    → All (λ j. open_at j r.result_accumulator ≡ true) (i ∷ is)
    → Filled ds r.result_accumulator
    → missing r.result_accumulator ≡ suc (length is)
    → respond_each (responses ds (i ∷ is)) r ≡ answered ds r
unfolding respond_each filled answered
respond_each-answered i [] ds r u o h m =
    let f = fill-missing i (get_or ds i []) r.result_accumulator o.0 in
    last_response i ds r (fill-Filled i ds r.result_accumulator h) (ground (arith, f, m))
respond_each-answered i (j ∷ js) ds r u o h m =
    let f = fill-missing i (get_or ds i []) r.result_accumulator o.0 in
    let left : missing (fill i (get_or ds i []) r.result_accumulator) ≡ suc (length js) =
      ground (arith, f, m) in
    ap (respond_each (responses ds (j ∷ js))) (early_response i (length js) (get_or ds i []) r left)
    ∙ respond_each-answered j js ds (filled i (get_or ds i []) r) u.1
        (still_open i (get_or ds i []) (j ∷ js) r.result_accumulator u.0 o.1)
        (fill-Filled i ds r.result_accumulator h) left

starts_open :
    (n : ℕ) (is : List ℕ)
    → All (λ i. i < n) is
    → All (λ j. open_at j (replicate n nothing_yet) ≡ true) is
starts_open n [] h = tt
starts_open n (i ∷ is) h = (open-start n i h.0, starts_open n is h.1)

-- Where each block of a read responds once, in any order, and there is a block, the client gets one
-- reply, which is the blocks' data in the order of the file, and the deadline timer is cancelled.
pub reads_in_any_order :
    (i : ℕ) (is : List ℕ) (ds : List Bytes)
    → Unique (i ∷ is)
    → All (λ j. j < length ds) (i ∷ is)
    → length (i ∷ is) ≡ length ds
    → let r = respond_each (responses ds (i ∷ is)) (start_accumulator (length ds)) in
      (r.replies ≡ joined ds ∷ []) × (r.timer_waits ≡ false)
unfolding start_accumulator answered
reads_in_any_order i is ds u b e =
    let final =
      respond_each-answered i is ds (start_accumulator (length ds)) u
        (starts_open (length ds) (i ∷ is) b) (Filled-start ds)
        (missing-start (length ds) ∙ ground (arith, e)) in
    (ap (λ r. r.replies) final, ap (λ r. r.timer_waits) final)

-- The data of a request's blocks.
abbrev pub blocks_of : ℕ → ℕ → Bytes → List Bytes
blocks_of bs pos xs = map (chunk_data xs) (split bs pos (length xs))

joined-gather : (xs : Bytes) (cs : List Chunk) → joined (map (chunk_data xs) cs) ≡ gather xs cs
unfolding gather
joined-gather xs [] = refl
joined-gather xs (c ∷ cs) = ap (λ l. chunk_data xs c ++ l) (joined-gather xs cs)

length-blocks_of : (xs : Bytes) (cs : List Chunk) → length (map (chunk_data xs) cs) ≡ length cs
length-blocks_of xs [] = refl
length-blocks_of xs (c ∷ cs) = ap suc (length-blocks_of xs cs)

-- A read of the range in which a file holds `xs`, which is not empty, for a positive block size and a
-- range that does not wrap: when each block has responded with its part of `xs`, once and in any order,
-- the client has got one reply, `xs`.
pub read_gives_file :
    (i : ℕ) (is : List ℕ) (bs pos : ℕ) (xs : Bytes)
    → 0 < bs
    → 0 < length xs
    → pos + length xs < 2 ^ 32
    → Unique (i ∷ is)
    → All (λ j. j < length (split bs pos (length xs))) (i ∷ is)
    → length (i ∷ is) ≡ length (split bs pos (length xs))
    → (respond_each
        (responses (blocks_of bs pos xs) (i ∷ is))
        (begin_read bs pos (length xs))).replies
      ≡ xs ∷ []
unfolding begin_read
read_gives_file i is bs pos xs b some_bytes fits u inside e =
    let n : length (blocks_of bs pos xs) ≡ length (split bs pos (length xs)) =
      length-blocks_of xs (split bs pos (length xs)) in
    let not_empty : (length xs == 0) ≡ false = ground arith in
    let answer =
      (reads_in_any_order i is (blocks_of bs pos xs) u
        (subst (λ k. All (λ j. j < k) (i ∷ is)) (sym n) inside) (e ∙ sym n)).0 in
    rw not_empty (
      subst
        (λ k.
          (respond_each (responses (blocks_of bs pos xs) (i ∷ is)) (start_accumulator k)).replies
          ≡ xs ∷ [])
        n
        (answer
          ∙ ap (λ l. l ∷ [])
              (joined-gather xs (split bs pos (length xs)) ∙ gather-split xs bs pos b fits)))
