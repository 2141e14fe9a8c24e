-- ===== src/Tests/Reads.antt =====
-- The accumulator of a read at two blocks whose responses come in the other order.
use slsfs.Backend.Accumulator.{begin_read, respond_each}
use slsfs.Backend.Accumulator.Order.{read_gives_file, blocks_of, responses}
use slsfs.Backend.Split.{split, split_from, chunk_at}
use slsfs.Bytes.{Bytes}
use slsfs.Prelude.{List, ◌≡◌, refl, ◌∷◌, [], arith}

abbrev two_blocks : List Bytes
two_blocks = (65 ∷ 66 ∷ []) ∷ (67 ∷ []) ∷ []

read_gives_file_example :
    (respond_each
      (responses (blocks_of 4 3 (65 ∷ 66 ∷ [])) (1 ∷ 0 ∷ []))
      (begin_read 4 3 2)).replies
    ≡ (65 ∷ 66 ∷ []) ∷ []
unfolding split split_from chunk_at
read_gives_file_example =
    read_gives_file 1 (0 ∷ []) 4 3 (65 ∷ 66 ∷ []) (omega arith) (omega arith) (omega arith)
      ((refl, tt), (tt, tt)) (omega arith, (omega arith, tt)) refl
