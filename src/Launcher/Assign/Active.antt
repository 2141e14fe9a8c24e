-- ===== src/Launcher/Assign/Active.antt =====
-- `active_lowest_load` of proxy/policy/worker-filetoworker-active-load-balance.hpp: how many jobs of each
-- file a worker has, and which file is given to another worker when a new one starts. A signed counter is
-- kept as what was added and what was taken away.
use slsfs.Prelude.{
  length, ◌||◌, ◌&&◌, ◌==◌, ◌||◌, ◌&&◌, ◌==◌, ltb, ◌+◌, Option, ◌+◌, map, List, Bool, ℕ,
  if◌then◌else◌, false, none, some, ◌∷◌, [],
}
use slsfs.Bytes.{Bytes}
use slsfs.Cache.Table.{same_bytes}
use slsfs.Launcher.Pool.{find_binding, erase_binding}

pub record Count : Type 0 where
  pub added : ℕ
  pub taken : ℕ

unfoldable pub count_of : ℕ → Count
count_of n = record { added = n; taken = 0 }

-- `a > b`
unfoldable pub above : Count → Count → Bool
above a b = ltb (b.added + a.taken) (a.added + b.taken)

abbrev pub minus_one : Count
minus_one = record { added = 0; taken = 1 }

-- `counter`
pub record FileCounter : Type 0 where
  pub total_counter : Count
  pub file_counter : List (Bytes × Count)

-- `most_count_file_`, `worker_file_map_`, `transfering_` and `fileid_to_worker_`.
pub record ActiveLowestLoad : Type 0 where
  pub most_count_file : Bytes
  pub worker_file_map : List (ℕ × FileCounter)
  pub transfering : List Bytes
  pub fileid_to_worker : List (Bytes × ℕ)

unfoldable pub find_count : Bytes → List (Bytes × Count) → Option Count
find_count key [] = none
find_count key ((k, n) ∷ ns) = if same_bytes key k then some n else find_count key ns

unfoldable pub update_count : Bytes → Count → List (Bytes × Count) → List (Bytes × Count)
update_count key n [] = []
update_count key n ((k, old) ∷ ns) =
    if same_bytes key k then (k, n) ∷ ns else (k, old) ∷ update_count key n ns

unfoldable pub find_counter : ℕ → List (ℕ × FileCounter) → Option FileCounter
find_counter w [] = none
find_counter w ((v, c) ∷ cs) = if w == v then some c else find_counter w cs

unfoldable pub update_counter : ℕ → FileCounter → List (ℕ × FileCounter) → List (ℕ × FileCounter)
update_counter w c [] = []
update_counter w c ((v, old) ∷ cs) =
    if w == v then (v, c) ∷ cs else (v, old) ∷ update_counter w c cs

-- The inner loop of `execute`.
unfoldable pub busiest_file : List (Bytes × Count) → Count → Bytes → Bytes
busiest_file [] worker_top most = most
busiest_file ((k, n) ∷ ns) worker_top most =
    let higher = busiest_file ns n k in
    let same = busiest_file ns worker_top most in if above n worker_top then higher else same

-- The outer loop.
unfoldable pub busiest_from : List (ℕ × FileCounter) → Count → Bytes → Bytes
busiest_from [] top most = most
busiest_from ((w, c) ∷ cs) top most =
    let higher = busiest_from cs c.total_counter (busiest_file c.file_counter minus_one most) in
    let same = busiest_from cs top most in
    if above c.total_counter top && ltb 1 (length c.file_counter) then higher else same

unfoldable pub reset_counter : FileCounter → FileCounter
reset_counter c = record {
  total_counter = count_of 0;
  file_counter = map (λ n. (n.0, count_of 0)) c.file_counter;
}

unfoldable pub execute : ActiveLowestLoad → ActiveLowestLoad
execute a = record a {
  most_count_file = busiest_from a.worker_file_map minus_one a.most_count_file;
  worker_file_map = map (λ w. (w.0, reset_counter w.1)) a.worker_file_map;
}

unfoldable pub plus_one : Count → Count
plus_one n = record n { added = n.added + 1 }

-- One more job of a file.
unfoldable pub count_job : Bytes → FileCounter → FileCounter
count_job key c = record {
  total_counter = plus_one c.total_counter;
  file_counter = elim (find_count key c.file_counter) [
    | none ↦ (key, count_of 1) ∷ c.file_counter
    | some n ↦ update_count key (plus_one n) c.file_counter
  ];
}

-- A worker that is not there yet is put in with a total of 1 and no file.
unfoldable pub started_a_new_job : ℕ → Bytes → ActiveLowestLoad → ActiveLowestLoad
started_a_new_job w key a = record a {
  worker_file_map = elim (find_counter w a.worker_file_map) [
    | none ↦ (w, record { total_counter = count_of 1; file_counter = [] }) ∷ a.worker_file_map
    | some c ↦ update_counter w (count_job key c) a.worker_file_map
  ];
}

unfoldable pub erase_key : Bytes → List Bytes → List Bytes
erase_key key [] = []
erase_key key (k ∷ ks) = if same_bytes key k then ks else k ∷ erase_key key ks

-- The count of a file that a worker has, taken down by one.
unfoldable pub finish_counted :
    ℕ → Bytes → FileCounter → Count → ActiveLowestLoad → ActiveLowestLoad
finish_counted w key c n a =
    let less : Count = record n { taken = n.taken + 1 } in
    let counted : ActiveLowestLoad = record a {
      worker_file_map =
          update_counter w (record c { file_counter = update_count key less c.file_counter })
            a.worker_file_map;
    } in
    if less.added == less.taken
    then record counted {
      transfering = erase_key key a.transfering;
      fileid_to_worker = erase_binding key a.fileid_to_worker;
    }
    else counted

unfoldable pub finished_a_job : ℕ → Bytes → ActiveLowestLoad → ActiveLowestLoad
finished_a_job w key a = elim (find_counter w a.worker_file_map) [
  | none ↦ a
  | some c ↦ elim (find_count key c.file_counter) [ none ↦ a | some n ↦ finish_counted w key c n a ]
]

unfoldable pub has_key : Bytes → List Bytes → Bool
has_key key [] = false
has_key key (k ∷ ks) = same_bytes key k || has_key key ks

unfoldable pub start_transfer : ActiveLowestLoad → ActiveLowestLoad
start_transfer a = execute (record a {
  transfering =
      if has_key a.most_count_file a.transfering
      then a.transfering
      else a.most_count_file ∷ a.transfering;
})

unfoldable pub get_assigned_worker : Bytes → ActiveLowestLoad → Option ℕ
get_assigned_worker key a =
    if has_key key a.transfering then none else find_binding key a.fileid_to_worker
