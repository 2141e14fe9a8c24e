-- ===== src/Tests/Handover.antt =====
-- A cache with one block, handed over.
use slsfs.Bytes.{store}
use slsfs.Prelude.{All, ◌≡◌, ℕ, refl, none, ◌∷◌, []}
use slsfs.Tests.{uuid_a}
use slsfs.Cache.Lru.{Cache}
use slsfs.Cache.Handover.{block_bytes, get_tables}
use slsfs.Launcher.Transfer.{without_counts, get_fileids_from_transfer}
use slsfs.Launcher.Transfer.Files.{IsNoBlank}
use slsfs.Launcher.Transfer.Blank.{blank_in_number_overruns}

-- The block `id` of the file `uuid_a`, with two bytes.
abbrev pub holding : ℕ → Cache
holding id = record {
  nodes = record { file_key = uuid_a; block_id = id; data_size = 2 } ∷ [];
  cur_size = 2;
  cap = 4096;
  evictions = 0;
  files = (uuid_a, (id, 7 ∷ 8 ∷ []) ∷ []) ∷ [];
}

abbrev pub fresh : Cache
fresh = record { nodes = []; cur_size = 0; cap = 4096; evictions = 0; files = [] }

-- The number 5 and the size 2 have no byte that is a blank.
pub plain_5 : All IsNoBlank (block_bytes 5 2)
unfolding block_bytes store
plain_5 = (refl, (refl, (refl, (refl, (refl, (refl, (refl, (refl, tt))))))))

blank_in_number_overruns_example :
    get_fileids_from_transfer (without_counts (get_tables 3 (holding 32))) ≡ none
blank_in_number_overruns_example =
    blank_in_number_overruns 3 32 2 uuid_a (7 ∷ 8 ∷ []) (holding 32) refl refl refl refl
