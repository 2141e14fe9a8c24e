-- ===== src/Tests/Commands.antt =====
-- A data function with the proxy of the launcher's tests, and small requests of one file.
use slsfs.Launcher.Assign.{get_available_worker, lowest_from}
use slsfs.Launcher.Jobs.{add_worker}
use slsfs.Cache.Handover.{get_tables}
use slsfs.Tests.Jobs.{lowest, idle, header_j}
use slsfs.DataFunction.Listen.{timer_reset, start_connect}
use slsfs.Proxy.Ring.{endpoint_bytes}
use slsfs.Launcher.Pool.{Launcher, Endpoint}
use slsfs.Prelude.{◌++◌, ◌++◌, arith, ◌≡◌, refl, false, true, none, some, ◌∷◌, []}
use slsfs.Bytes.{Bytes, store, load, hton, ntoh}
use slsfs.Tests.{uuid_a}
use slsfs.Launcher.Direct.{Direct, push_header, start_trigger_post}
use slsfs.Proxy.Ring.{read_endpoint}
use slsfs.DataFunction.WithProxy.{client_reaches_function}
use slsfs.Launcher.Jobs.{valid_worker, picked, seen_by_policy}
use slsfs.Launcher.Pool.{find_binding}
use slsfs.Tests.Handover.{holding, fresh}
use slsfs.Cache.Table.{same_bytes, find_block, find_file}
use slsfs.Cache.Lru.{Cache}
use slsfs.Proxy.Header.{PacketHeader}
use slsfs.Proxy.Request.{bytes_at, copy_request, request_data}
use slsfs.DataFunction.Command.{
  write_packet, Settings, CommandPacket, ProxyCommand, BackendCall, request_of, is_file, is_write,
  send_response, start_storage_perform, on_storage_answer,
}
use slsfs.DataFunction.Cached.{overwritten_block_stale, written_by, unconfirmed_write_served}

abbrev settings_lru : Settings
settings_lru = record { use_async = true; enable_cache = true; fifo = false; takes_tables = true }

-- A data function with a cache.
abbrev with_cache : Cache → ProxyCommand
with_cache c = record {
  waittime = 10000;
  last_update = 0;
  deadline = none;
  queues = [];
  proxies = [];
  cache = c;
  cache_hits = 0;
  asked = [];
  fetching = [];
  sent = [];
}

abbrev large : Cache
large = record fresh { cap = 8192 }

abbrev header_a : PacketHeader
header_a = record {
  type = 10;
  key = uuid_a;
  sequence = 1 ∷ 2 ∷ 3 ∷ 4 ∷ [];
  random_salt = 5 ∷ 6 ∷ 7 ∷ 8 ∷ [];
  datasize = 14;
}

-- A write of two bytes at position 20480, in block 5, and a read of it.
abbrev write_2 : CommandPacket
write_2 = record {
  header = header_a;
  buf = 0 ∷ 0 ∷ 0 ∷ 0 ∷ 0 ∷ 0 ∷ 80 ∷ 0 ∷ 0 ∷ 0 ∷ 0 ∷ 2 ∷ 9 ∷ 9 ∷ [];
}

abbrev read_2 : CommandPacket
read_2 = record { header = header_a; buf = 0 ∷ 1 ∷ 0 ∷ 0 ∷ 0 ∷ 0 ∷ 80 ∷ 0 ∷ 0 ∷ 0 ∷ 0 ∷ 2 ∷ [] }

unconfirmed_write_served_example :
    (t : ProxyCommand) × (u : ProxyCommand) × (on_storage_answer settings_lru
        (BackendCall.perform_file write_2)
        []
        (with_cache large)
      ≡ some t)
    × (start_storage_perform settings_lru read_2 t ≡ some u)
    × (u.sent ≡ (send_response read_2 (written_by write_2) t).sent)
    × (u.asked ≡ [])
unfolding is_file is_write request_of copy_request bytes_at request_data ntoh hton load store
    find_file
unconfirmed_write_served_example =
    unconfirmed_write_served settings_lru write_2 read_2 [] (with_cache large) refl
      (record {
        a_file = refl;
        a_write = refl;
        small = record { some_bytes = omega arith; one_block = omega arith; no_wrap = omega arith };
        long = omega arith;
      })
      (record {
        a_file = refl;
        a_read = refl;
        small = record { some_bytes = omega arith; one_block = omega arith; no_wrap = omega arith };
        same_uuid = refl;
        same_block = refl;
      })
      (record { sized = (refl, omega arith); cap_large = omega arith; cap_small = omega arith })
      refl

-- The cache has other bytes in the block.
abbrev held : Cache
held = record (holding 5) { cap = 8192 }

overwritten_block_stale_example :
    (t : ProxyCommand) × (u : ProxyCommand) × (on_storage_answer settings_lru
        (BackendCall.perform_file write_2)
        []
        (with_cache held)
      ≡ some t)
    × (start_storage_perform settings_lru read_2 t ≡ some u)
    × (u.sent ≡ (send_response read_2 (7 ∷ 8 ∷ []) t).sent)
    × (u.asked ≡ [])
unfolding is_file is_write request_of copy_request bytes_at request_data ntoh hton load store
    find_file find_block same_bytes
overwritten_block_stale_example =
    overwritten_block_stale settings_lru write_2 read_2 [] (7 ∷ 8 ∷ []) (with_cache held)
      ((5, 7 ∷ 8 ∷ []) ∷ []) refl
      (record {
        a_file = refl;
        a_write = refl;
        small = record { some_bytes = omega arith; one_block = omega arith; no_wrap = omega arith };
        long = omega arith;
      })
      (record {
        a_file = refl;
        a_read = refl;
        small = record { some_bytes = omega arith; one_block = omega arith; no_wrap = omega arith };
        same_uuid = refl;
        same_block = refl;
      })
      (record { sized = (refl, omega arith); cap_large = omega arith; cap_small = omega arith })
      (omega arith) refl refl (omega arith)

abbrev own_server : Endpoint
own_server = record { host = 10 ∷ 0 ∷ 0 ∷ 7 ∷ []; port = 2000 }

abbrev job_packet : CommandPacket
job_packet = record { header = header_j; buf = [] }

abbrev job_response : CommandPacket
job_response = record { header = record header_j { type = 11 }; buf = 79 ∷ 75 ∷ [] }

abbrev closing : CommandPacket
closing = record { header = record header_a { type = 9 }; buf = get_tables 0 (holding 5) }

abbrev transfer : PacketHeader
transfer = record header_a { type = 6 }

-- The packet by which a data function registers, and a proxy that has no worker yet.
abbrev registration : CommandPacket
registration = record { header = record header_a { type = 8 }; buf = endpoint_bytes own_server }

abbrev no_workers : Launcher
no_workers = record idle { workers = []; worker_set = [] }

client_reaches_function_example :
    (t : Launcher) × (payload : Bytes) × (start_trigger_post true lowest 1 header_a
        (add_worker registration.buf no_workers)
      ≡ some (t, some (Direct.answered (push_header header_a) payload)))
    × (read_endpoint payload ≡ own_server)
    × (find_binding uuid_a t.fileid_to_worker ≡ some 0)
unfolding start_connect write_packet timer_reset add_worker find_binding valid_worker picked
    seen_by_policy get_available_worker lowest_from
client_reaches_function_example =
    client_reaches_function lowest header_a header_a 1 own_server (with_cache fresh) no_workers
      registration (record { host_size = refl; port_fits = omega arith }) refl refl refl
