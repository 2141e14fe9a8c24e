-- ===== src/DataFunction/Moved.antt =====
-- The way of a cache from a data function that closes, through the launcher, to the next one.
use slsfs.Prelude.{◌∙◌, ◌∙◌, ◌^◌, ◌^◌, ◌<◌, ◌<◌, ◌≤◌, ◌≤◌, ◌≡◌, List, ◌≡◌, All, ◌∷◌, []}
use slsfs.Bytes.{Bytes}
use slsfs.Cache.Lru.{Cache}
use slsfs.Cache.Lru.Set.{total}
use slsfs.Cache.Handover.Rebuild.{IsCachedFile, IsNode, Distinct}
use slsfs.Launcher.Transfer.Files.{IsPlainFile, IsPlainNode}
use slsfs.Launcher.Pool.{Launcher}
use slsfs.DataFunction.Command.{CommandPacket}
use mathlib.Core.List.{reverse}

-- A cache that can be handed over: files have names of 32 bytes and some block each, numbers and sizes fit
-- 32 bits and have no byte that is a blank, and no node is there twice.
pub record IsTransferable (c : Cache) : Type 0 where
  pub files : All IsCachedFile c.files
  pub nodes : All IsNode c.nodes
  pub distinct : Distinct c.nodes
  pub plain_files : All IsPlainFile c.files
  pub plain_nodes : All IsPlainNode (reverse c.nodes)

-- A cache that has nothing yet, with room for another.
pub record IsRoomFor (c old : Cache) : Type 0 where
  pub no_nodes : c.nodes ≡ []
  pub no_size : c.cur_size ≡ 0
  pub room : total old.nodes ≤ c.cap
  pub cap_fits : c.cap < 2 ^ 32

first_packet : CommandPacket → List CommandPacket → CommandPacket
first_packet p [] = p
first_packet p (q ∷ qs) = q
