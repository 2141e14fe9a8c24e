-- ===== src/Launcher.antt =====
-- proxy/launcher.hpp and proxy/policy/: how jobs go to workers, when the proxy starts workers, which
-- worker gets a file, and how long a worker that has nothing to do is kept.
pub mod Launch
pub mod Assign
pub mod Average
pub mod Pool
pub mod Transfer
pub mod Jobs
pub mod Socket
pub mod Direct
use slsfs.Prelude.{ℕ}
