-- ===== src/Proxy.antt =====
-- internal/proxy: what a forwarded connection does with the pool and the status tracker.
pub mod Dial
pub mod Socks5
pub mod Tunnel
pub mod Forward
pub mod Handler
use ssh_roundrobin.Prelude.{ℕ, Option, none, some}
use ssh_roundrobin.RoundRobin.{Pool}
use ssh_roundrobin.ServerStatus.{ServerStatusTracker}

-- What the goroutines share; the tracker may be nil. `W` is the world outside.
pub record Shared (W : Type 0) : Type 0 where
  pub pool : Pool W
  pub tracker : Option ServerStatusTracker
