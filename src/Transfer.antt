-- ===== src/Transfer.antt =====
-- Packets on their way: the packets that one tile sends, handed in order to the handler of another.
pub mod Alloc
pub mod Data
pub mod Message
pub mod Arrive
pub mod Queue
use optimsoc.Prelude.{ℕ, List, [], ◌∷◌, ◌++◌, length, Run, done, ◌>>=◌}
use optimsoc.Sync.{Cas}
use optimsoc.Control.{Tile, Packet, msg_handler}

-- The receive buffer holds the packet, and behind it what earlier packets left there.
unfoldable pub deliver :
    ⦃cpu : Cas⦄ → (fuel : ℕ) (stale : List ℕ) → List Packet → Tile → Run (Tile × List Packet)
deliver fuel stale [] t = done (t, [])
deliver fuel stale (packet ∷ packets) t = do
  (t', replies) ← msg_handler fuel (packet.flits ++ stale) (length packet.flits) t
  (t'', later) ← deliver fuel stale packets t'
  done (t'', replies ++ later)
