-- ===== src/Threads/Invariant.antt =====
-- What holds of several threads whatever the order of their steps: who has the lock, how often the
-- map is made, and which id the next row gets.
mod Shared
mod Moves
pub use Shared.*
pub use Moves.{fetched}
use Moves.{Move-Inv}
use log2mem.Prelude.{◌≡◌, refl, List}
use log2mem.State.{Handle}
use log2mem.Threads.{Event, System, Step, pick, begin, Reach, start, later}

pub Reach-Inv : {es : List Event} {s : System} → Reach es s → Inv es s.shared s.pc
Reach-Inv (start m errno) = Inv-begin m errno
Reach-Inv (later r (pick i mv)) = Move-Inv (Reach-Inv r) i mv
