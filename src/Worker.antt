-- ===== src/Worker.antt =====
-- googletrends_app/worker.py: the lock that lets one worker thread run at a time.
pub mod Steps
use googletrends.Base.{ℕ, ◌+◌, Bool, true, false, List, [], ◌∷◌, if◌then◌else◌}

-- `lock.acquire(blocking=False)` of the lock's state: whether it was free, and the state after it.
abbrev pub acquire : Bool → Bool × Bool
acquire held = (if held then false else true, true)

-- `start_worker`: whether a thread was started, and the lock after the call.
unfoldable pub start_worker : Bool → Bool × Bool
start_worker held =
    let (free, held') = acquire held in if free then (true, held') else (false, held')
