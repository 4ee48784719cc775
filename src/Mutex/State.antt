-- ===== src/Mutex/State.antt =====
-- What the mutexes of several processes share, and code that changes it: the words in shared memory,
-- and the calls of the thread library that have been made.
use sandbox_ipc.Prelude.{ℕ, List, ◌∷◌, Bool}
use sandbox_ipc.Prelude.Io.{ok}
use sandbox_ipc.Prelude.State.{St}

pub data Call : Type 0 where
  attr_init attr_setpshared attr_destroy mutex_init mutex_destroy mutex_lock mutex_unlock : Call

pub record Cells : Type 0 where
  pub refcount : ℕ
  pub poison : Bool
  pub calls : List Call  -- the latest first

abbrev pub store_poison : Bool → St Cells (Unit {0})
store_poison b c = (ok tt, record c { poison = b })

abbrev pub store_refcount : ℕ → St Cells (Unit {0})
store_refcount n c = (ok tt, record c { refcount = n })

-- A call of the thread library.
abbrev pub call : Call → St Cells (Unit {0})
call k c = (ok tt, record c { calls = k ∷ c.calls })
