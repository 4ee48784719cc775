-- ===== src/Channel/Handles.antt =====
-- Handles inside messages, of src/windows/mod.rs: `HandleSender`, the thread-local variables, and the
-- guards that set these. The calls of the system are an argument, over the state `W` of all
-- processes.
pub mod Commit
pub mod AllOrNone
pub mod Winsock
pub mod Arrival
mod Tests
use sandbox_ipc.Prelude.{
  ℕ, Bool, true, false, List, [], ◌∷◌, ◌++◌, Option, none, some, if◌then◌else◌,
}
use sandbox_ipc.Prelude.Io.{Result, ok, err, panic, ErrorKind}
use sandbox_ipc.Prelude.State.{St, ◌>>=◌, pure}

-- `ProcessHandle`: a handle of a process, and its number in the system.
pub record ProcessHandle : Type 0 where
  pub handle : ℕ
  pub id : ℕ

pub data HandleTarget (H : Type 0) : Type 0 where
  nobody : HandleTarget H
  current_process : HandleTarget H
  remote_process : (process : H) → HandleTarget H

abbrev pub is_nobody : {H : Type 0} → HandleTarget H → Bool
is_nobody nobody = true
is_nobody current_process = false
is_nobody (remote_process p) = false

-- `DuplicateHandle` from this process with `DUPLICATE_SAME_ACCESS`: the handle in the target process.
-- `CloseHandle`, and `DuplicateHandle` from a remote process with `DUPLICATE_CLOSE_SOURCE`.
pub record Winapi (W : Type 0) : Type 0 where
  pub duplicate_here : (handle : ℕ) → W → Option ℕ × W
  pub duplicate_to : (process handle : ℕ) → W → Option ℕ × W
  pub close : (handle : ℕ) → W → W
  pub close_source : (process handle : ℕ) → W → W

pub record HandleSender : Type 0 where
  pub target : HandleTarget ProcessHandle
  pub handles : List ℕ

-- The two thread-local variables, of which the receiver has no state, and the processes.
pub record Locals (W : Type 0) : Type 0 where
  pub world : W
  pub sender : Option HandleSender
  pub receiver : Option (Unit {0})

module _ {W : Type 0} where
  -- `before_serialize`: the guard is what the variable held before.
  unfoldable pub before_serialize :
      HandleTarget ProcessHandle → Locals W → Option HandleSender × Locals W
  before_serialize target l =
      (l.sender, record l { sender = some (record { target = target; handles = [] }) })

module _ {W : Type 0} (api : Winapi W) where
  abbrev pub duplicate : HandleTarget ProcessHandle → (handle : ℕ) → W → Option ℕ × W
  duplicate nobody handle w = (none, w)
  duplicate current_process handle w = api.duplicate_here handle w
  duplicate (remote_process p) handle w = api.duplicate_to p.handle handle w

  abbrev pub close_in : HandleTarget ProcessHandle → (handle : ℕ) → W → W
  close_in nobody handle w = w
  close_in current_process handle w = api.close handle w
  close_in (remote_process p) handle w = api.close_source p.handle handle w

  -- `HandleSender::drop`
  unfoldable pub close_all : HandleTarget ProcessHandle → List ℕ → W → W
  close_all target [] w = w
  close_all target (handle ∷ handles) w = close_all target handles (close_in target handle w)

  unfoldable pub drop_sender : Option HandleSender → W → W
  unfolding close_all
  drop_sender none w = w
  drop_sender (some s) w = close_all s.target s.handles w

  -- `HandleSender::send`
  abbrev duplicated : HandleSender → Option ℕ × W → Result ℕ × HandleSender × W
  duplicated s (none, w) = (err ErrorKind.os, s, w)
  duplicated s (some remote, w) = (ok remote, record s { handles = s.handles ++ (remote ∷ []) }, w)

  unfoldable pub send : (handle : ℕ) → HandleSender → W → Result ℕ × HandleSender × W
  send handle s w =
      if is_nobody s.target
      then (err ErrorKind.broken_pipe, s, w)
      else duplicated s (duplicate s.target handle w)

  -- `SendableWinHandle::serialize`: the number that is encoded, the handle in the target process.
  unfoldable pub serialize_handle : (handle : ℕ) → St (Locals W) ℕ
  unfolding send
  serialize_handle handle l = elim l.sender [
    | none ↦ (err ErrorKind.custom, l)
    | some s ↦
        let (r, s', w) = send handle s l.world in
        let l' = record l { world = w; sender = some s' } in
        elim r [
          | ok remote ↦ (ok remote, l')
          | err kind ↦ (err ErrorKind.custom, l')
          | panic ↦ (panic, l')
        ]
  ]

  -- The items of a message that are handles, encoded one after the other.
  unfoldable pub serialize_all : List ℕ → St (Locals W) (List ℕ)
  unfolding serialize_handle
  serialize_all [] = pure []
  serialize_all (handle ∷ handles) = do
    remote ← serialize_handle handle
    rest ← serialize_all handles
    pure (remote ∷ rest)

  -- `ChannelSerializeGuard::drop`: the assignment drops the sender that the variable holds.
  unfoldable pub drop_serialize : Option HandleSender → Locals W → Locals W
  unfolding drop_sender
  drop_serialize saved l = record l { world = drop_sender l.sender l.world; sender = saved }

  -- `ChannelSerializeGuard::commit`, and the drop of the guard.
  unfoldable pub commit_serialize : Option HandleSender → Locals W → Result (Unit {0}) × Locals W
  unfolding drop_serialize
  commit_serialize saved l = elim l.sender [
    | none ↦ (panic, drop_serialize saved l)
    | some s ↦
        (ok tt, drop_serialize saved (record l { sender = some (record s { handles = [] }) }))
  ]
