-- ===== src/Channel/Pipes/Sealed.antt =====
-- A sealed channel of src/windows/channel.rs sends no handle, by src/windows/mod.rs.
use sandbox_ipc.Prelude.{ℕ, ◌≡◌, Bool, List, ◌∷◌, arith}
use sandbox_ipc.Prelude.Io.{ok, err, ErrorKind}
use sandbox_ipc.Channel.Owned.{Files}
use sandbox_ipc.Channel.Handles.{
  Winapi, ProcessHandle, HandleTarget, nobody, current_process, remote_process, Locals,
  before_serialize, serialize_all, serialize_handle, send,
}
use sandbox_ipc.Channel.Handles.Arrival.{Winsock, serialize_socket, remote_process_id}
use sandbox_ipc.Channel.Pipes.{
  Calls, MessageChannel, handle_target, PreMessageChannel, channel_over, into_sealed_channel,
  poll_evented,
}

module _ {W : Type 0} (calls : Calls W) where
  channel_over_target :
      (pipe : ℕ) (server : Bool) (target : HandleTarget ProcessHandle) (s s' : Files W)
      (c : MessageChannel)
      → channel_over calls pipe server target s ≡ (ok c, s')
      → (c.target ≡ target) × (c.pipe ≡ pipe) × (c.server ≡ server)
  unfolding channel_over poll_evented
  channel_over_target pipe server nobody s s' c e = ground (arith, e)
  channel_over_target pipe server current_process s s' c e = ground (arith, e)
  channel_over_target pipe server (remote_process p) s s' c e = ground (arith, e)

  -- A sealed channel sends no handle and no socket: over a channel that `into_sealed_channel` made, a
  -- message with a handle fails to be encoded, and so does one with a socket, and no process has
  -- changed.
  pub sealed_sends_nothing :
      {P : Type 0} (api : Winapi P) (winsock : Winsock P) (pre : PreMessageChannel) (s s' : Files W)
      (c : MessageChannel)
      → into_sealed_channel calls pre s ≡ (ok c, s')
      → (handle socket : ℕ) (more : List ℕ) (l : Locals P)
      → let l₀ = (before_serialize (handle_target c) l).1 in
        let (r, l') = serialize_all api (handle ∷ more) l₀ in
        let (q, l'') = serialize_socket winsock socket l₀ in
        (r ≡ err ErrorKind.custom)
        × (l'.world ≡ l.world)
        × (q ≡ err ErrorKind.custom)
        × (l''.world ≡ l.world)
  unfolding serialize_all serialize_handle send serialize_socket remote_process_id before_serialize
  sealed_sends_nothing api winsock pre s s' c made handle socket more l =
      ground (arith, channel_over_target pre.pipe pre.server nobody s s' c made)
