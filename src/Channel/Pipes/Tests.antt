-- ===== src/Channel/Pipes/Tests.antt =====
-- A process whose handles are numbered from 4 on, and the theorems of src/windows/channel.rs at it.
use sandbox_ipc.Prelude.{
  ℕ, ◌+◌, ◌<◌, ◌≡◌, ◌≢◌, refl, true, false, [], ◌∷◌, ◌++◌, Option, none, some, arith, ltb,
  if◌then◌else◌,
}
use sandbox_ipc.Prelude.Io.{ok, err, ErrorKind}
use sandbox_ipc.Channel.Owned.{Files, attempt}
use sandbox_ipc.Prelude.State.{finally}
use sandbox_ipc.Channel.Owned.Turns.{count, owned}
use sandbox_ipc.Channel.Handles.{
  Winapi, HandleTarget, nobody, Locals, before_serialize, serialize_all,
}
use sandbox_ipc.Channel.Handles.Arrival.{Winsock, serialize_socket}
use sandbox_ipc.Channel.Pipes.{
  Calls, MessageChannel, ChildMessageChannel, handle_target, pair, pre_pair, into_sealed_channel,
  channel_over, poll_evented, millis, infinite, raw_pipe_pair, client_end, begin_connection,
  handle_call, bool_call,
}
use sandbox_ipc.Channel.Pipes.Establish.{establish_with_child, child_into_channel, drop_child}
use sandbox_ipc.Channel.Pipes.Named.{new, accept, connect}
use sandbox_ipc.Channel.Pipes.Kept.{channel_handles}
use sandbox_ipc.Channel.Pipes.Owners.{constructors_kept, established_kept}
use sandbox_ipc.Channel.Tokens.{number}
use sandbox_ipc.Channel.Pipes.Child.{
  serialize, deserialize, handles, next, collect, child_told, ChildMessageChannelHandles,
}
use sandbox_ipc.Channel.Pipes.Sealed.{sealed_sends_nothing}
use sandbox_ipc.Channel.Pipes.Timeout.{millis-exact}

-- Every handle is new. Handles from 8 on cannot be had.
abbrev fresh : ℕ → Option ℕ × ℕ
fresh next = if ltb next 8 then (some next, next + 1) else (none, next)

abbrev calls : Calls ℕ
calls = record {
  initialize_security_descriptor = λ w. (true, w);
  set_security_descriptor_dacl = λ w. (true, w);
  create_named_pipe = fresh;
  connect_named_pipe = λ pipe w. (false, w);
  last_error_is_io_pending = λ w. (true, w);
  create_file = fresh;
  get_overlapped_result = λ pipe timeout w. (true, w);
  wait_named_pipe = λ timeout w. (true, w);
  get_client_process_id = λ pipe w. (some 77, w);
  get_server_process_id = λ pipe w. (some 78, w);
  get_process_id = λ process w. (79, w);
  open_process = λ id w. fresh w;
  current_process_id = 80;
  clone_current_process = λ inherit w. fresh w;
  clone_process = λ process w. fresh w;
  modify = λ handle w. fresh w;
  close = λ handle w. w;
  register = λ pipe w. (ok tt, w);
}

-- The handle 1 is open.
abbrev start : Files ℕ
start = record { world = 4; opened = 1 ∷ [] }

abbrev child : ChildMessageChannel
child = record { channel_handle = 1; remote_process_handle = none; remote_process_id = 80 }

-- The pair has the handles 4 and 5.
pair_test :
    (pair calls start).0
    ≡ ok (
      record { pipe = 4; server = true; target = HandleTarget.current_process },
      record { pipe = 5; server = false; target = HandleTarget.current_process },
    )
unfolding pair raw_pipe_pair client_end begin_connection handle_call bool_call poll_evented
pair_test = refl

-- The child's process is the handle 3; its copy, the last handle there is, becomes the target.
established_kept_example :
    (let (r, s') =
        establish_with_child calls
          (λ c. finally (drop_child calls c) (attempt (λ w. (ok 3, w))))
          start in
      count 7 s'.opened ≡ count 7 (owned (λ established. channel_handles established.0) r) + 0)
    × (let (r, s') = child_into_channel calls child start in
        count 7 s'.opened ≡ count 7 (owned channel_handles r))
established_kept_example = established_kept calls (λ c w. (ok 3, w)) child start start 7 refl

constructors_kept_example :
    (let (r, s') = pair calls start in
      count 4 s'.opened ≡ count 4 (owned (λ ends. ends.0.pipe ∷ ends.1.pipe ∷ []) r) + 0)
    × (let (r, s') = pre_pair calls start in
        count 4 s'.opened ≡ count 4 (owned (λ ends. ends.0.pipe ∷ ends.1.pipe ∷ []) r) + 0)
    × (let (r, s') = new calls start in
        count 4 s'.opened ≡ count 4 (owned (λ pipe. pipe ∷ []) r) + 0)
    × (let (r, s') = accept calls 1 (some (5, 0)) start in
        count 4 s'.opened ≡ count 4 (owned channel_handles r) + 0)
    × (let (r, s') = connect calls true (some (5, 0)) start in
        count 4 s'.opened ≡ count 4 (owned channel_handles r) + 0)
constructors_kept_example = constructors_kept calls 1 (some (5, 0)) true start [] 4 refl

child_told_example :
    (deserialize (λ h. ltb 0 h) (serialize child ++ (number 9 ∷ [])) ≡ ok (child, number 9 ∷ []))
    × (last : ChildMessageChannelHandles) × (collect 3 (handles child) ≡ some (1 ∷ [], last))
    × (next last ≡ (none, last))
child_told_example = child_told (λ h. ltb 0 h) child (number 9 ∷ []) 0

abbrev api : Winapi ℕ
api = record {
  duplicate_here = λ handle w. (some handle, w + 1);
  duplicate_to = λ process handle w. (some handle, w + 1);
  close = λ handle w. w;
  close_source = λ process handle w. w;
}

abbrev locals : Locals ℕ
locals = record { world = 0; sender = none; receiver = none }

abbrev sealed : MessageChannel
sealed = record { pipe = 1; server = true; target = nobody }

made : into_sealed_channel calls (record { pipe = 1; server = true }) start ≡ (ok sealed, start)
unfolding channel_over poll_evented
made = refl

-- No socket can be described, or made.
abbrev winsock : Winsock ℕ
winsock = record {
  duplicate_socket = λ socket id w. (none, w + 1);
  wsa_socket = λ info w. (none, w);
  current_process_id = 80;
}

sealed_sends_nothing_example :
    let l₀ = (before_serialize (handle_target sealed) locals).1 in
    let (r, l') = serialize_all api (1 ∷ []) l₀ in
    let (q, l'') = serialize_socket winsock 9 l₀ in
    (r ≡ err ErrorKind.custom) × (l'.world ≡ 0) × (q ≡ err ErrorKind.custom) × (l''.world ≡ 0)
sealed_sends_nothing_example =
    sealed_sends_nothing calls api winsock (record { pipe = 1; server = true }) start start sealed
      made 1 9 [] locals

-- Five and a half seconds, fifty days, and the milliseconds of an endless wait.
timeouts :
    (millis (some (5, 500000000)) ≡ 5500)
    × (millis (some (5, 500000000)) ≢ infinite)
    × (millis (some (4320000, 0)) < 4320000000)
    × (millis (some (4294967, 295000000)) ≡ millis none)
timeouts =
    millis-exact 5 500000000 4320000 0 4294967 295000000 (omega arith) (omega arith) (omega arith)
      (omega arith)
