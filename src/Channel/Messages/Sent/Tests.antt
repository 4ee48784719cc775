-- ===== src/Channel/Messages/Sent/Tests.antt =====
-- An end of a pair of src/channel.rs that goes to a child, on Windows.
use sandbox_ipc.Prelude.{
  ℕ, ◌+◌, ◌≡◌, refl, true, false, List, [], ◌∷◌, ◌++◌, Option, none, some, ltb,
}
use sandbox_ipc.Prelude.Io.{ok}
use sandbox_ipc.Channel.Owned.{Files}
use sandbox_ipc.Channel.Tokens.{Token, number}
use sandbox_ipc.Channel.Handles.{Winapi, ProcessHandle, Locals, remote_process}
use sandbox_ipc.Channel.Handles.Arrival.{before_deserialize, drop_deserialize}
use sandbox_ipc.Channel.Pipes
use sandbox_ipc.Channel.Messages.{message_channel, pre_pair, pre_into_channel}
use sandbox_ipc.Channel.Messages.Platforms.{windows}
use sandbox_ipc.Channel.Messages.Sent.{Pre, send_end, receive_end, pair_across}

-- Every handle is new.
abbrev fresh : ℕ → Option ℕ × ℕ
fresh next = (some next, next + 1)

abbrev calls : Pipes.Calls ℕ
calls = record {
  initialize_security_descriptor = λ w. (true, w);
  set_security_descriptor_dacl = λ w. (true, w);
  create_named_pipe = fresh;
  connect_named_pipe = λ pipe w. (false, w);
  last_error_is_io_pending = λ w. (true, w);
  create_file = fresh;
  get_overlapped_result = λ pipe timeout w. (true, w);
  wait_named_pipe = λ timeout w. (true, w);
  get_client_process_id = λ pipe w. (some 77, w);
  get_server_process_id = λ pipe w. (some 78, w);
  get_process_id = λ process w. (79, w);
  open_process = λ id w. fresh w;
  current_process_id = 80;
  clone_current_process = λ inherit w. fresh w;
  clone_process = λ process w. fresh w;
  modify = λ handle w. fresh w;
  close = λ handle w. w;
  register = λ pipe w. (ok tt, w);
}

-- Handles of the child are 100 above those of its parent.
abbrev api : Winapi ℕ
api = record {
  duplicate_here = λ handle w. (none, w);
  duplicate_to = λ process handle w. (some (handle + 100), w + 1);
  close = λ handle w. w;
  close_source = λ process handle w. w;
}

abbrev parent : ProcessHandle
parent = record { handle = 2; id = 80 }

abbrev child : ProcessHandle
child = record { handle = 3; id = 81 }

-- The pair has the handles 4 and 5.
abbrev near : Pre
near = record { inner = record { pipe = 4; server = true }; max_message_size = 512 }

abbrev far : Pre
far = record { inner = record { pipe = 5; server = false }; max_message_size = 512 }

abbrev before : Files ℕ
before = record { world = 4; opened = [] }

abbrev after : Files ℕ
after = record { world = 6; opened = 5 ∷ 4 ∷ [] }

paired : pre_pair (windows {T = ℕ} calls (λ name. true)) 512 before ≡ (ok (near, far), after)
unfolding pre_pair Pipes.pre_pair Pipes.raw_pipe_pair Pipes.client_end Pipes.begin_connection
    Pipes.handle_call Pipes.bool_call
paired = refl

abbrev sender : Locals ℕ
sender = record {
  world = 0;
  sender = some (record { target = remote_process child; handles = [] });
  receiver = none;
}

abbrev receiver : Locals ℕ
receiver = record { world = 0; sender = none; receiver = none }

-- The child sends to its parent by the handle 102.
pair_across_example :
    let (saved, r₀) = before_deserialize receiver in
    (tokens : List Token) × ((send_end api far parent sender).0 ≡ ok tokens)
    × (let (got, r₁) = receive_end api (λ h. ltb 0 h) (tokens ++ (number 9 ∷ [])) r₀ in
        (b' : Pre) × (here' : ProcessHandle) × (got ≡ ok ((b', here'), number 9 ∷ []))
        × (drop_deserialize saved r₁ ≡ receiver)
        × ((pre_into_channel (windows {T = ℕ} calls (λ name. true)) false near child after).0
            ≡ ok (
                message_channel
                  (record { pipe = 4; server = true; target = remote_process child })
                  512
                  false))
        × ((pre_into_channel (windows {T = ℕ} calls (λ name. true)) true b' here' before).0
            ≡ ok (
                message_channel
                  (record {
                    pipe = 105;
                    server = false;
                    target = remote_process (record { handle = 102; id = 80 });
                  })
                  512
                  true)))
pair_across_example =
    pair_across ℕ ℕ api api (λ h. ltb 0 h) calls calls (λ name. true) (λ name. true) false true 512
      105 102 near far parent child before after before
      (record { target = remote_process child; handles = [] }) sender receiver (number 9 ∷ [])
      paired refl refl refl refl refl refl refl
