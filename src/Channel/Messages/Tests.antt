-- ===== src/Channel/Messages/Tests.antt =====
-- A platform whose channels are lists of messages, below src/channel.rs.
use sandbox_ipc.Prelude.{
  ℕ, zero, suc, ◌≡◌, ◌≤◌, refl, arith, List, [], ◌∷◌, ◌++◌, take, drop, length, Option, none, some,
  ap,
}
use sandbox_ipc.Prelude.Io.{ok}
use sandbox_ipc.Prelude.State.{St, ◌>>=◌, pure}
use sandbox_ipc.Channel.Datagram.{Wrapper, start_send, encode, poll_complete}
use sandbox_ipc.Channel.Datagram.Outbox.{Sends, Op, send, flush}
use sandbox_ipc.Channel.Datagram.Inbox.{Receives, arrived}
use sandbox_ipc.Channel.Datagram.Tests.{
  Wire, bytes, encoding, sent, inbox, write-ok_lem, write-err_lem, write-panic_lem, encodes_lem,
}
use sandbox_ipc.Channel.Datagram.Tests.Sizes.{cutting, read_cut, cutting-Lent}
use sandbox_ipc.Channel.Messages.{
  Platform, MessageChannel, ChildMessageChannel, message_channel, pair, from_raw,
  establish_with_child, into_channel, accept, connect, pre_into_channel, pre_into_sealed_channel,
  named_new, pre_pair, raw_pair, raw_establish_with_child, raw_into_channel, into_raw_channel,
  into_sealed_raw_channel,
}
use sandbox_ipc.Channel.Messages.Stream as Stream
use sandbox_ipc.Channel.Messages.Stream.{perform, run, polls}
use sandbox_ipc.Channel.Handles
use sandbox_ipc.Channel.Handles.{Winapi, HandleSender, Locals, current_process}
use sandbox_ipc.Channel.Handles.Arrival.{before_deserialize, drop_deserialize}
use sandbox_ipc.Channel.Messages.Made.{Made, channels_made}
use sandbox_ipc.Channel.Messages.Exchange.{pair-exchange}
use sandbox_ipc.Channel.Messages.Raw.{upgraded_made}

read-keeps_lem : (buffer : List ℕ) (w : Wire) → sent (read_cut buffer w).2 ≡ sent w
read-keeps_lem buffer ([], out, room) = refl
read-keeps_lem buffer (m ∷ rest, out, room) = refl

-- No handle is sent.
abbrev api : Winapi ℕ
api = record {
  duplicate_here = λ handle w. (none, w);
  duplicate_to = λ process handle w. (none, w);
  close = λ handle w. w;
  close_source = λ process handle w. w;
}

abbrev locals : Locals ℕ
locals = record { world = 0; sender = none; receiver = none }

-- `ChannelSerializeWrapper` of src/windows/mod.rs, for a channel to this process.
abbrev handles : Wrapper Wire (Locals ℕ) (Option HandleSender) (Option (Unit {0}))
handles = record {
  before_serialize = λ io l. Handles.before_serialize current_process l;
  commit_serialize =
      λ guard io l. let (r, l') = Handles.commit_serialize api guard l in (r, io, l');
  drop_serialize = Handles.drop_serialize api;
  before_deserialize = λ io l. let (saved, l') = before_deserialize l in (ok saved, l');
  commit_deserialize = drop_deserialize;
  drop_deserialize = drop_deserialize;
}

cutting-Sends : Sends cutting (bytes {G = Locals ℕ}) handles sent
cutting-Sends = record {
  write-ok = write-ok_lem;
  write-err = write-err_lem;
  write-panic = write-panic_lem;
  read-keeps = read-keeps_lem;
  commit-keeps = λ guard s locals. refl;
}

take_all : (m : List ℕ) (n : ℕ) → length m ≤ n → take n m ≡ m
take_all [] zero le = refl
take_all [] (suc n) le = refl
take_all (x ∷ m) zero le = absurd (omega arith)
take_all (x ∷ m) (suc n) le = ap (λ t. x ∷ t) (take_all m n (omega arith))

read-next_lem :
    (buffer : List ℕ) (w : Wire) (m : List ℕ) (rest : List (List ℕ))
    → inbox w ≡ m ∷ rest
    → length m ≤ length buffer
    → ((read_cut buffer w).0 ≡ ok (length m))
      × ((read_cut buffer w).1 ≡ m ++ drop (length m) buffer)
      × (inbox (read_cut buffer w).2 ≡ rest)
read-next_lem buffer ([], out, room) m rest e fits = cc
read-next_lem buffer (m' ∷ rest', out, room) m rest e fits =
    ground (arith, take_all m (length buffer) fits)

cutting-Receives : Receives cutting bytes handles inbox encoding
unfolding before_deserialize
cutting-Receives = record {
  read-next = read-next_lem;
  before-ok = λ buffer s m rest l e fits. (l.receiver, refl);
  encodes = encodes_lem;
  decodes = λ limit x locals fits. refl;
}

-- Five writes do not block.
abbrev wire : Wire
wire = ([], [], 5)

abbrev platform : Platform (Unit {0}) Wire ℕ ℕ (Unit {0}) ℕ ℕ ℕ
platform = record {
  pair = pure (wire, wire);
  establish_with_child = λ transmit. transmit 3 >>= λ l. pure (wire, l);
  establish_with_child_custom = λ transmit. transmit 3 >>= λ r. pure (wire, r.1);
  drop_child = λ k. pure tt;
  child_into_channel = λ k. pure wire;
  named_new = pure 1;
  named_accept = λ named timeout. pure wire;
  named_connect = λ name timeout. pure wire;
  pre_pair = pure (1, 2);
  pre_into_channel = λ p h. pure wire;
  pre_into_sealed_channel = λ p. pure wire;
}

abbrev channel : ℕ → MessageChannel Wire (Unit {0})
channel size = message_channel wire size tt

-- The child is told through its closure, which gives the handle and the size as the child.
abbrev transmit : ChildMessageChannel ℕ → St (Unit {0}) ℕ
transmit child = pure child.max_message_size

channels_made_example :
    Made 4 tt (channel 4)
    × Made 4 tt (channel 4)
    × Made 4 tt (channel 4)
    × Made 4 tt (channel 4)
    × Made 6 tt (channel 6)
    × Made 4 tt (channel 4)
    × Made 4 tt (channel 4)
    × Made 4 tt (channel 4)
unfolding pair establish_with_child connect into_channel named_new accept pre_pair pre_into_channel
    pre_into_sealed_channel
channels_made_example =
    channels_made platform tt 4 transmit (97 ∷ []) (some (1, 0))
      (record { inner = 3; max_message_size = 6 }) tt (channel 4) (channel 4) (channel 4)
      (channel 4) (channel 6) (channel 4) (channel 4) (channel 4) 4
      (record { inner = 1; max_message_size = 4 }) (record { inner = 1; max_message_size = 4 })
      (record { inner = 2; max_message_size = 4 }) tt tt tt tt tt tt tt tt tt tt refl refl refl refl
      refl refl refl refl refl

abbrev ops : List (Op ℕ)
ops = send 7 ∷ send 8 ∷ flush ∷ []

-- An end whose messages may carry handles, with its thread-local state.
abbrev talking : MessageChannel Wire (Locals ℕ)
talking = message_channel wire 4 locals

pair-exchange_example :
    (polls cutting bytes handles 2 (record talking {
      inner = record talking.inner { io = ((7 ∷ []) ∷ (8 ∷ []) ∷ [], [], 0) };
    })).0
    ≡ arrived (7 ∷ 8 ∷ [])
unfolding pair run perform Stream.start_send Stream.poll_complete start_send encode poll_complete
    Handles.before_serialize Handles.commit_serialize Handles.drop_serialize Handles.drop_sender
    Handles.close_all
pair-exchange_example =
    pair-exchange cutting-Lent cutting-Sends cutting-Receives (λ item. omega arith) platform 4
      locals tt tt talking talking ops ((7 ∷ []) ∷ (8 ∷ []) ∷ [], [], 0) refl refl refl refl

upgraded_made_example :
    Made 4 tt (channel 4)
    × Made 4 tt (channel 4)
    × Made 4 tt (channel 4)
    × Made 4 tt (channel 4)
    × Made 4 tt (channel 4)
    × Made 4 tt (channel 4)
unfolding raw_pair raw_establish_with_child raw_into_channel into_raw_channel
    into_sealed_raw_channel from_raw
upgraded_made_example =
    upgraded_made platform tt 4 transmit 3 1 tt (channel 4) (channel 4) (channel 4) (channel 4)
      (channel 4) (channel 4) 4 tt tt tt tt tt tt refl refl refl refl refl
