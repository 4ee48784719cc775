-- ===== src/Channel/Datagram/Tests.antt =====
-- A channel of src/ser.rs over lists of messages, whose items are bytes, and the theorems at it.
pub mod Sizes
use sandbox_ipc.Prelude.{
  ℕ, zero, suc, ◌+◌, ◌≡◌, refl, arith, List, [], ◌∷◌, ◌++◌, take, drop, length,
}
use sandbox_ipc.Prelude.Io.{Result, ok, err, ErrorKind}
use sandbox_ipc.Channel.Datagram.{
  Transport, Codec, Wrapper, Datagram, wrap, start_send, poll_complete, encode,
}
use sandbox_ipc.Channel.Datagram.Outbox.{Sends, Op, send, flush, Each, perform, run, run-sends}
use sandbox_ipc.Channel.Datagram.Inbox.{Receives, all, one, polls, arrived, exchange}

-- The messages that have arrived and those sent, and the writes that would not block.
abbrev pub Wire : Type 0
Wire = List (List ℕ) × List (List ℕ) × ℕ

abbrev read : List ℕ → Wire → Result ℕ × List ℕ × Wire
read buffer ([], out, room) = (err ErrorKind.would_block, buffer, ([], out, room))
read buffer (m ∷ rest, out, room) = (ok (length m), m ++ drop (length m) buffer, (rest, out, room))

abbrev pub write : List ℕ → Wire → Result ℕ × Wire
write bytes (arrivals, out, zero) = (err ErrorKind.would_block, (arrivals, out, zero))
write bytes (arrivals, out, suc room) = (ok (length bytes), (arrivals, out ++ (bytes ∷ []), room))

abbrev wire : Transport Wire
wire = record { read = read; write = write }

abbrev pub encoding : ℕ → List ℕ
encoding x = x ∷ []

abbrev pub serialize_into : {G : Type 0} → ℕ → ℕ → List ℕ → G → Result ℕ × List ℕ × G
serialize_into limit x [] g = (err ErrorKind.invalid_input, [], g)
serialize_into limit x (b ∷ buffer) g = (ok 1, x ∷ buffer, g)

abbrev pub deserialize : {G : Type 0} → ℕ → List ℕ → G → Result ℕ × G
deserialize limit [] g = (err ErrorKind.invalid_data, g)
deserialize limit (x ∷ bytes) g = (ok x, g)

abbrev pub bytes : {G : Type 0} → Codec G ℕ ℕ
bytes = record { serialize_into = serialize_into; deserialize = deserialize }

-- `NoopWrapper`
abbrev pub noop : {G : Type 0} → Wrapper Wire G (Unit {0}) (Unit {0})
noop = record {
  before_serialize = λ io g. (tt, g);
  commit_serialize = λ guard io g. (ok tt, io, g);
  drop_serialize = λ guard g. g;
  before_deserialize = λ io g. (ok tt, g);
  commit_deserialize = λ guard g. g;
  drop_deserialize = λ guard g. g;
}

abbrev pub sent : Wire → List (List ℕ)
sent w = w.1

abbrev pub inbox : Wire → List (List ℕ)
inbox w = w.0

pub write-ok_lem :
    (m : List ℕ) (w : Wire) (n : ℕ)
    → (write m w).0 ≡ ok n
    → (n ≡ length m) × (sent (write m w).1 ≡ sent w ++ (m ∷ []))
write-ok_lem m (arrivals, out, zero) n e = ground arith
write-ok_lem m (arrivals, out, suc room) n e = ground arith

pub write-err_lem :
    (m : List ℕ) (w : Wire) (kind : ErrorKind)
    → (write m w).0 ≡ err kind
    → sent (write m w).1 ≡ sent w
write-err_lem m (arrivals, out, zero) kind e = refl
write-err_lem m (arrivals, out, suc room) kind e = ground arith

pub write-panic_lem :
    (m : List ℕ) (w : Wire) → (write m w).0 ≡ Result.panic → sent (write m w).1 ≡ sent w
write-panic_lem m (arrivals, out, zero) e = refl
write-panic_lem m (arrivals, out, suc room) e = ground arith

read-keeps_lem : (buffer : List ℕ) (w : Wire) → sent (read buffer w).2 ≡ sent w
read-keeps_lem buffer ([], out, room) = refl
read-keeps_lem buffer (m ∷ rest, out, room) = refl

pub encodes_lem :
    {G : Type 0} (limit x : ℕ) (buffer : List ℕ) (g : G) (n : ℕ)
    → (serialize_into limit x buffer g).0 ≡ ok n
    → take n (serialize_into limit x buffer g).1 ≡ encoding x
encodes_lem limit x [] g n e = ground arith
encodes_lem limit x (b ∷ buffer) g n e = ground arith

-- A codec that adds the thread-local state to each item, and counts it up.
abbrev stamp : ℕ → ℕ → List ℕ → ℕ → Result ℕ × List ℕ × ℕ
stamp limit x [] g = (err ErrorKind.invalid_input, [], g)
stamp limit x (b ∷ []) g = (err ErrorKind.invalid_input, b ∷ [], g)
stamp limit x (b ∷ c ∷ buffer) g = (ok 2, x ∷ g ∷ buffer, g + 1)

abbrev stamped : Codec ℕ ℕ ℕ
stamped = record { serialize_into = stamp; deserialize = deserialize }

wire-Sends : Sends wire stamped noop sent
wire-Sends = record {
  write-ok = write-ok_lem;
  write-err = write-err_lem;
  write-panic = write-panic_lem;
  read-keeps = read-keeps_lem;
  commit-keeps = λ guard s locals. refl;
}

read-next_lem :
    (buffer : List ℕ) (w : Wire) (m : List ℕ) (rest : List (List ℕ))
    → inbox w ≡ m ∷ rest
    → ((read buffer w).0 ≡ ok (length m))
      × ((read buffer w).1 ≡ m ++ drop (length m) buffer)
      × (inbox (read buffer w).2 ≡ rest)
read-next_lem buffer ([], out, room) m rest e = cc
read-next_lem buffer (m' ∷ rest', out, room) m rest e = ground arith

wire-Receives : Receives wire bytes (noop {G = Unit {0}}) inbox encoding
wire-Receives = record {
  read-next = λ buffer w m rest e fits. read-next_lem buffer w m rest e;
  before-ok = λ buffer s m rest locals e fits. (tt, refl);
  encodes = encodes_lem;
  decodes = λ limit x locals fits. refl;
}

-- With `room` for 1, the second write blocks: the third item is refused, and the second one waits.
abbrev sender : ℕ → Datagram Wire ℕ
sender room = wrap ([], [], room) 4 5

abbrev pub ops : List (Op ℕ)
ops = send 7 ∷ send 8 ∷ send 9 ∷ flush ∷ []

run-sends_example :
    ((run wire stamped noop ops (sender 1)).1.limit ≡ 4)
    × (messages : List (List ℕ)) × Each stamped 4 (7 ∷ 8 ∷ []) messages
    × ((7 ∷ 5 ∷ []) ∷ (8 ∷ 6 ∷ []) ∷ [] ≡ messages)
unfolding run perform start_send encode poll_complete
run-sends_example = run-sends wire stamped noop wire-Sends ops (sender 1)

abbrev receiver : Datagram Wire (Unit {0})
receiver = wrap ((7 ∷ []) ∷ (8 ∷ []) ∷ (9 ∷ []) ∷ [], [], 0) 4 tt
