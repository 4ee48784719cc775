-- ===== src/Channel/Datagram.antt =====
-- `BincodeDatagram` of src/ser.rs: messages encoded into one buffer and written, one at a time, to a
-- transport of datagrams. The transport, the codec and the wrapper around it are parameters.
pub mod Outbox
pub mod Inbox
pub mod Buffers
pub mod Sized
pub mod Accepted
pub mod Tests
use sandbox_ipc.Prelude.{
  ℕ, List, [], ◌∷◌, Option, none, some, leb, ◌==◌, if◌then◌else◌, take, length, replicate,
}
use sandbox_ipc.Prelude.Io.{Result, ok, err, panic, ErrorKind, would_block}
use sandbox_ipc.Prelude.State.{St, ◌>>=◌, pure, lift}

-- `futures::Async`, and `futures::AsyncSink`, which hands a refused item back.
pub data Async (A : Type 0) : Type 0 where
  ready : A → Async A
  not_ready : Async A

pub data AsyncSink (T : Type 0) : Type 0 where
  accepted : AsyncSink T
  refused : T → AsyncSink T

-- `io::Read` gives the buffer back as it is after the call.
pub record Transport (S : Type 0) : Type 0 where
  pub read : (buffer : List ℕ) → S → Result ℕ × List ℕ × S
  pub write : (bytes : List ℕ) → S → Result ℕ × S

-- bincode with its limit, over the thread-local state `G` that the items' own code reads and writes:
-- the position of the cursor and the buffer after encoding, and the item decoded.
pub record Codec (G T R : Type 0) : Type 0 where
  pub serialize_into : (limit : ℕ) → T → (buffer : List ℕ) → G → Result ℕ × List ℕ × G
  pub deserialize : (limit : ℕ) → List ℕ → G → Result R × G

-- `SerializeWrapper` with its two kinds of guards. A commit drops its guard, too.
pub record Wrapper (S G K D : Type 0) : Type 0 where
  pub before_serialize : S → G → K × G
  pub commit_serialize : K → S → G → Result (Unit {0}) × S × G
  pub drop_serialize : K → G → G
  pub before_deserialize : S → G → Result D × G
  pub commit_deserialize : D → G → G
  pub drop_deserialize : D → G → G

-- The object, and the thread-local state of the thread that uses it.
pub record Datagram (S G : Type 0) : Type 0 where
  pub io : S
  pub limit : ℕ
  pub rx_buffer : List ℕ
  pub tx_buffer : List ℕ
  pub buffered_send : Option ℕ
  pub locals : G

abbrev pub wrap : {S G : Type 0} → S → (buffer_size : ℕ) → G → Datagram S G
wrap io buffer_size locals = record {
  io = io;
  limit = buffer_size;
  rx_buffer = replicate buffer_size 0;
  tx_buffer = replicate buffer_size 0;
  buffered_send = none;
  locals = locals;
}

-- `try_nb!`: an error of the kind `WouldBlock` is no error.
abbrev pub try_nb : {S A B : Type 0} → Result A → (A → St S (Async B)) → St S (Async B)
try_nb (ok a) f s = f a s
try_nb (err would_block) f s = (ok not_ready, s)
try_nb (err kind) f s = (err kind, s)
try_nb panic f s = (panic, s)

module _ {S G K D T R : Type 0} (transport : Transport S) (codec : Codec G T R)
    (wrapper : Wrapper S G K D) where
  -- The rest of `poll`, with the guard: a slice out of range is a panic.
  abbrev pub decode : (message_size : ℕ) → D → St (Datagram S G) (Async (Option R))
  decode message_size guard d =
      let (r, locals) =
        if leb message_size (length d.rx_buffer)
        then codec.deserialize d.limit (take message_size d.rx_buffer) d.locals
        else (panic, d.locals) in
      elim r [
        | ok message ↦ (
          ok (ready (some message)),
          record d { locals = wrapper.commit_deserialize guard locals },
        )
        | err kind ↦ (
          err ErrorKind.invalid_data,
          record d { locals = wrapper.drop_deserialize guard locals },
        )
        | panic ↦ (panic, record d { locals = wrapper.drop_deserialize guard locals })
      ]

  abbrev pub received : (message_size : ℕ) → St (Datagram S G) (Async (Option R))
  received message_size d =
      if message_size == 0
      then (ok (ready none), d)
      else (let (guard, locals) = wrapper.before_deserialize d.io d.locals in
          (lift guard >>= decode message_size) (record d { locals = locals }))

  unfoldable pub poll : St (Datagram S G) (Async (Option R))
  poll d =
      let (r, buffer, io) = transport.read d.rx_buffer d.io in
      try_nb r received (record d { rx_buffer = buffer; io = io })

  abbrev pub written : (msg_len written_bytes : ℕ) → St (Datagram S G) (Async (Unit {0}))
  written msg_len written_bytes d =
      if written_bytes == msg_len
      then (ok (ready tt), record d { buffered_send = none })
      else (err ErrorKind.write_zero, d)

  unfoldable pub poll_complete : St (Datagram S G) (Async (Unit {0}))
  poll_complete d = elim d.buffered_send [
    | none ↦ (ok (ready tt), d)
    | some msg_len ↦
        let (r, io) =
          if leb msg_len (length d.tx_buffer)
          then transport.write (take msg_len d.tx_buffer) d.io
          else (panic, d.io) in
        try_nb r (written msg_len) (record d { io = io })
  ]

  -- The rest of `start_send`, when nothing is buffered.
  unfoldable pub encode : T → St (Datagram S G) (AsyncSink T)
  encode item d =
      let (guard, before) = wrapper.before_serialize d.io d.locals in
      let (r, buffer, locals) = codec.serialize_into d.limit item d.tx_buffer before in
      elim r [
        | ok position ↦
            let (c, io, after) = wrapper.commit_serialize guard d.io locals in
            elim c [
              | ok done ↦ (
                ok accepted,
                record d {
                  io = io;
                  tx_buffer = buffer;
                  locals = after;
                  buffered_send = some position;
                },
              )
              | err kind ↦ (err kind, record d { io = io; tx_buffer = buffer; locals = after })
              | panic ↦ (panic, record d { io = io; tx_buffer = buffer; locals = after })
            ]
        | err kind ↦ (
          err ErrorKind.invalid_input,
          record d { tx_buffer = buffer; locals = wrapper.drop_serialize guard locals },
        )
        | panic ↦
            (panic, record d { tx_buffer = buffer; locals = wrapper.drop_serialize guard locals })
      ]

  -- What is buffered goes first.
  unfoldable pub start_send : T → St (Datagram S G) (AsyncSink T)
  unfolding poll_complete encode
  start_send item d = elim d.buffered_send [
    | none ↦ encode item d
    | some msg_len ↦
        (poll_complete >>= λ flushed. elim flushed [
          | ready done ↦ encode item
          | not_ready ↦ pure (refused item)
        ])
          d
  ]
