-- ===== src/Channel/Datagram/Inbox.antt =====
-- What a `BincodeDatagram` of src/ser.rs receives: the messages that the other end has accepted.
use sandbox_ipc.Prelude.{
  append_nil, take, take-append, ℕ, zero, suc, ◌≤◌, ◌<◌, ◌≡◌, List, [], ◌∷◌, ◌++◌, Option, some,
  none, arith, drop, length, length-append, length-drop, refl,
}
use sandbox_ipc.Prelude.Io.{Result, ok}
use sandbox_ipc.Channel.Datagram.{Async, ready, Transport, Codec, Wrapper, Datagram, poll}
use sandbox_ipc.Channel.Datagram.Outbox
use sandbox_ipc.Channel.Datagram.Outbox.{Sends, Op, Each, nil, cons, encodings, run-sends}

-- What a transport of datagrams documents, with what has arrived: a read takes the next message, and
-- puts it at the front of a buffer that can hold it, and the wrapper lends a guard for such a message.
-- The codec gives each item its encoding, whatever the thread-local state, and decodes it: an item
-- without resources. No law is about the other states of the wrapper.
pub record Receives {S G K D T : Type 0} (transport : Transport S) (codec : Codec G T T)
    (wrapper : Wrapper S G K D) (inbox : S → List (List ℕ)) (encoding : T → List ℕ) : Type 0 where
  pub read-next :
      (buffer : List ℕ) (s : S) (m : List ℕ) (rest : List (List ℕ))
      → inbox s ≡ m ∷ rest
      → length m ≤ length buffer
      → ((transport.read buffer s).0 ≡ ok (length m))
        × ((transport.read buffer s).1 ≡ m ++ drop (length m) buffer)
        × (inbox (transport.read buffer s).2 ≡ rest)
  pub before-ok :
      (buffer : List ℕ) (s : S) (m : List ℕ) (rest : List (List ℕ)) (locals : G)
      → inbox s ≡ m ∷ rest
      → length m ≤ length buffer
      → (guard : D) × ((wrapper.before_deserialize (transport.read buffer s).2 locals).0 ≡ ok guard)
  pub encodes :
      (limit : ℕ) (item : T) (buffer : List ℕ) (locals : G) (n : ℕ)
      → (codec.serialize_into limit item buffer locals).0 ≡ ok n
      → take n (codec.serialize_into limit item buffer locals).1 ≡ encoding item
  pub decodes :
      (limit : ℕ) (item : T) (locals : G)
      → length (encoding item) ≤ limit
      → (codec.deserialize limit (encoding item) locals).0 ≡ ok item

-- Encodings that are not empty and at most `size` bytes long.
pub data Fit {T : Type 0} (encoding : T → List ℕ) (size : ℕ) : List T → Type 0 where
  all : Fit encoding size []
  one :
      {x : T} {xs : List T}
      → 0 < length (encoding x)
      → length (encoding x) ≤ size
      → Fit encoding size xs
      → Fit encoding size (x ∷ xs)

abbrev pub arrived : {T : Type 0} → List T → List (Result (Async (Option T)))
arrived [] = []
arrived (x ∷ xs) = ok (ready (some x)) ∷ arrived xs

module _ {S G K D T : Type 0} (transport : Transport S) (codec : Codec G T T)
    (wrapper : Wrapper S G K D) where
  -- `n` calls of `poll`.
  unfoldable pub polls : ℕ → Datagram S G → List (Result (Async (Option T))) × Datagram S G
  polls zero d = ([], d)
  polls (suc n) d =
      let (r, d') = poll transport codec wrapper d in let (rs, d'') = polls n d' in (r ∷ rs, d'')

  module _ {inbox : S → List (List ℕ)} {encoding : T → List ℕ}
      (receives : Receives transport codec wrapper inbox encoding) where
    -- The messages that the codec makes of items are their encodings.
    encodings_of :
        {limit : ℕ} {items : List T} {messages : List (List ℕ)}
        → Each codec limit items messages
        → messages ≡ encodings encoding items
    encodings_of nil = refl
    encodings_of {limit} (cons {item = x} enc each) = cc (
      enc.front,
      receives.encodes limit x enc.buffer enc.locals enc.size enc.result,
      encodings_of each,
    )

    poll_lem :
        (d : Datagram S G) (x : T) (rest : List (List ℕ))
        → inbox d.io ≡ encoding x ∷ rest
        → 0 < length (encoding x)
        → length (encoding x) ≤ length d.rx_buffer
        → length (encoding x) ≤ d.limit
        → let (r, d') = poll transport codec wrapper d in
          (r ≡ ok (ready (some x)))
          × (inbox d'.io ≡ rest)
          × (length d'.rx_buffer ≡ length d.rx_buffer)
          × (d'.limit ≡ d.limit)
    unfolding poll
    poll_lem d x rest e pos fits small =
        let next = receives.read-next d.rx_buffer d.io (encoding x) rest e fits in
        let (guard, before) =
          receives.before-ok d.rx_buffer d.io (encoding x) rest d.locals e fits in
        let locals = (wrapper.before_deserialize (transport.read d.rx_buffer d.io).2 d.locals).1 in
        ground (
          arith,
          next,
          before,
          receives.decodes d.limit x locals small,
          take-append (encoding x) (drop (length (encoding x)) d.rx_buffer),
          length-append (encoding x) (drop (length (encoding x)) d.rx_buffer),
          length-drop (length (encoding x)) d.rx_buffer,
        )

    drain :
        (items : List T) (d : Datagram S G) (size : ℕ)
        → size ≤ length d.rx_buffer
        → size ≤ d.limit
        → Fit encoding size items
        → inbox d.io ≡ encodings encoding items
        → (polls (length items) d).0 ≡ arrived items
    unfolding polls
    drain [] d size room limit all e = refl
    drain (x ∷ xs) d size room limit (one pos fits rest) e =
        let (r, now, same, same') =
          poll_lem d x (encodings encoding xs) e pos (omega arith) (omega arith) in
        cc
          (r, drain xs (poll transport codec wrapper d).1 size (omega arith) (omega arith) rest now)

    -- What one end accepts, the other receives: when a channel that had sent nothing has performed
    -- any operations and nothing waits in its buffer, and what it has sent arrives at another one,
    -- then as many polls there as items were accepted give these items, in order. The encodings
    -- must not be empty and must fit the receiver's buffer and limit.
    pub exchange :
        {sent : S → List (List ℕ)} (sends : Sends transport codec wrapper sent) (ops : List (Op T))
        (d other : Datagram S G) (size : ℕ)
        → sent d.io ≡ []
        → d.buffered_send ≡ none
        → (Outbox.run transport codec wrapper ops d).1.buffered_send ≡ none
        → inbox other.io ≡ sent (Outbox.run transport codec wrapper ops d).1.io
        → size ≤ length other.rx_buffer
        → size ≤ other.limit
        → Fit encoding size (Outbox.run transport codec wrapper ops d).0
        → let items = (Outbox.run transport codec wrapper ops d).0 in
          (polls (length items) other).0 ≡ arrived items
    exchange {sent} sends ops d other size fresh idle done e room limit fit =
        let (items, d') = Outbox.run transport codec wrapper ops d in
        let (limit', messages, each, all_sent) = run-sends transport codec wrapper sends ops d in
        let known = encodings_of each in
        drain items other size room limit fit
          (ground (arith, e, all_sent, known, fresh, idle, done, append_nil (sent d'.io)))
