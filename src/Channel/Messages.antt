-- ===== src/Channel/Messages.antt =====
-- The channels of src/channel.rs over either platform: `MessageChannel` with its encoding, the raw
-- channels, and the ways from one to the other.
pub mod Platforms
pub mod Made
pub mod Stream
pub mod Exchange
pub mod Raw
pub mod Sent
pub mod Arrival
mod Tests
use sandbox_ipc.Prelude.{ℕ, List, Option}
use sandbox_ipc.Prelude.Io.{Result, ok, err, panic}
use sandbox_ipc.Prelude.State.{St, ◌>>=◌, ◌>>◌, pure, finally}
use sandbox_ipc.Channel.Datagram.{Datagram, wrap}

-- What a platform offers, over the state `S` of the process: its channels `C`, what a child is told
-- `K`, the ends of a pair to be sent `P`, process handles `H` and named channels `N`. `L` is a child,
-- and `T` what a custom closure returns. A name is given by its bytes, and a timeout by its seconds
-- and nanoseconds.
pub record Platform (S C K P H N L T : Type 0) : Type 0 where
  pub pair : St S (C × C)
  pub establish_with_child : (K → St S L) → St S (C × L)
  pub establish_with_child_custom : (K → St S (H × T)) → St S (C × T)
  pub drop_child : K → St S (Unit {0})
  pub child_into_channel : K → St S C
  pub named_new : St S N
  pub named_accept : N → (timeout : Option (ℕ × ℕ)) → St S C
  pub named_connect : (name : List ℕ) → (timeout : Option (ℕ × ℕ)) → St S C
  pub pre_pair : St S (P × P)
  pub pre_into_channel : P → H → St S C
  pub pre_into_sealed_channel : P → St S C

-- `G` is the thread-local state that the encoding uses.
pub record MessageChannel (C G : Type 0) : Type 0 where
  pub inner : Datagram C G
  pub max_message_size : ℕ

pub record ChildMessageChannel (K : Type 0) : Type 0 where
  pub inner : K
  pub max_message_size : ℕ

pub record NamedMessageChannel (N : Type 0) : Type 0 where
  pub inner : N
  pub max_message_size : ℕ

pub record PreMessageChannel (P : Type 0) : Type 0 where
  pub inner : P
  pub max_message_size : ℕ

pub record RawMessageChannel (C : Type 0) : Type 0 where
  pub inner : C

pub record ChildRawMessageChannel (K : Type 0) : Type 0 where
  pub inner : K

pub record PreRawMessageChannel (P : Type 0) : Type 0 where
  pub inner : P

abbrev pub message_channel : {C G : Type 0} → C → (max_message_size : ℕ) → G → MessageChannel C G
message_channel c max_message_size locals = record {
  inner = wrap c max_message_size locals;
  max_message_size = max_message_size;
}

module _ {S C K P H N L T G : Type 0} (platform : Platform S C K P H N L T) (locals : G) where
  unfoldable pub pair : (max_message_size : ℕ) → St S (MessageChannel C G × MessageChannel C G)
  pair max_message_size = do
    (a, b) ← platform.pair
    pure (message_channel a max_message_size locals, message_channel b max_message_size locals)

  unfoldable pub from_raw : RawMessageChannel C → (max_message_size : ℕ) → St S (MessageChannel C G)
  from_raw channel max_message_size = pure (message_channel channel.inner max_message_size locals)

  -- The closure borrows what the child is told, which is dropped after it.
  unfoldable pub establish_with_child :
      (max_message_size : ℕ) → (ChildMessageChannel K → St S L) → St S (MessageChannel C G × L)
  establish_with_child max_message_size transmit_and_launch = do
    (raw_channel, child) ← platform.establish_with_child (λ channel.
        finally (platform.drop_child channel)
          (transmit_and_launch (record { inner = channel; max_message_size = max_message_size })))
    pure (message_channel raw_channel max_message_size locals, child)

  unfoldable pub into_channel : ChildMessageChannel K → St S (MessageChannel C G)
  into_channel child = do
    inner ← platform.child_into_channel child.inner
    pure (message_channel inner child.max_message_size locals)

  unfoldable pub accept :
      NamedMessageChannel N → (timeout : Option (ℕ × ℕ)) → St S (MessageChannel C G)
  accept named timeout = do
    inner ← platform.named_accept named.inner timeout
    pure (message_channel inner named.max_message_size locals)

  unfoldable pub connect :
      (name : List ℕ)
      → (timeout : Option (ℕ × ℕ)) → (max_message_size : ℕ) → St S (MessageChannel C G)
  connect name timeout max_message_size = do
    inner ← platform.named_connect name timeout
    pure (message_channel inner max_message_size locals)

  unfoldable pub pre_into_channel : PreMessageChannel P → H → St S (MessageChannel C G)
  pre_into_channel pre remote_process = do
    channel ← platform.pre_into_channel pre.inner remote_process
    pure (message_channel channel pre.max_message_size locals)

  unfoldable pub pre_into_sealed_channel : PreMessageChannel P → St S (MessageChannel C G)
  pre_into_sealed_channel pre = do
    channel ← platform.pre_into_sealed_channel pre.inner
    pure (message_channel channel pre.max_message_size locals)

module _ {S C K P H N L T : Type 0} (platform : Platform S C K P H N L T) where
  unfoldable pub named_new : (max_message_size : ℕ) → St S (NamedMessageChannel N)
  named_new max_message_size = do
    inner ← platform.named_new
    pure (record { inner = inner; max_message_size = max_message_size })

  unfoldable pub pre_pair :
      (max_message_size : ℕ) → St S (PreMessageChannel P × PreMessageChannel P)
  pre_pair max_message_size = do
    (a, b) ← platform.pre_pair
    pure (
      record { inner = a; max_message_size = max_message_size },
      record { inner = b; max_message_size = max_message_size },
    )

  unfoldable pub raw_pair : St S (RawMessageChannel C × RawMessageChannel C)
  raw_pair = do (a, b) ← platform.pair; pure (record { inner = a }, record { inner = b })

  unfoldable pub raw_establish_with_child :
      (ChildRawMessageChannel K → St S L) → St S (RawMessageChannel C × L)
  raw_establish_with_child transmit_and_launch = do
    (channel, child) ←
        platform.establish_with_child
          (λ child_channel. transmit_and_launch (record { inner = child_channel }))
    pure (record { inner = channel }, child)

  unfoldable pub raw_establish_with_child_custom :
      (ChildRawMessageChannel K → St S (H × T)) → St S (RawMessageChannel C × T)
  raw_establish_with_child_custom transmit_and_launch = do
    (channel, t) ←
        platform.establish_with_child_custom
          (λ child_channel. transmit_and_launch (record { inner = child_channel }))
    pure (record { inner = channel }, t)

  unfoldable pub raw_into_channel : ChildRawMessageChannel K → St S (RawMessageChannel C)
  raw_into_channel child = do
    inner ← platform.child_into_channel child.inner
    pure (record { inner = inner })

  unfoldable pub pre_raw_pair : St S (PreRawMessageChannel P × PreRawMessageChannel P)
  pre_raw_pair = do (a, b) ← platform.pre_pair; pure (record { inner = a }, record { inner = b })

  unfoldable pub into_raw_channel : PreRawMessageChannel P → H → St S (RawMessageChannel C)
  into_raw_channel pre remote_process = do
    channel ← platform.pre_into_channel pre.inner remote_process
    pure (record { inner = channel })

  unfoldable pub into_sealed_raw_channel : PreRawMessageChannel P → St S (RawMessageChannel C)
  into_sealed_raw_channel pre = do
    channel ← platform.pre_into_sealed_channel pre.inner
    pure (record { inner = channel })
