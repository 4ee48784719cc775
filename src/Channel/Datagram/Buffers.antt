-- ===== src/Channel/Datagram/Buffers.antt =====
-- The buffers of a `BincodeDatagram` of src/ser.rs keep their size, whatever comes of its operations.
use sandbox_ipc.Prelude.{
  ℕ, ◌≤◌, ◌≡◌, refl, List, Option-cases, inl, inr, some, arith, length, length-replicate,
}
use sandbox_ipc.Prelude.Io.{ok, Result-cases}
use sandbox_ipc.Channel.Datagram.{
  Transport, Codec, Wrapper, Datagram, wrap, start_send, poll_complete, poll, encode,
}
use sandbox_ipc.Channel.Datagram.Outbox.{Op, send, flush, receive, perform}

-- What reads and the codec document of the buffers that they are lent: they keep their length, and
-- what the codec has written fits.
pub record Lent {S G T R : Type 0} (transport : Transport S) (codec : Codec G T R) : Type 0 where
  pub read-length : (buffer : List ℕ) (s : S) → length (transport.read buffer s).1 ≡ length buffer
  pub serialize-length :
      (limit : ℕ) (item : T) (buffer : List ℕ) (g : G)
      → length (codec.serialize_into limit item buffer g).1 ≡ length buffer
  pub serialize-count :
      (limit : ℕ) (item : T) (buffer : List ℕ) (g : G) (n : ℕ)
      → (codec.serialize_into limit item buffer g).0 ≡ ok n
      → n ≤ length buffer

-- Both buffers are as long as the limit, and so is at most the message that waits in one.
pub record Sized {S G : Type 0} (size : ℕ) (d : Datagram S G) : Type 0 where
  pub limit_size : d.limit ≡ size
  pub rx_size : length d.rx_buffer ≡ size
  pub tx_size : length d.tx_buffer ≡ size
  pub waiting : (n : ℕ) → d.buffered_send ≡ some n → n ≤ size

pub wrap-Sized : {S G : Type 0} (io : S) (size : ℕ) (locals : G) → Sized size (wrap io size locals)
wrap-Sized io size locals = record {
  limit_size = refl;
  rx_size = length-replicate size 0;
  tx_size = length-replicate size 0;
  waiting = λ n e. cc;
}

module _ {S G K D T R : Type 0} (transport : Transport S) (codec : Codec G T R)
    (wrapper : Wrapper S G K D) (lent : Lent transport codec) {size : ℕ} where
  pub poll-Sized : (d : Datagram S G) → Sized size d → Sized size (poll transport codec wrapper d).1
  unfolding poll
  poll-Sized d sized =
      let kept = bounded-read d in
      ground (arith, sized.limit_size, sized.rx_size, sized.tx_size, sized.waiting, kept)
    where
      bounded-read :
          (d : Datagram S G) → length (transport.read d.rx_buffer d.io).1 ≡ length d.rx_buffer
      bounded-read d = lent.read-length d.rx_buffer d.io

  pub encode-Sized :
      (item : T) (d : Datagram S G)
      → Sized size d
      → Sized size (encode transport codec wrapper item d).1
  unfolding encode
  encode-Sized item d sized =
      let (guard, before) = wrapper.before_serialize d.io d.locals in
      let (r, buffer, locals) = codec.serialize_into d.limit item d.tx_buffer before in
      let kept = lent.serialize-length d.limit item d.tx_buffer before in
      elim (Result-cases r) [
        | inl (n, e) ↦ ground (
          arith,
          e,
          sized.limit_size,
          sized.rx_size,
          sized.tx_size,
          sized.waiting,
          kept,
          lent.serialize-count d.limit item d.tx_buffer before n e,
        )
        | inr (inl (kind, e)) ↦
            ground (arith, e, sized.limit_size, sized.rx_size, sized.tx_size, sized.waiting, kept)
        | inr (inr e) ↦
            ground (arith, e, sized.limit_size, sized.rx_size, sized.tx_size, sized.waiting, kept)
      ]

  pub poll_complete-Sized :
      (d : Datagram S G) → Sized size d → Sized size (poll_complete transport codec wrapper d).1
  unfolding poll_complete
  poll_complete-Sized d sized = elim (Option-cases d.buffered_send) [
    | inl e ↦ ground (arith, e, sized.limit_size, sized.rx_size, sized.tx_size, sized.waiting)
    | inr (n, e) ↦
        ground (arith, e, sized.limit_size, sized.rx_size, sized.tx_size, sized.waiting n e)
  ]

  pub start_send-Sized :
      (item : T) (d : Datagram S G)
      → Sized size d
      → Sized size (start_send transport codec wrapper item d).1
  unfolding start_send
  start_send-Sized item d sized = elim (Option-cases d.buffered_send) [
    | inl e ↦ ground (arith, e, encode-Sized item d sized)
    | inr (n, e) ↦
        let sized' = poll_complete-Sized d sized in
        let flushed = poll_complete transport codec wrapper d in
        ground (arith, e, sized', encode-Sized item flushed.1 sized')
  ]

  pub perform-Sized :
      (op : Op T) (d : Datagram S G)
      → Sized size d
      → Sized size (perform transport codec wrapper op d).1
  unfolding perform
  perform-Sized (send item) d sized = start_send-Sized item d sized
  perform-Sized flush d sized = poll_complete-Sized d sized
  perform-Sized receive d sized = poll-Sized d sized
