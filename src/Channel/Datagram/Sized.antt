-- ===== src/Channel/Datagram/Sized.antt =====
-- The operations of a `BincodeDatagram` of src/ser.rs do not panic: its buffers keep their size, so that
-- no slice is out of range.
use sandbox_ipc.Prelude.{
  ℕ, ◌≤◌, ◌≡◌, ◌≢◌, List, [], ◌∷◌, Option-cases, inl, inr, arith, length, take,
}
use sandbox_ipc.Prelude.Io.{ok, panic, Result-cases}
use sandbox_ipc.Channel.Datagram.{
  Transport, Codec, Wrapper, Datagram, wrap, start_send, poll_complete, poll, encode,
}
use sandbox_ipc.Channel.Datagram.Outbox.{Op, run}
use sandbox_ipc.Channel.Datagram.Buffers.{
  Lent, Sized, wrap-Sized, poll_complete-Sized, perform-Sized,
}

-- What reads and the codec document of the buffers that they are lent: they keep their length, and
-- a count of bytes is at most that. Nothing else panics.
pub record Bounded {S G K D T R : Type 0} (transport : Transport S) (codec : Codec G T R)
    (wrapper : Wrapper S G K D) : Type 0 where
  pub lent : Lent transport codec
  pub read-count :
      (buffer : List ℕ) (s : S) (n : ℕ) → (transport.read buffer s).0 ≡ ok n → n ≤ length buffer
  pub read_calm : (buffer : List ℕ) (s : S) → (transport.read buffer s).0 ≢ panic
  pub write_calm : (bytes : List ℕ) (s : S) → (transport.write bytes s).0 ≢ panic
  pub serialize_calm :
      (limit : ℕ) (item : T) (buffer : List ℕ) (g : G)
      → (codec.serialize_into limit item buffer g).0 ≢ panic
  pub deserialize_calm :
      (limit : ℕ) (bytes : List ℕ) (g : G) → (codec.deserialize limit bytes g).0 ≢ panic
  pub commit_calm : (guard : K) (s : S) (g : G) → (wrapper.commit_serialize guard s g).0 ≢ panic
  pub before_calm : (s : S) (g : G) → (wrapper.before_deserialize s g).0 ≢ panic

module _ {S G K D T R : Type 0} (transport : Transport S) (codec : Codec G T R)
    (wrapper : Wrapper S G K D) (bounded : Bounded transport codec wrapper) {size : ℕ} where
  poll_calm :
      (d : Datagram S G) → Sized size d → let (r, d') = poll transport codec wrapper d in r ≢ panic
  unfolding poll
  poll_calm d sized =
      let (r, buffer, io) = transport.read d.rx_buffer d.io in
      let (guard, locals) = wrapper.before_deserialize io d.locals in
      elim (Result-cases r) [
        | inl (n, e) ↦ elim (Result-cases guard) [
          | inl (g, e') ↦ ground (
            arith,
            e,
            e',
            sized.limit_size,
            sized.rx_size,
            sized.tx_size,
            sized.waiting,
            bounded.lent.read-length d.rx_buffer d.io,
            bounded.read-count d.rx_buffer d.io n e,
            bounded.deserialize_calm d.limit (take n buffer) locals,
          )
          | inr (inl (kind, e')) ↦ ground (
            arith,
            e,
            e',
            sized.limit_size,
            sized.rx_size,
            sized.tx_size,
            sized.waiting,
            bounded.lent.read-length d.rx_buffer d.io,
          )
          | inr (inr e') ↦ absurd (bounded.before_calm io d.locals e')
        ]
        | inr (inl (kind, e)) ↦ ground (
          arith,
          e,
          sized.limit_size,
          sized.rx_size,
          sized.tx_size,
          sized.waiting,
          bounded.lent.read-length d.rx_buffer d.io,
        )
        | inr (inr e) ↦ absurd (bounded.read_calm d.rx_buffer d.io e)
      ]

  encode_calm :
      (item : T) (d : Datagram S G)
      → Sized size d
      → let (r, d') = encode transport codec wrapper item d in r ≢ panic
  unfolding encode
  encode_calm item d sized =
      let (guard, before) = wrapper.before_serialize d.io d.locals in
      let (r, buffer, locals) = codec.serialize_into d.limit item d.tx_buffer before in
      elim (Result-cases r) [
        | inl (n, e) ↦ ground (
          arith,
          e,
          sized.limit_size,
          sized.rx_size,
          sized.tx_size,
          sized.waiting,
          bounded.lent.serialize-length d.limit item d.tx_buffer before,
          bounded.lent.serialize-count d.limit item d.tx_buffer before n e,
          bounded.commit_calm guard d.io locals,
        )
        | inr (inl (kind, e)) ↦ ground (
          arith,
          e,
          sized.limit_size,
          sized.rx_size,
          sized.tx_size,
          sized.waiting,
          bounded.lent.serialize-length d.limit item d.tx_buffer before,
        )
        | inr (inr e) ↦ absurd (bounded.serialize_calm d.limit item d.tx_buffer before e)
      ]

  poll_complete_calm :
      (d : Datagram S G)
      → Sized size d
      → let (r, d') = poll_complete transport codec wrapper d in r ≢ panic
  unfolding poll_complete
  poll_complete_calm d sized = elim (Option-cases d.buffered_send) [
    | inl e ↦ ground (arith, e, sized.limit_size, sized.rx_size, sized.tx_size, sized.waiting)
    | inr (n, e) ↦ ground (
      arith,
      e,
      sized.limit_size,
      sized.rx_size,
      sized.tx_size,
      sized.waiting n e,
      bounded.write_calm (take n d.tx_buffer) d.io,
    )
  ]

  start_send_calm :
      (item : T) (d : Datagram S G)
      → Sized size d
      → let (r, d') = start_send transport codec wrapper item d in r ≢ panic
  unfolding start_send
  start_send_calm item d sized = elim (Option-cases d.buffered_send) [
    | inl e ↦ ground (arith, e, encode_calm item d sized)
    | inr (n, e) ↦
        let calm = poll_complete_calm d sized in
        let sized' = poll_complete-Sized transport codec wrapper bounded.lent d sized in
        let flushed = poll_complete transport codec wrapper d in
        ground (arith, e, calm, encode_calm item flushed.1 sized')
  ]

  run-Sized :
      (ops : List (Op T)) (d : Datagram S G)
      → Sized size d
      → Sized size (run transport codec wrapper ops d).1
  unfolding run
  run-Sized [] d sized = sized
  run-Sized (op ∷ ops) d sized =
      run-Sized ops _ (perform-Sized transport codec wrapper bounded.lent op d sized)

-- A channel keeps its buffers and never panics: after any operations on a new channel, however they
-- ended, both buffers are as long as the limit, what waits fits its buffer, and no next call of
-- `start_send`, `poll_complete` or `poll` panics, by a slice out of range or otherwise; over a
-- transport, a codec and a wrapper that keep to the buffers they are lent and do not panic.
pub run_safe :
    {S G K D T R : Type 0} (transport : Transport S) (codec : Codec G T R)
    (wrapper : Wrapper S G K D)
    → Bounded transport codec wrapper
    → (io : S) (size : ℕ) (locals : G) (ops : List (Op T)) (item : T)
    → let d = (run transport codec wrapper ops (wrap io size locals)).1 in
      Sized size d
      × ((start_send transport codec wrapper item d).0 ≢ panic)
      × ((poll_complete transport codec wrapper d).0 ≢ panic)
      × ((poll transport codec wrapper d).0 ≢ panic)
run_safe transport codec wrapper bounded io size locals ops item =
    let sized =
      run-Sized transport codec wrapper bounded ops (wrap io size locals)
        (wrap-Sized io size locals) in
    let d = (run transport codec wrapper ops (wrap io size locals)).1 in
    (
      sized,
      start_send_calm transport codec wrapper bounded item d sized,
      poll_complete_calm transport codec wrapper bounded d sized,
      poll_calm transport codec wrapper bounded d sized,
    )
