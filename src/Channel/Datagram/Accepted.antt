-- ===== src/Channel/Datagram/Accepted.antt =====
-- A `BincodeDatagram` of src/ser.rs accepts no message that is longer than its limit.
use sandbox_ipc.Prelude.{
  ℕ, ◌≤◌, ◌<◌, ◌≡◌, List, [], ◌∷◌, ◌++◌, Option-cases, inl, inr, arith, length, length-take, ap,
  refl, take,
}
use sandbox_ipc.Prelude.Io.{Result, ok, err, panic, Result-cases}
use sandbox_ipc.Channel.Datagram.{
  AsyncSink, accepted, refused, Transport, Codec, Wrapper, Datagram, start_send, poll_complete,
  encode,
}
use sandbox_ipc.Channel.Datagram.Outbox.{Op, send, flush, receive, kept, perform, run}
use sandbox_ipc.Channel.Datagram.Inbox.{Fit, all, one}
use sandbox_ipc.Channel.Datagram.Buffers.{Lent, Sized, poll_complete-Sized, perform-Sized}

Fit-append :
    {T : Type 0} {encoding : T → List ℕ} {size : ℕ} {xs ys : List T}
    → Fit encoding size xs
    → Fit encoding size ys
    → Fit encoding size (xs ++ ys)
Fit-append all fit = fit
Fit-append (one pos le more) fit = one pos le (Fit-append more fit)

kept-Fit :
    {T : Type 0} {encoding : T → List ℕ} {size : ℕ} (item : T) (r : Result (AsyncSink T))
    → 0 < length (encoding item)
    → (r ≡ ok accepted → length (encoding item) ≤ size)
    → Fit encoding size (kept item r)
kept-Fit item (ok accepted) pos fits = one pos (fits refl) all
kept-Fit item (ok (refused back)) pos fits = all
kept-Fit item (err kind) pos fits = all
kept-Fit item panic pos fits = all

module _ {S G K D T R : Type 0} {transport : Transport S} {codec : Codec G T R}
    (wrapper : Wrapper S G K D) {encoding : T → List ℕ} (lent : Lent transport codec)
    (encodes : (limit : ℕ) (item : T) (buffer : List ℕ) (locals : G) (n : ℕ)
      → (codec.serialize_into limit item buffer locals).0 ≡ ok n
      → take n (codec.serialize_into limit item buffer locals).1 ≡ encoding item)
    (nonempty : (item : T) → 0 < length (encoding item)) {size : ℕ} where
  encode-accepted :
      (item : T) (d : Datagram S G)
      → Sized size d
      → (encode transport codec wrapper item d).0 ≡ ok accepted
      → length (encoding item) ≤ size
  unfolding encode
  encode-accepted item d sized e =
      let (guard, before) = wrapper.before_serialize d.io d.locals in
      let (r, buffer, locals) = codec.serialize_into d.limit item d.tx_buffer before in
      elim (Result-cases r) [
        | inl (n, w) ↦ omega (
          arith,
          ap length (encodes d.limit item d.tx_buffer before n w),
          length-take n buffer,
          lent.serialize-count d.limit item d.tx_buffer before n w,
          sized.tx_size,
        )
        | inr (inl (kind, w)) ↦ absurd (ground (arith, w, e))
        | inr (inr w) ↦ absurd (ground (arith, w, e))
      ]

  start_send-accepted :
      (item : T) (d : Datagram S G)
      → Sized size d
      → (start_send transport codec wrapper item d).0 ≡ ok accepted
      → length (encoding item) ≤ size
  unfolding start_send
  start_send-accepted item d sized e =
      let sized' = poll_complete-Sized transport codec wrapper lent d sized in
      let flushed = poll_complete transport codec wrapper d in
      elim (Option-cases d.buffered_send) [
        | inl w ↦ encode-accepted item d sized (ground (arith, w, e))
        | inr (n, w) ↦ encode-accepted item flushed.1 sized' (ground (arith, w, e))
      ]

  perform-Fit :
      (op : Op T) (d : Datagram S G)
      → Sized size d
      → Fit encoding size (perform transport codec wrapper op d).0
  unfolding perform
  perform-Fit (send item) d sized =
      kept-Fit item _ (nonempty item) (start_send-accepted item d sized)
  perform-Fit flush d sized = all
  perform-Fit receive d sized = all

  -- Every item that a channel accepts fits the buffers of a channel of the same size.
  pub run-Fit :
      (ops : List (Op T)) (d : Datagram S G)
      → Sized size d
      → Fit encoding size (run transport codec wrapper ops d).0
  unfolding run
  run-Fit [] d sized = all
  run-Fit (op ∷ ops) d sized =
      Fit-append (perform-Fit op d sized)
        (run-Fit ops _ (perform-Sized transport codec wrapper lent op d sized))
