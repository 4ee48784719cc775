-- ===== src/Channel/Messages/Exchange.antt =====
-- The two ends of a pair of src/channel.rs talk to each other, through src/ser.rs.
use sandbox_ipc.Prelude.{ℕ, ◌<◌, ◌≡◌, List, [], none, arith, length, ◌∙◌, ap, sym}
use sandbox_ipc.Prelude.Io.{ok}
use sandbox_ipc.Channel.Datagram.{Transport, Codec, Wrapper}
use sandbox_ipc.Channel.Datagram.Outbox as Outbox
use sandbox_ipc.Channel.Datagram.Outbox.{Sends, Op}
use sandbox_ipc.Channel.Datagram.Inbox as Inbox
use sandbox_ipc.Channel.Datagram.Inbox.{Receives, arrived, exchange}
use sandbox_ipc.Channel.Datagram.Buffers.{Lent, Sized}
use sandbox_ipc.Channel.Datagram.Accepted.{run-Fit}
use sandbox_ipc.Channel.Messages.{Platform, MessageChannel, pair}
use sandbox_ipc.Channel.Messages.Stream.{run, polls, run-inner, polls-inner}
use sandbox_ipc.Channel.Messages.Made.{Made, pair-Made}

module _ {G D E C T : Type 0} {transport : Transport C} {codec : Codec G T T}
    {wrapper : Wrapper C G D E} {sent inbox : C → List (List ℕ)} {encoding : T → List ℕ}
    (lent : Lent transport codec) (sends : Sends transport codec wrapper sent)
    (receives : Receives transport codec wrapper inbox encoding)
    (nonempty : (item : T) → 0 < length (encoding item)) where
  -- Two channels of one size.
  made-exchange :
      (size : ℕ) (locals : G) (a b : MessageChannel C G) (ops : List (Op T)) (io : C)
      → Made size locals a
      → Made size locals b
      → sent a.inner.io ≡ []
      → (Outbox.run transport codec wrapper ops a.inner).1.buffered_send ≡ none
      → inbox io ≡ sent (Outbox.run transport codec wrapper ops a.inner).1.io
      → let items = (Outbox.run transport codec wrapper ops a.inner).0 in
        (Inbox.polls transport codec wrapper (length items) (record b.inner { io = io })).0
        ≡ arrived items
  made-exchange size locals a b ops io made_a made_b fresh done e =
      let sized : Sized size a.inner = record {
        limit_size = made_a.limit;
        rx_size = made_a.rx_room;
        tx_size = made_a.tx_room;
        waiting = λ n w. cc (w, made_a.idle);
      } in
      exchange transport codec wrapper receives sends ops a.inner (record b.inner { io = io }) size
        fresh made_a.idle done e (omega (arith, made_b.rx_room)) (omega (arith, made_b.limit))
        (run-Fit wrapper lent receives.encodes nonempty ops a.inner sized)

  module _ {S K P H N L U : Type 0} (platform : Platform S C K P H N L U) where
    -- What one end of a pair accepts, the other end receives, with no condition on the sizes of the
    -- messages: when the first end of a new pair has performed any operations, nothing waits in its
    -- buffer, and what it has sent arrives at the second end, then as many polls there as items were
    -- accepted give these items, in order. No item has an empty encoding, or one that depends on the
    -- thread-local state, so that items carry no resources; the transport and the codec keep to their
    -- documentation, the wrapper lends a guard to read a message that arrives and sends nothing itself,
    -- and the first end had sent nothing.
    pub pair-exchange :
        (size : ℕ) (locals : G) (s s' : S) (a b : MessageChannel C G) (ops : List (Op T)) (io : C)
        → pair platform locals size s ≡ (ok (a, b), s')
        → sent a.inner.io ≡ []
        → (run transport codec wrapper ops a).1.inner.buffered_send ≡ none
        → inbox io ≡ sent (run transport codec wrapper ops a).1.inner.io
        → let items = (run transport codec wrapper ops a).0 in
          (polls transport codec wrapper
            (length items)
            (record b { inner = record b.inner { io = io } })).0
          ≡ arrived items
    pair-exchange size locals s s' a b ops io paired fresh done e =
        let (made_a, made_b) = pair-Made platform locals size s s' a b paired in
        let same = run-inner transport codec wrapper ops a in
        rw same (
          rw
            (polls-inner transport codec wrapper
              (length (Outbox.run transport codec wrapper ops a.inner).0)
              (record b { inner = record b.inner { io = io } }))
            (made-exchange size locals a b ops io made_a made_b fresh
              (ap (λ p. p.1.inner.buffered_send) (sym same) ∙ done)
              (e ∙ ap (λ p. sent p.1.inner.io) same)))
