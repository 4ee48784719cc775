-- ===== src/Channel/Messages/Stream.antt =====
-- `Stream` and `Sink` of `MessageChannel` of src/channel.rs, over those of src/ser.rs.
use sandbox_ipc.Prelude.{ℕ, zero, suc, ◌≡◌, refl, List, [], ◌∷◌, ◌++◌, Option}
use sandbox_ipc.Prelude.Io.{Result}
use sandbox_ipc.Prelude.State.{St}
use sandbox_ipc.Channel.Datagram
use sandbox_ipc.Channel.Datagram.{Transport, Codec, Wrapper, Async, AsyncSink, Datagram}
use sandbox_ipc.Channel.Datagram.Outbox as Outbox
use sandbox_ipc.Channel.Datagram.Outbox.{Op, send, flush, receive, kept}
use sandbox_ipc.Channel.Datagram.Inbox as Inbox
use sandbox_ipc.Channel.Messages.{MessageChannel}

-- A call on `self.inner`.
abbrev pub inner :
    {C G A : Type 0}
    → (Datagram C G → A × Datagram C G)
    → MessageChannel C G
    → A × MessageChannel C G
inner call c = let (r, d) = call c.inner in (r, record c { inner = d })

module _ {G D E C T R : Type 0} (transport : Transport C) (codec : Codec G T R)
    (wrapper : Wrapper C G D E) where
  unfoldable pub poll : St (MessageChannel C G) (Async (Option R))
  poll = inner (Datagram.poll transport codec wrapper)

  unfoldable pub start_send : T → St (MessageChannel C G) (AsyncSink T)
  start_send item = inner (Datagram.start_send transport codec wrapper item)

  unfoldable pub poll_complete : St (MessageChannel C G) (Async (Unit {0}))
  poll_complete = inner (Datagram.poll_complete transport codec wrapper)

  -- One operation, whatever comes of it: the items accepted, and the channel afterwards.
  unfoldable pub perform : Op T → MessageChannel C G → List T × MessageChannel C G
  unfolding poll start_send poll_complete
  perform (send item) c = let (r, c') = start_send item c in (kept item r, c')
  perform flush c = ([], (poll_complete c).1)
  perform receive c = ([], (poll c).1)

  unfoldable pub run : List (Op T) → MessageChannel C G → List T × MessageChannel C G
  unfolding perform
  run [] c = ([], c)
  run (op ∷ ops) c =
      let (items, c') = perform op c in let (more, c'') = run ops c' in (items ++ more, c'')

  perform-inner :
      (op : Op T) (c : MessageChannel C G)
      → perform op c ≡ inner (Outbox.perform transport codec wrapper op) c
  unfolding perform poll start_send poll_complete Outbox.perform
  perform-inner (send item) c = refl
  perform-inner flush c = refl
  perform-inner receive c = refl

  -- The operations are those on the channel's `BincodeDatagram`.
  pub run-inner :
      (ops : List (Op T)) (c : MessageChannel C G)
      → run ops c ≡ inner (Outbox.run transport codec wrapper ops) c
  unfolding run Outbox.run
  run-inner [] c = refl
  run-inner (op ∷ ops) c =
      let next = (Outbox.perform transport codec wrapper op c.inner).1 in
      rw (perform-inner op c) (rw (run-inner ops (record c { inner = next })) refl)

module _ {G D E C T : Type 0} (transport : Transport C) (codec : Codec G T T)
    (wrapper : Wrapper C G D E) where
  -- `n` calls of `poll`.
  unfoldable pub polls :
      ℕ → MessageChannel C G → List (Result (Async (Option T))) × MessageChannel C G
  unfolding poll
  polls zero c = ([], c)
  polls (suc n) c =
      let (r, c') = poll transport codec wrapper c in let (rs, c'') = polls n c' in (r ∷ rs, c'')

  pub polls-inner :
      (n : ℕ) (c : MessageChannel C G) → polls n c ≡ inner (Inbox.polls transport codec wrapper n) c
  unfolding polls poll Inbox.polls
  polls-inner zero c = refl
  polls-inner (suc n) c =
      let next = (Datagram.poll transport codec wrapper c.inner).1 in
      rw (polls-inner n (record c { inner = next })) refl
