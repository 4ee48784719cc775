-- ===== src/Channel/Datagram/Outbox.antt =====
-- What a `BincodeDatagram` of src/ser.rs sends: each message that it accepts, once and in order.
use sandbox_ipc.Prelude.{
  append_nil, append_assoc, ℕ, ◌≡◌, List, [], ◌∷◌, ◌++◌, Option-cases, inl, inr, none, some, arith,
  take, length, refl, length-take, ◌∙◌, ap, sym, subst,
}
use sandbox_ipc.Prelude.Io.{Result, ok, err, panic, ErrorKind, Result-cases}
use sandbox_ipc.Channel.Datagram.{
  ready, not_ready, AsyncSink, accepted, refused, Transport, Codec, Wrapper, Datagram, start_send,
  poll_complete, poll, encode,
}

-- What a transport of datagrams documents, with what it has sent: a write sends all of the bytes as
-- one message, or fails and sends nothing. Nor does any other operation send.
pub record Sends {S G K D T R : Type 0} (transport : Transport S) (codec : Codec G T R)
    (wrapper : Wrapper S G K D) (sent : S → List (List ℕ)) : Type 0 where
  pub write-ok :
      (bytes : List ℕ) (s : S) (n : ℕ)
      → (transport.write bytes s).0 ≡ ok n
      → (n ≡ length bytes) × (sent (transport.write bytes s).1 ≡ sent s ++ (bytes ∷ []))
  pub write-err :
      (bytes : List ℕ) (s : S) (kind : ErrorKind)
      → (transport.write bytes s).0 ≡ err kind
      → sent (transport.write bytes s).1 ≡ sent s
  pub write-panic :
      (bytes : List ℕ) (s : S)
      → (transport.write bytes s).0 ≡ panic
      → sent (transport.write bytes s).1 ≡ sent s
  pub read-keeps : (buffer : List ℕ) (s : S) → sent (transport.read buffer s).2 ≡ sent s
  pub commit-keeps :
      (guard : K) (s : S) (locals : G) → sent (wrapper.commit_serialize guard s locals).1 ≡ sent s

-- The message is what the codec, called once, has put at the front of a buffer for the item: with the
-- thread-local state at that time, in which the item may have left resources.
pub record Encodes {G T R : Type 0} (codec : Codec G T R) (limit : ℕ) (item : T) (message : List ℕ)
    : Type 0 where
  pub buffer : List ℕ
  pub locals : G
  pub size : ℕ
  pub result : (codec.serialize_into limit item buffer locals).0 ≡ ok size
  pub front : take size (codec.serialize_into limit item buffer locals).1 ≡ message

-- One message for each item, in order.
pub data Each {G T R : Type 0} (codec : Codec G T R) (limit : ℕ)
    : List T → List (List ℕ) → Type 0 where
  nil : Each codec limit [] []
  cons :
      {item : T} {items : List T} {message : List ℕ} {messages : List (List ℕ)}
      → Encodes codec limit item message
      → Each codec limit items messages
      → Each codec limit (item ∷ items) (message ∷ messages)

Each-append :
    {G T R : Type 0} {codec : Codec G T R} {limit : ℕ} {xs ys : List T} {ms ns : List (List ℕ)}
    → Each codec limit xs ms
    → Each codec limit ys ns
    → Each codec limit (xs ++ ys) (ms ++ ns)
Each-append nil each = each
Each-append (cons encodes more) each = cons encodes (Each-append more each)

-- What the user of the channel does.
pub data Op (T : Type 0) : Type 0 where
  send : T → Op T
  flush : Op T
  receive : Op T

-- The message that waits in the buffer.
abbrev pub pending : {S G : Type 0} → Datagram S G → List (List ℕ)
pending d = elim d.buffered_send [ none ↦ [] | some n ↦ take n d.tx_buffer ∷ [] ]

-- The item, if it was accepted.
abbrev pub kept : {T : Type 0} → T → Result (AsyncSink T) → List T
kept item (ok accepted) = item ∷ []
kept item (ok (refused back)) = []
kept item (err kind) = []
kept item panic = []

abbrev pub encodings : {T : Type 0} → (T → List ℕ) → List T → List (List ℕ)
encodings encoding [] = []
encodings encoding (x ∷ xs) = encoding x ∷ encodings encoding xs

module _ {S G K D T R : Type 0} (transport : Transport S) (codec : Codec G T R)
    (wrapper : Wrapper S G K D) where
  -- One operation, whatever comes of it: the items accepted, and the channel afterwards.
  unfoldable pub perform : Op T → Datagram S G → List T × Datagram S G
  perform (send item) d =
      let (r, d') = start_send transport codec wrapper item d in (kept item r, d')
  perform flush d = ([], (poll_complete transport codec wrapper d).1)
  perform receive d = ([], (poll transport codec wrapper d).1)

  unfoldable pub run : List (Op T) → Datagram S G → List T × Datagram S G
  run [] d = ([], d)
  run (op ∷ ops) d =
      let (items, d') = perform op d in let (more, d'') = run ops d' in (items ++ more, d'')

  module _ {sent : S → List (List ℕ)} (sends : Sends transport codec wrapper sent) where
    -- What has been sent and waits, after a step that accepts `items`.
    abbrev pub Sent : (before after : Datagram S G) → List T → Type 0
    Sent d d' items =
        (d'.limit ≡ d.limit)
        × (messages : List (List ℕ)) × Each codec d.limit items messages
        × (sent d'.io ++ pending d' ≡ (sent d.io ++ pending d) ++ messages)

    encode_lem :
        (item : T) (d : Datagram S G)
        → d.buffered_send ≡ none
        → let (r, d') = encode transport codec wrapper item d in Sent d d' (kept item r)
    unfolding encode
    encode_lem item d e =
        let (guard, before) = wrapper.before_serialize d.io d.locals in
        let (r, buffer, locals) = codec.serialize_into d.limit item d.tx_buffer before in
        let (c, io, after) = wrapper.commit_serialize guard d.io locals in
        elim (Result-cases r) [
          | inl (n, w) ↦ elim (Result-cases c) [
            | inl (done, w') ↦
                let accepts : kept item (encode transport codec wrapper item d).0 ≡ item ∷ [] =
                  ground (arith, w, w') in
                rw accepts (
                  ground (arith, w, w'),
                  take n buffer ∷ [],
                  cons
                      (record {
                        buffer = d.tx_buffer;
                        locals = before;
                        size = n;
                        result = w;
                        front = refl;
                      })
                      nil,
                  ground (
                    arith,
                    e,
                    w,
                    w',
                    sends.commit-keeps guard d.io locals,
                    append_nil (sent d.io),
                  ),
                )
            | inr (inl (kind, w')) ↦
                let refuses : kept item (encode transport codec wrapper item d).0 ≡ [] =
                  ground (arith, w, w') in
                rw refuses (
                  ground (arith, w, w'),
                  [],
                  nil,
                  ground (
                    arith,
                    e,
                    w,
                    w',
                    sends.commit-keeps guard d.io locals,
                    append_nil (sent d.io),
                  ),
                )
            | inr (inr w') ↦
                let refuses : kept item (encode transport codec wrapper item d).0 ≡ [] =
                  ground (arith, w, w') in
                rw refuses (
                  ground (arith, w, w'),
                  [],
                  nil,
                  ground (
                    arith,
                    e,
                    w,
                    w',
                    sends.commit-keeps guard d.io locals,
                    append_nil (sent d.io),
                  ),
                )
          ]
          | inr (inl (kind, w)) ↦
              let refuses : kept item (encode transport codec wrapper item d).0 ≡ [] =
                ground (arith, w) in
              rw refuses (ground (arith, w), [], nil, ground (arith, e, w, append_nil (sent d.io)))
          | inr (inr w) ↦
              let refuses : kept item (encode transport codec wrapper item d).0 ≡ [] =
                ground (arith, w) in
              rw refuses (ground (arith, w), [], nil, ground (arith, e, w, append_nil (sent d.io)))
        ]

    poll_complete_lem :
        (d : Datagram S G)
        → let (r, d') = poll_complete transport codec wrapper d in
          (sent d'.io ++ pending d' ≡ sent d.io ++ pending d)
          × (d'.limit ≡ d.limit)
          × (r ≡ ok (ready tt) → d'.buffered_send ≡ none)
    unfolding poll_complete
    poll_complete_lem d = elim (Option-cases d.buffered_send) [
      | inl e ↦ ground (arith, e)
      | inr (n, e) ↦ elim (Result-cases (transport.write (take n d.tx_buffer) d.io).0) [
        | inl (m, w) ↦ ground (
          arith,
          e,
          w,
          append_nil (sent d.io ++ pending d),
          length-take n d.tx_buffer,
          sends.write-ok (take n d.tx_buffer) d.io m w,
        )
        | inr (inl (kind, w)) ↦
            ground (arith, e, w, sends.write-err (take n d.tx_buffer) d.io kind w)
        | inr (inr w) ↦ ground (arith, e, w, sends.write-panic (take n d.tx_buffer) d.io w)
      ]
    ]

    quiet :
        (d d' : Datagram S G)
        → sent d'.io ++ pending d' ≡ sent d.io ++ pending d
        → d'.limit ≡ d.limit
        → Sent d d' []
    quiet d d' e limit = (limit, [], nil, e ∙ sym (append_nil (sent d.io ++ pending d)))

    join :
        (d d' d'' : Datagram S G) (xs ys : List T)
        → Sent d d' xs
        → Sent d' d'' ys
        → Sent d d'' (xs ++ ys)
    join d d' d'' xs ys (limit, ms, each, e) (limit', ns, each', e') = (
      limit' ∙ limit,
      ms ++ ns,
      Each-append each (subst (λ l. Each codec l ys ns) limit each'),
      e' ∙ ap (λ t. t ++ ns) e ∙ append_assoc (sent d.io ++ pending d) ms ns,
    )

    start_send_lem :
        (item : T) (d : Datagram S G)
        → let (r, d') = start_send transport codec wrapper item d in Sent d d' (kept item r)
    unfolding start_send
    start_send_lem item d = elim (Option-cases d.buffered_send) [
      | inl e ↦
          let same : start_send transport codec wrapper item d
              ≡ encode transport codec wrapper item d =
            ground (arith, e) in
          rw same (encode_lem item d e)
      | inr (n, e) ↦
          let (r, after) = poll_complete transport codec wrapper d in
          let (kept_sent, limit, done) = poll_complete_lem d in
          elim (Result-cases r) [
            | inl (ready tt, w) ↦
                let same : start_send transport codec wrapper item d
                    ≡ encode transport codec wrapper item after =
                  ground (arith, e, w) in
                rw same (
                  join d after (encode transport codec wrapper item after).1 []
                    (kept item (encode transport codec wrapper item after).0)
                    (quiet d after kept_sent limit) (encode_lem item after (done w)))
            | inl (not_ready, w) ↦
                let same : start_send transport codec wrapper item d ≡ (ok (refused item), after) =
                  ground (arith, e, w) in
                rw same (quiet d after kept_sent limit)
            | inr (inl (kind, w)) ↦
                let same : start_send transport codec wrapper item d ≡ (err kind, after) =
                  ground (arith, e, w) in
                rw same (quiet d after kept_sent limit)
            | inr (inr w) ↦
                let same : start_send transport codec wrapper item d ≡ (panic, after) =
                  ground (arith, e, w) in
                rw same (quiet d after kept_sent limit)
          ]
    ]

    poll_lem :
        (d : Datagram S G)
        → let d' = (poll transport codec wrapper d).1 in
          (sent d'.io ++ pending d' ≡ sent d.io ++ pending d) × (d'.limit ≡ d.limit)
    unfolding poll
    poll_lem d = (ground (arith, sends.read-keeps d.rx_buffer d.io), ground (arith))

    perform_lem : (op : Op T) (d : Datagram S G) → let (items, d') = perform op d in Sent d d' items
    unfolding perform
    perform_lem (send item) d = start_send_lem item d
    perform_lem flush d =
        let (e, limit, done) = poll_complete_lem d in
        quiet d (poll_complete transport codec wrapper d).1 e limit
    perform_lem receive d =
        let (e, limit) = poll_lem d in quiet d (poll transport codec wrapper d).1 e limit

    -- Every message that the channel accepts is sent once, and in order: whatever operations are
    -- performed and however they end, what has been sent, and then what waits in the buffer, is what
    -- had been sent and waited before, and then one message for each item accepted since, which is what
    -- the codec, called with the limit of the channel, put at the front of a buffer for that item; for a
    -- transport that sends each write as one message or not at all, and sends nothing otherwise.
    pub run-sends :
        (ops : List (Op T)) (d : Datagram S G)
        → let (items, d') = run ops d in
          (d'.limit ≡ d.limit)
          × (messages : List (List ℕ)) × Each codec d.limit items messages
          × (sent d'.io ++ pending d' ≡ (sent d.io ++ pending d) ++ messages)
    unfolding run
    run-sends [] d = quiet d d refl refl
    run-sends (op ∷ ops) d =
        let (items, d') = perform op d in
        let (more, d'') = run ops d' in
        join d d' d'' items more (perform_lem op d) (run-sends ops d')
