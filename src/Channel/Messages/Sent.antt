-- ===== src/Channel/Messages/Sent.antt =====
-- `PreMessageChannel` of src/channel.rs in a message, with what makes it a channel at the other end.
mod Tests
use sandbox_ipc.Prelude.{ℕ, ◌≡◌, Bool, true, false, List, [], ◌∷◌, ◌++◌, some, arith, inl, inr}
use sandbox_ipc.Prelude.Io.{ok, Result-cases}
use sandbox_ipc.Prelude.State.{St, ◌>>=◌, pure, lift, scoped}
use sandbox_ipc.Channel.Owned.{Files}
use sandbox_ipc.Channel.Tokens.{Token, number, boolean, next_number, next_boolean}
use sandbox_ipc.Channel.Handles.{
  Winapi, HandleSender, ProcessHandle, Locals, duplicate, serialize_handle, send, remote_process,
}
use sandbox_ipc.Channel.Handles.Arrival.{
  encode_handle, deserialize_handle, before_deserialize, drop_deserialize,
}
use sandbox_ipc.Shm.Windows.Transfer.{drop_handle}
use sandbox_ipc.Channel.Pipes
use sandbox_ipc.Channel.Pipes.Sent.{put_pre, put_process, get_pre, get_process}
use sandbox_ipc.Channel.Messages.{PreMessageChannel, message_channel, pre_pair, pre_into_channel}
use sandbox_ipc.Channel.Messages.Platforms.{windows}

-- The derived serialization, over that of the platform. `PhantomData` has no data.
module _ {S P : Type 0} where
  unfoldable pub serialize : (P → St S (List Token)) → PreMessageChannel P → St S (List Token)
  serialize put pre = do inner ← put pre.inner; pure (inner ++ (number pre.max_message_size ∷ []))

  -- An error drops what the platform has read.
  unfoldable pub deserialize :
      (List Token → St S (P × List Token))
      → (P → St S (Unit {0}))
      → List Token
      → St S (PreMessageChannel P × List Token)
  deserialize get drop tokens = do
    (inner, tokens₁) ← get tokens
    scoped (drop inner) (do
      (max_message_size, tokens₂) ← lift (next_number tokens₁)
      pure (record { inner = inner; max_message_size = max_message_size }, tokens₂))

abbrev pub Pre : Type 0
Pre = PreMessageChannel Pipes.PreMessageChannel

-- A message of an end of a pair and of the process that has the other end.
module _ {W : Type 0} (api : Winapi W) where
  unfoldable pub send_end : Pre → ProcessHandle → St (Locals W) (List Token)
  unfolding serialize put_pre put_process
  send_end pre process = do
    first ← serialize (put_pre api) pre
    second ← put_process api process
    pure (first ++ second)

  unfoldable pub receive_end :
      (ℕ → Bool) → List Token → St (Locals W) ((Pre × ProcessHandle) × List Token)
  unfolding deserialize get_pre get_process
  receive_end is_handle tokens = do
    (pre, tokens₁) ←
        deserialize (get_pre api is_handle) (λ inner. drop_handle api inner.pipe) tokens
    (process, tokens₂) ← scoped (drop_handle api pre.inner.pipe) (get_process api is_handle tokens₁)
    pure ((pre, process), tokens₂)

  sent :
      (pre : Pre) (process : ProcessHandle) (pipe handle : ℕ) (s : HandleSender) (l : Locals W)
      → l.sender ≡ some s
      → (duplicate api s.target pre.inner.pipe l.world).0 ≡ some pipe
      → (duplicate api s.target process.handle (duplicate api s.target pre.inner.pipe l.world).1).0
        ≡ some handle
      → (send_end pre process l).0
        ≡ ok (
            number pipe
            ∷ boolean pre.inner.server
            ∷ number pre.max_message_size
            ∷ number handle
            ∷ number process.id
            ∷ [])
  unfolding send_end encode_handle serialize_handle send
  sent pre process pipe handle s l sender duplicated duplicated' =
      ground (arith, sender, duplicated, duplicated')

  received :
      (is_handle : ℕ → Bool) (pipe size handle id : ℕ) (server : Bool) (r : Locals W)
      (rest : List Token)
      → is_handle pipe ≡ true
      → is_handle handle ≡ true
      → let (saved, r₀) = before_deserialize r in
        let (got, r₁) =
          receive_end is_handle
            (number pipe ∷ boolean server ∷ number size ∷ number handle ∷ number id ∷ rest)
            r₀ in
        (got
          ≡ ok (
            (
              record { inner = record { pipe = pipe; server = server }; max_message_size = size },
              record { handle = handle; id = id },
            ),
            rest,
          ))
        × (drop_deserialize saved r₁ ≡ r)
  unfolding receive_end deserialize_handle before_deserialize drop_deserialize next_number
      next_boolean
  received is_handle pipe size handle id server r rest valid valid' =
      (ground (arith, valid, valid'), ground (arith, valid, valid'))

module _ {U G : Type 0} (T : Type 0) (calls : Pipes.Calls U) (valid_name : List ℕ → Bool)
    (locals : G) where
  halves :
      (size : ℕ) (s s' : Files U) (a b : Pre)
      → pre_pair (windows {T = T} calls valid_name) size s ≡ (ok (a, b), s')
      → (a.inner.server ≡ true)
        × (b.inner.server ≡ false)
        × (a.max_message_size ≡ size)
        × (b.max_message_size ≡ size)
  unfolding pre_pair Pipes.pre_pair
  halves size s s' a b e = elim (Result-cases (Pipes.raw_pipe_pair calls s).0) [
    | inl (pipes, w) ↦
        (ground (arith, w, e), ground (arith, w, e), ground (arith, w, e), ground (arith, w, e))
    | inr (inl (kind, w)) ↦ absurd (ground (arith, w, e))
    | inr (inr w) ↦ absurd (ground (arith, w, e))
  ]

  finished :
      (pipe size : ℕ) (server : Bool) (process : ProcessHandle) (s : Files U)
      → (calls.register pipe s.world).0 ≡ ok tt
      → let pre : Pre = record {
        inner = record { pipe = pipe; server = server };
        max_message_size = size;
      } in
        (pre_into_channel (windows {T = T} calls valid_name) locals pre process s).0
        ≡ ok (
            message_channel
              (record { pipe = pipe; server = server; target = remote_process process })
              size
              locals)
  unfolding pre_into_channel Pipes.channel_over Pipes.poll_evented
  finished pipe size server process s registers = ground (arith, registers)

-- The two ends of a pair become a channel between two processes, on Windows: one process makes the
-- pair and sends an end with a handle of its own process; the other process decodes both, with the
-- handles that `DuplicateHandle` made for it, while what follows in the message is left over and its
-- variable is afterwards as it was; and what the two processes make of their ends are the server's
-- half and the client's half, each of whose messages go to the process it was given, with the size
-- that the pair was made with. The sender's target is a process, no call fails, and `WinHandle` takes
-- the duplicates for handles.
pub pair_across :
    {W V U X G G' : Type 0} (T T' : Type 0) (api : Winapi W) (api' : Winapi V)
    (is_handle : ℕ → Bool) (calls : Pipes.Calls U) (calls' : Pipes.Calls X)
    (valid_name valid_name' : List ℕ → Bool) (locals : G) (locals' : G') (size pipe handle : ℕ)
    (a b : Pre) (here there : ProcessHandle) (f f' : Files U) (g : Files X) (s : HandleSender)
    (l : Locals W) (r : Locals V) (rest : List Token)
    → pre_pair (windows {T = T} calls valid_name) size f ≡ (ok (a, b), f')
    → l.sender ≡ some s
    → (duplicate api s.target b.inner.pipe l.world).0 ≡ some pipe
    → (duplicate api s.target here.handle (duplicate api s.target b.inner.pipe l.world).1).0
      ≡ some handle
    → is_handle pipe ≡ true
    → is_handle handle ≡ true
    → (calls.register a.inner.pipe f'.world).0 ≡ ok tt
    → (calls'.register pipe g.world).0 ≡ ok tt
    → let (saved, r₀) = before_deserialize r in
      (tokens : List Token) × ((send_end api b here l).0 ≡ ok tokens)
      × (let (got, r₁) = receive_end api' is_handle (tokens ++ rest) r₀ in
          (b' : Pre) × (here' : ProcessHandle) × (got ≡ ok ((b', here'), rest))
          × (drop_deserialize saved r₁ ≡ r)
          × ((pre_into_channel (windows {T = T} calls valid_name) locals a there f').0
              ≡ ok (
                  message_channel
                    (record { pipe = a.inner.pipe; server = true; target = remote_process there })
                    size
                    locals))
          × ((pre_into_channel (windows {T = T'} calls' valid_name') locals' b' here' g).0
              ≡ ok (
                  message_channel
                    (record {
                      pipe = pipe;
                      server = false;
                      target = remote_process (record { handle = handle; id = here.id });
                    })
                    size
                    locals')))
pair_across T T' api api' is_handle calls calls' valid_name valid_name' locals locals' size pipe
      handle a b here there f f' g s l r rest paired sender duplicated duplicated' valid valid'
      registers registers' =
    let (server, client, size_a, size_b) = halves T calls valid_name locals size f f' a b paired in
    let (got, kept) =
      received api' is_handle pipe b.max_message_size handle here.id b.inner.server r rest valid
        valid' in
    let near =
      finished T calls valid_name locals a.inner.pipe a.max_message_size a.inner.server there f'
        registers in
    let far =
      finished T' calls' valid_name' locals' pipe b.max_message_size b.inner.server
        (record { handle = handle; id = here.id }) g registers' in
    (
      number pipe
          ∷ boolean b.inner.server
          ∷ number b.max_message_size
          ∷ number handle
          ∷ number here.id
          ∷ [],
      sent api b here pipe handle s l sender duplicated duplicated',
      (
        record {
          inner = record { pipe = pipe; server = b.inner.server };
          max_message_size = b.max_message_size;
        },
        record { handle = handle; id = here.id },
        got,
        kept,
        ground (arith, near, server, size_a),
        ground (arith, far, client, size_b),
      ),
    )
