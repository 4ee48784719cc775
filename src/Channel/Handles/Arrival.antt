-- ===== src/Channel/Handles/Arrival.antt =====
-- Sockets in messages of src/windows/mod.rs, and what the receiver makes of the data of a handle or a
-- socket.
use sandbox_ipc.Prelude.{
  ℕ, ◌≡◌, refl, Bool, true, List, [], ◌∷◌, ◌++◌, Option, none, some, arith, if◌then◌else◌,
}
use sandbox_ipc.Prelude.Io.{Result, ok, err, panic, ErrorKind}
use sandbox_ipc.Prelude.State.{St, ◌>>=◌, pure}
use sandbox_ipc.Channel.Tokens.{Token, number, next_number}
use sandbox_ipc.Channel.Handles.{
  Winapi, HandleTarget, nobody, current_process, remote_process, ProcessHandle, HandleSender,
  Locals, duplicate, serialize_handle, send,
}
use sandbox_ipc.Channel.Handles.Winsock.{
  WsaProtoInfo, WellFormed, serialize, deserialize, deserialize-serialize,
}

-- `WSADuplicateSocketW` describes a socket for the process of a number, and `WSASocketW` makes a
-- socket of a description; `none` is an error. `current_process_id` is `GetCurrentProcessId`.
pub record Winsock (W : Type 0) : Type 0 where
  pub duplicate_socket : (socket process_id : ℕ) → W → Option WsaProtoInfo × W
  pub wsa_socket : WsaProtoInfo → W → Option ℕ × W
  pub current_process_id : ℕ

module _ {W : Type 0} (winsock : Winsock W) where
  -- `HandleSender::remote_process_id`
  unfoldable pub remote_process_id : HandleTarget ProcessHandle → Result ℕ
  remote_process_id nobody = err ErrorKind.broken_pipe
  remote_process_id current_process = ok winsock.current_process_id
  remote_process_id (remote_process p) = ok p.id

  abbrev described : Option WsaProtoInfo → Result (List Token)
  described none = err ErrorKind.custom
  described (some info) = ok (serialize info)

  abbrev duplicate_for : (socket : ℕ) → Result ℕ → St (Locals W) (List Token)
  duplicate_for socket (ok id) l =
      let (info, w) = winsock.duplicate_socket socket id l.world in
      (described info, record l { world = w })
  duplicate_for socket (err kind) l = (err ErrorKind.custom, l)
  duplicate_for socket panic l = (panic, l)

  -- `SendableSocket::serialize`
  unfoldable pub serialize_socket : (socket : ℕ) → St (Locals W) (List Token)
  unfolding remote_process_id
  serialize_socket socket l = elim l.sender [
    | none ↦ (err ErrorKind.custom, l)
    | some s ↦ duplicate_for socket (remote_process_id s.target) l
  ]

  abbrev opened : List Token → Option ℕ → Result (ℕ × List Token)
  opened rest none = err ErrorKind.custom
  opened rest (some socket) = ok (socket, rest)

  abbrev open_from : Result (WsaProtoInfo × List Token) → St (Locals W) (ℕ × List Token)
  open_from (ok (info, rest)) l =
      let (socket, w) = winsock.wsa_socket info l.world in
      (opened rest socket, record l { world = w })
  open_from (err kind) l = (err ErrorKind.custom, l)
  open_from panic l = (panic, l)

  -- `SendableSocket::deserialize`
  unfoldable pub deserialize_socket : List Token → St (Locals W) (ℕ × List Token)
  deserialize_socket tokens l = elim l.receiver [
    | none ↦ (err ErrorKind.custom, l)
    | some receiver ↦ open_from (deserialize tokens) l
  ]

module _ {W : Type 0} (api : Winapi W) where
  -- `SendableWinHandle::serialize` as data: the number of the handle in the target process.
  unfoldable pub encode_handle : (handle : ℕ) → St (Locals W) (List Token)
  encode_handle handle = do remote ← serialize_handle api handle; pure (number remote ∷ [])

  -- `SendableFile::serialize`
  abbrev pub put_file : (file : ℕ) → St (Locals W) (List Token)
  put_file file = encode_handle file

abbrev checked : (ℕ → Bool) → Result (ℕ × List Token) → Result (ℕ × List Token)
checked is_handle (ok (handle, rest)) =
    if is_handle handle then ok (handle, rest) else err ErrorKind.custom
checked is_handle (err kind) = err kind
checked is_handle panic = panic

module _ {W : Type 0} where
  -- `SendableWinHandle::deserialize`; `is_handle` is `WinHandle::from_raw`.
  unfoldable pub deserialize_handle : (ℕ → Bool) → List Token → St (Locals W) (ℕ × List Token)
  unfolding next_number
  deserialize_handle is_handle tokens l = elim l.receiver [
    | none ↦ (err ErrorKind.custom, l)
    | some receiver ↦ (checked is_handle (next_number tokens), l)
  ]

  -- `SendableFile::deserialize`
  abbrev pub get_file : (ℕ → Bool) → List Token → St (Locals W) (ℕ × List Token)
  get_file is_handle tokens = deserialize_handle is_handle tokens

  -- `before_deserialize`, and the drop of its guard, which is what the variable held before.
  unfoldable pub before_deserialize : Locals W → Option (Unit {0}) × Locals W
  before_deserialize l = (l.receiver, record l { receiver = some tt })

  unfoldable pub drop_deserialize : Option (Unit {0}) → Locals W → Locals W
  drop_deserialize saved l = record l { receiver = saved }

-- The calls of the system that reach the target: what duplicates a handle into it, and its number.
pub data Into {W : Type 0} (api : Winapi W) (current_process_id : ℕ)
    : HandleTarget ProcessHandle → (ℕ → W → Option ℕ × W) → ℕ → Type 0 where
  here : Into api current_process_id current_process api.duplicate_here current_process_id
  there :
      {p : ProcessHandle}
      → Into api current_process_id (remote_process p) (api.duplicate_to p.handle) p.id

reached :
    {W : Type 0} (api : Winapi W) (winsock : Winsock W) (target : HandleTarget ProcessHandle)
    (dup : ℕ → W → Option ℕ × W) (id : ℕ)
    → Into api winsock.current_process_id target dup id
    → (remote_process_id winsock target ≡ ok id) × (duplicate api target ≡ dup)
unfolding remote_process_id
reached api winsock nobody dup id into = elim into [ ]
reached api winsock current_process dup id here = (refl, refl)
reached api winsock (remote_process p) dup id there = (refl, refl)

-- Handles and sockets arrive: what the sender encodes for a handle is taken by the receiver for the
-- duplicate in its own process, and what the sender encodes for a socket reaches `WSASocketW` as
-- the description that `WSADuplicateSocketW` wrote for the receiver's process, so that the receiver
-- has the socket that it opens; what follows in the message is left over, and the receiver's
-- variable is afterwards as it was. The sender's target is this process or another one, no call of
-- the system that reaches it fails, `WinHandle` takes the duplicate for a handle, and the arrays of a description have their lengths.
pub resources_arrive :
    {W V : Type 0} (api : Winapi W) (winsock : Winsock W) (other : Winsock V) (is_handle : ℕ → Bool)
    (dup : ℕ → W → Option ℕ × W) (handle remote socket id x : ℕ) (info : WsaProtoInfo)
    (s : HandleSender) (l : Locals W) (r : Locals V) (rest : List Token)
    → l.sender ≡ some s
    → Into api winsock.current_process_id s.target dup id
    → (dup handle l.world).0 ≡ some remote
    → is_handle remote ≡ true
    → (winsock.duplicate_socket socket id l.world).0 ≡ some info
    → WellFormed info
    → (other.wsa_socket info r.world).0 ≡ some x
    → let (saved, r₀) = before_deserialize r in
      let (got, r₁) = deserialize_handle is_handle (number remote ∷ rest) r₀ in
      ((encode_handle api handle l).0 ≡ ok (number remote ∷ []))
      × (got ≡ ok (remote, rest))
      × (drop_deserialize saved r₁ ≡ r)
      × (tokens : List Token) × ((serialize_socket winsock socket l).0 ≡ ok tokens)
      × ((deserialize_socket other (tokens ++ rest) r₀).0 ≡ ok (x, rest))
      × ((drop_deserialize saved (deserialize_socket other (tokens ++ rest) r₀).1).receiver
          ≡ r.receiver)
unfolding encode_handle serialize_handle send serialize_socket remote_process_id deserialize_socket
    deserialize_handle before_deserialize drop_deserialize
resources_arrive api winsock other is_handle dup handle remote socket id x info s l r rest sender
      into duplicated valid told wf made =
    let (process, same) = reached api winsock s.target dup id into in
    (
      ground (arith, sender, process, same, duplicated),
      rw valid refl,
      refl,
      serialize info,
      ground (arith, sender, process, told),
      ground (arith, deserialize-serialize info rest wf, made),
      refl,
    )
