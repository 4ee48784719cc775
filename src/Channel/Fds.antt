-- ===== src/Channel/Fds.antt =====
-- File descriptors inside messages, of src/unix/mod.rs: `HandleSender` and `HandleReceiver`, the
-- thread-local variables that hold them, and the guards that set these. The calls of the system are
-- an argument, over the state `W` of the process; what they return is a `c_int`, a word of 32 bits.
pub mod Runs
pub mod Sender
pub mod Message
pub mod Receiver
pub mod Items
pub mod Reading
pub mod Delivery
pub mod Single
pub mod Table
mod Tests
use Prim.Native.Nat.{bit_and, bit_or}
use sandbox_ipc.Prelude.{
  ℕ, ◌+◌, ◌-◌, ◌^◌, Bool, List, [], ◌∷◌, ◌++◌, Option, none, some, leb, ◌==◌, if◌then◌else◌, take,
  drop, set, get_elem?, length, replicate,
}
use sandbox_ipc.Prelude.Io.{Result, ok, err, panic, ErrorKind}
use sandbox_ipc.Prelude.State.{St, ◌>>=◌, ◌>>◌, pure}
use sandbox_ipc.Channel.Cmsg
use sandbox_ipc.Channel.Cmsg.{Cmsg}

-- `dup(fd)`, `fcntl(fd, F_GETFD, 0)` and `fcntl(fd, F_SETFD, flags)`
pub record Libc (W : Type 0) : Type 0 where
  pub dup : ℕ → W → ℕ × W
  pub get_flags : ℕ → W → ℕ × W
  pub set_flags : (fd flags : ℕ) → W → ℕ × W

abbrev pub is_negative : ℕ → Bool
is_negative x = leb (2 ^ 31) x

abbrev pub minus_one : ℕ
minus_one = 2 ^ 32 - 1

abbrev pub fd_cloexec : ℕ
fd_cloexec = 1

abbrev pub max_msg_fds : ℕ
max_msg_fds = 32

pub record HandleSender : Type 0 where
  pub fds : List ℕ
  pub index : ℕ

pub record HandleReceiver : Type 0 where
  pub fds : List ℕ
  pub fds_count : ℕ

-- The two thread-local variables, and the state of the process.
pub record Locals (W : Type 0) : Type 0 where
  pub world : W
  pub sender : Option HandleSender
  pub receiver : Option HandleReceiver

module _ {W : Type 0} (libc : Libc W) where
  unfoldable pub set_cloexec : ℕ → St W (Unit {0})
  set_cloexec fd w =
      let (old_flags, w') = libc.get_flags fd w in
      let (result, w'') = libc.set_flags fd (bit_or old_flags fd_cloexec) w' in
      (if result == minus_one then err ErrorKind.os else ok tt, w'')

  unfoldable pub clear_cloexec : ℕ → St W (Unit {0})
  clear_cloexec fd w =
      let (old_flags, w') = libc.get_flags fd w in
      let (result, w'') = libc.set_flags fd (bit_and old_flags (minus_one - fd_cloexec)) w' in
      (if result == minus_one then err ErrorKind.os else ok tt, w'')

  -- `HandleSender::send`
  unfoldable pub send : ℕ → St (HandleSender × W) ℕ
  send fd (s, w) =
      if leb (length s.fds) s.index
      then (err ErrorKind.invalid_input, (s, w))
      else (let (new_fd, w') = libc.dup fd w in
          if is_negative new_fd
          then (err ErrorKind.os, (s, w'))
          else (let (r, w'') = set_cloexec new_fd w' in
              elim r [
                | ok done ↦ (
                  ok s.index,
                  (record { fds = set s.fds s.index new_fd; index = s.index + 1 }, w''),
                )
                | err kind ↦ (err kind, (s, w''))
                | panic ↦ (panic, (s, w''))
              ]))

  -- `HandleReceiver::recv`
  unfoldable pub recv : HandleReceiver → ℕ → St W ℕ
  unfolding set_cloexec
  recv receiver index w =
      if leb receiver.fds_count index
      then (err ErrorKind.invalid_data, w)
      else (elim (get_elem? receiver.fds index) [
        | none ↦ (panic, w)
        | some fd ↦
            let (flags, w') = libc.get_flags fd w in
            if is_negative flags
            then (err ErrorKind.invalid_data, w')
            else (set_cloexec fd >> pure fd) w'
      ])

  -- `SendableFd::serialize`: the index that is encoded in place of the file descriptor.
  unfoldable pub serialize_fd : ℕ → St (Locals W) ℕ
  unfolding send
  serialize_fd fd l = elim l.sender [
    | none ↦ (err ErrorKind.custom, l)
    | some s ↦
        let (r, (s', w)) = send fd (s, l.world) in
        let l' = record l { world = w; sender = some s' } in
        elim r [
          | ok index ↦ (ok index, l')
          | err kind ↦ (err ErrorKind.custom, l')
          | panic ↦ (panic, l')
        ]
  ]

  -- `SendableFd::deserialize`, given the index that is decoded.
  unfoldable pub deserialize_fd : ℕ → St (Locals W) ℕ
  unfolding recv
  deserialize_fd index l = elim l.receiver [
    | none ↦ (err ErrorKind.custom, l)
    | some receiver ↦
        let (r, w) = recv receiver index l.world in
        let l' = record l { world = w } in
        elim r [ ok fd ↦ (ok fd, l') | err kind ↦ (err ErrorKind.custom, l') | panic ↦ (panic, l') ]
  ]

module _ {W : Type 0} where
  -- `before_serialize`: the guard is what the variable held before.
  unfoldable pub before_serialize : Locals W → Option HandleSender × Locals W
  before_serialize l =
      (l.sender, record l { sender = some (record { fds = replicate max_msg_fds 0; index = 0 }) })

  -- `ChannelSerializeGuard::drop`
  unfoldable pub drop_serialize : Option HandleSender → Locals W → Locals W
  drop_serialize saved l = record l { sender = saved }

  -- `ChannelDeserializeGuard::drop`; its commit does nothing else.
  unfoldable pub drop_deserialize : Option HandleReceiver → Locals W → Locals W
  drop_deserialize saved l = record l { receiver = saved }

module _ {W : Type 0} (cmsghdr_size : ℕ) where
  -- `ChannelSerializeGuard::commit`, and the drop of the guard.
  unfoldable pub commit_serialize : Option HandleSender → Cmsg → Locals W → Result Cmsg × Locals W
  unfolding drop_serialize
  commit_serialize saved c l = (
    elim l.sender [ none ↦ panic | some s ↦ Cmsg.set_fds cmsghdr_size (take s.index s.fds) c ],
    drop_serialize saved l,
  )

  -- `before_deserialize`: a count above that of the array is a panic.
  unfoldable pub before_deserialize : Cmsg → Locals W → Result (Option HandleReceiver) × Locals W
  before_deserialize c l =
      let count = Cmsg.current_fd_count cmsghdr_size c in
      let fds = Cmsg.fds cmsghdr_size c in
      if leb count max_msg_fds
      then (
        ok l.receiver,
        record l {
          receiver =
              some
                (record { fds = fds ++ drop count (replicate max_msg_fds 0); fds_count = count });
        },
      )
      else (panic, l)
