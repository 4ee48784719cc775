-- ===== src/Channel/Fds/Reading.antt =====
-- Reading file descriptors one after the other from a message, of src/unix/mod.rs.
use sandbox_ipc.Prelude.{
  ℕ, ◌≤◌, ◌<◌, ◌≡◌, ◌∙◌, List, ◌∷◌, ◌++◌, [], Option, some, Option-cases, inl, inr, arith, take,
  drop, length, length-take, get_elem?, replicate, dec_lt,
}
use sandbox_ipc.Prelude.Io.{ok}
use sandbox_ipc.Channel.Cmsg
use sandbox_ipc.Channel.Cmsg.{Cmsg}
use sandbox_ipc.Channel.Cmsg.Payload.{Sound}
use sandbox_ipc.Channel.Tokens.{Token, number, boolean, is_some, is_none, next_number}
use sandbox_ipc.Channel.Fds.{
  Libc, Locals, HandleReceiver, max_msg_fds, recv, deserialize_fd, before_deserialize,
}
use sandbox_ipc.Channel.Fds.Items.{get_fd}
use sandbox_ipc.Channel.Fds.Sender.{Duplicates, cloexec-keeps}
use sandbox_ipc.Channel.Fds.Receiver.{Usable, get_elem?-append, get_elem?-beyond}

-- The thread-local variable offers these file descriptors.
pub record Offers {W : Type 0} (fds : List ℕ) (l : Locals W) : Type 0 where
  pub receiver : HandleReceiver
  pub holds : l.receiver ≡ some receiver
  pub counted : receiver.fds_count ≡ length fds
  pub same : (i fd : ℕ) → get_elem? fds i ≡ some fd → get_elem? receiver.fds i ≡ some fd

get_elem?-lt : (xs : List ℕ) (i x : ℕ) → get_elem? xs i ≡ some x → i < length xs
get_elem?-lt xs i x e = elim (dec_lt i (length xs)) [
  | yes lt ↦ lt
  | no nlt ↦ absurd (cc (e, get_elem?-beyond xs i (omega arith)))
]

module _ {W : Type 0} (cmsghdr_size : ℕ) where
  -- A sound control message is offered whole.
  pub before_deserialize-Offers :
      (c : Cmsg) (l : Locals W)
      → Sound cmsghdr_size c
      → c.fd_count ≤ max_msg_fds
      → Offers (Cmsg.fds cmsghdr_size c) (before_deserialize cmsghdr_size c l).1
  unfolding before_deserialize Cmsg.fds
  before_deserialize-Offers c l sound few =
      let count = Cmsg.current_fd_count cmsghdr_size c in
      let fds = take count c.payload in
      let rest : List ℕ = drop count (replicate max_msg_fds 0) in
      let size : length fds ≡ count =
        omega (arith, length-take count c.payload, sound.few, sound.room) in
      record {
        receiver = record { fds = fds ++ rest; fds_count = count };
        holds = ground (arith, sound.few);
        counted = omega (arith, size);
        same = λ i fd e. get_elem?-append fds rest i (get_elem?-lt fds i fd e) ∙ e;
      }

module _ {W : Type 0} (libc : Libc W) where
  -- An index is read as the file descriptor at it, and the others are still offered.
  pub get_fd-Offers :
      (fds : List ℕ) (i fd : ℕ) (rest : List Token) (l : Locals W)
      → Offers fds l
      → get_elem? fds i ≡ some fd
      → Usable libc l.world fd
      → let (r, l') = get_fd libc (number i ∷ rest) l in (r ≡ ok (fd, rest)) × Offers fds l'
  unfolding get_fd next_number deserialize_fd recv
  get_fd-Offers fds i fd rest l offers there fine =
      let below = get_elem?-lt fds i fd there in
      (
        ground (
          arith,
          offers.holds,
          offers.counted,
          offers.same i fd there,
          fine.valid,
          fine.settable,
        ),
        record {
          receiver = offers.receiver;
          holds = ground (arith, offers.holds);
          counted = offers.counted;
          same = offers.same;
        },
      )

-- Reading leaves what the file descriptors refer to.
pub get_fd-keeps :
    {W : Type 0} {libc : Libc W} {refers : W → ℕ → Option ℕ} (dups : Duplicates libc refers) (x : ℕ)
    (tokens : List Token) (l : Locals W)
    → refers (get_fd libc tokens l).1.world x ≡ refers l.world x
unfolding get_fd next_number deserialize_fd recv
get_fd-keeps dups x [] l = ground arith
get_fd-keeps {libc} dups x (number i ∷ rest) l = elim (Option-cases l.receiver) [
  | inl e ↦ ground (arith, e)
  | inr (receiver, e) ↦ elim (Option-cases (get_elem? receiver.fds i)) [
    | inl e' ↦ ground (arith, e, e')
    | inr (fd, e') ↦ ground (
      arith,
      e,
      e',
      dups.get-keeps fd x l.world,
      cloexec-keeps dups fd x (libc.get_flags fd l.world).1,
    )
  ]
]
get_fd-keeps dups x (boolean b ∷ rest) l = ground arith
get_fd-keeps dups x (is_some ∷ rest) l = ground arith
get_fd-keeps dups x (is_none ∷ rest) l = ground arith
