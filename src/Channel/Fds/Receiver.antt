-- ===== src/Channel/Fds/Receiver.antt =====
-- Receiving file descriptors, of src/unix/mod.rs: what the indices of a message stand for.
use sandbox_ipc.Prelude.{
  ℕ, zero, suc, ◌≤◌, ◌<◌, ◌≡◌, false, List, [], ◌∷◌, ◌++◌, none, some, arith, refl, take, drop,
  length, length-take, get_elem?, replicate, dec_lt,
}
use sandbox_ipc.Prelude.Io.{ok, err, ErrorKind}
use sandbox_ipc.Channel.Cmsg
use sandbox_ipc.Channel.Cmsg.{Cmsg}
use sandbox_ipc.Channel.Cmsg.Payload.{Sound}
use sandbox_ipc.Channel.Fds.{
  Libc, Locals, is_negative, max_msg_fds, recv, set_cloexec, deserialize_fd, before_deserialize,
  drop_deserialize,
}

-- A file descriptor that the process has, and whose flags can be read and set.
pub record Usable {W : Type 0} (libc : Libc W) (w : W) (fd : ℕ) : Type 0 where
  pub valid : is_negative (libc.get_flags fd w).0 ≡ false
  pub settable : (set_cloexec libc fd (libc.get_flags fd w).1).0 ≡ ok tt

pub get_elem?-append :
    (xs ys : List ℕ) (i : ℕ) → i < length xs → get_elem? (xs ++ ys) i ≡ get_elem? xs i
get_elem?-append [] ys i h = absurd (omega arith)
get_elem?-append (x ∷ xs) ys zero h = refl
get_elem?-append (x ∷ xs) ys (suc i) h = get_elem?-append xs ys i (omega arith)

pub get_elem?-beyond : (xs : List ℕ) (i : ℕ) → length xs ≤ i → get_elem? xs i ≡ none
get_elem?-beyond [] i h = refl
get_elem?-beyond (x ∷ xs) zero h = absurd (omega arith)
get_elem?-beyond (x ∷ xs) (suc i) h = get_elem?-beyond xs i (omega arith)

pub get_elem?-within : (xs : List ℕ) (i : ℕ) → i < length xs → (x : ℕ) × (get_elem? xs i ≡ some x)
get_elem?-within [] i h = absurd (omega arith)
get_elem?-within (x ∷ xs) zero h = (x, refl)
get_elem?-within (x ∷ xs) (suc i) h = get_elem?-within xs i (omega arith)

module _ {W : Type 0} (libc : Libc W) (cmsghdr_size : ℕ) where
  -- Between `before_deserialize` and the drop of its guard, which both leave the thread-local
  -- variable as it was, an index of a message stands for the file descriptor that the control
  -- message has there, and any other index is an error; for a sound control message with at most 32
  -- file descriptors, all of them usable.
  pub deserialize_fd-nth :
      (index : ℕ) (c : Cmsg) (l : Locals W)
      → Sound cmsghdr_size c
      → c.fd_count ≤ max_msg_fds
      → ((i fd : ℕ) → get_elem? (Cmsg.fds cmsghdr_size c) i ≡ some fd → Usable libc l.world fd)
      → let (r, l') = before_deserialize cmsghdr_size c l in
        (r ≡ ok l.receiver)
        × ((deserialize_fd libc index l').0 ≡ (elim (get_elem? (Cmsg.fds cmsghdr_size c) index) [
          | some fd ↦ ok fd
          | none ↦ err ErrorKind.custom
        ]))
        × ((drop_deserialize l.receiver l').receiver ≡ l.receiver)
  unfolding before_deserialize deserialize_fd recv drop_deserialize Cmsg.fds
  deserialize_fd-nth index c l sound few usable =
      let count = Cmsg.current_fd_count cmsghdr_size c in
      let fds = take count c.payload in
      let size : length fds ≡ count =
        omega (arith, length-take count c.payload, sound.few, sound.room) in
      elim (dec_lt index count) [
        | yes lt ↦
            let (fd, e) = get_elem?-within fds index (omega (arith, size)) in
            let ok_fd = usable index fd e in
            let there =
              get_elem?-append fds (drop count (replicate max_msg_fds 0)) index
                (omega (arith, size)) in
            (
              ground (arith, sound.few),
              ground (arith, sound.few, e, there, ok_fd.valid, ok_fd.settable),
              ground (arith, sound.few),
            )
        | no nlt ↦
            let e = get_elem?-beyond fds index (omega (arith, size)) in
            (ground (arith, sound.few), ground (arith, sound.few, e), ground (arith, sound.few))
      ]
