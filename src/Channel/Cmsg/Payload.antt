-- ===== src/Channel/Cmsg/Payload.antt =====
-- The payload of a `Cmsg` of src/unix/mod.rs: the file descriptors put in come out, inside the buffer.
use sandbox_ipc.Prelude.{
  take-append, ℕ, ◌+◌, ◌-◌, ◌*◌, ◌/◌, ◌≤◌, ◌<◌, ◌≡◌, List, ◌++◌, arith, refl, drop, length,
  length-append, length-drop, length-replicate,
}
use sandbox_ipc.Prelude.Bits.{bit_and_not_seven}
use sandbox_ipc.Prelude.Word.{usize_mod}
use sandbox_ipc.Prelude.Io.{ok}
use sandbox_ipc.Channel.Cmsg.{
  Cmsg, cmsg_align, cmsg_len_of, cmsg_space, new, set_fds, reset_fd_count, current_fd_count, fds,
  payload_size,
}

-- `CMSG_ALIGN` rounds up to a multiple of 8.
cmsg_align_lem :
    (n : ℕ)
    → n + 8 < usize_mod
    → (cmsg_align n ≡ 8 * ((n + 7) / 8)) × (n ≤ cmsg_align n) × (cmsg_align n < n + 8)
unfolding cmsg_align
cmsg_align_lem n small = ground (arith, bit_and_not_seven (n + 7))

-- The payload has room for `fd_count` descriptors, those counted in the header are no more, and the
-- kernel is told of no more bytes than the buffer has.
pub record Sound (cmsghdr_size : ℕ) (c : Cmsg) : Type 0 where
  pub room : c.fd_count ≤ length c.payload
  pub few : current_fd_count cmsghdr_size c ≤ c.fd_count
  pub told : c.msg_controllen ≤ cmsg_align cmsghdr_size + 4 * length c.payload

module _ (cmsghdr_size : ℕ) where
  count_of_len :
      (n : ℕ)
      → cmsghdr_size + 8 + 4 * n < usize_mod
      → (c : Cmsg) → c.cmsg_len ≡ cmsg_len_of cmsghdr_size (payload_size n)
      → (current_fd_count cmsghdr_size c ≡ n)
        × (cmsg_len_of cmsghdr_size (payload_size n) ≡ cmsg_align cmsghdr_size + 4 * n)
  unfolding current_fd_count cmsg_len_of
  count_of_len n small c e = ground (arith, cmsg_align_lem cmsghdr_size)

  -- A new control message is sound, and one that is reset to receive stays so and counts all
  -- `fd_count` descriptors, if the sizes do not wrap around.
  pub new-Sound :
      (fd_count : ℕ)
      → cmsghdr_size + 24 + 4 * fd_count < usize_mod
      → Sound cmsghdr_size (new cmsghdr_size fd_count)
  unfolding new cmsg_space
  new-Sound fd_count small =
      let count = count_of_len fd_count (omega arith) (new cmsghdr_size fd_count) refl in
      let space = (cmsg_space cmsghdr_size (payload_size fd_count) - cmsg_align cmsghdr_size) / 4 in
      record {
        room = ground (
          arith,
          length-replicate {A = ℕ} space 0,
          cmsg_align_lem (4 * fd_count),
          cmsg_align_lem cmsghdr_size,
        );
        few = omega (arith, count);
        told = ground (
          arith,
          count,
          length-replicate {A = ℕ} space 0,
          cmsg_align_lem (4 * fd_count),
          cmsg_align_lem cmsghdr_size,
        );
      }

  pub reset-Sound :
      (c : Cmsg)
      → cmsghdr_size + 24 + 4 * c.fd_count < usize_mod
      → Sound cmsghdr_size c
      → Sound cmsghdr_size (reset_fd_count cmsghdr_size c)
        × (current_fd_count cmsghdr_size (reset_fd_count cmsghdr_size c) ≡ c.fd_count)
  unfolding reset_fd_count
  reset-Sound c small sound =
      let count = count_of_len c.fd_count (omega arith) (reset_fd_count cmsghdr_size c) refl in
      (
        record {
          room = sound.room;
          few = omega (arith, count);
          told = omega (arith, count, sound.room);
        },
        count.0,
      )

  -- The file descriptors put into a sound control message are the ones it then offers, and it stays
  -- sound, if they are at most `fd_count` and the sizes do not wrap around.
  pub fds-set_fds :
      (fs : List ℕ) (c : Cmsg)
      → cmsghdr_size + 24 + 4 * c.fd_count < usize_mod
      → Sound cmsghdr_size c
      → length fs ≤ c.fd_count
      → (c' : Cmsg) × (set_fds cmsghdr_size fs c ≡ ok c')
        × (fds cmsghdr_size c' ≡ fs)
        × (c'.fd_count ≡ c.fd_count)
        × Sound cmsghdr_size c'
  unfolding set_fds fds
  fds-set_fds fs c small sound few =
      let c' = record c {
        cmsg_len = cmsg_len_of cmsghdr_size (payload_size (length fs));
        msg_controllen = cmsg_len_of cmsghdr_size (payload_size (length fs));
        payload = fs ++ drop (length fs) c.payload;
      } in
      let count = count_of_len (length fs) (omega arith) c' refl in
      let size = length-append fs (drop (length fs) c.payload) in
      let rest = length-drop (length fs) c.payload in
      (
        c',
        ground arith,
        ground (arith, count, take-append fs (drop (length fs) c.payload)),
        refl,
        record {
          room = omega (arith, sound.room, size, rest);
          few = omega (arith, count);
          told = omega (arith, count, size, sound.room, rest);
        },
      )
