-- ===== src/Channel/Cmsg.antt =====
-- `Cmsg` of src/unix/mod.rs: the control message that carries file descriptors. `c_int` is a word of
-- 32 bits. The fields of `msghdr` and `cmsghdr` that never change are left out.
pub mod Payload
use Prim.Native.Nat.{bit_and}
use sandbox_ipc.Prelude.{
  ℕ, ◌+◌, ◌-◌, ◌*◌, ◌/◌, ◌%◌, List, ◌++◌, Option, none, some, leb, take, drop, length, replicate,
}
use sandbox_ipc.Prelude.Word.{usize_mod, usize_max, wrapping_add, wrapping_sub}
use sandbox_ipc.Prelude.Io.{Result, ok, ◌>>=◌, ◌>>◌, assert}

abbrev pub c_int_size : ℕ
c_int_size = 4

-- The buffer is the length in its header, and the words after the header. The `iovec` is the slice
-- that it points to.
pub record Cmsg : Type 0 where
  pub cmsg_len : ℕ
  pub msg_controllen : ℕ
  pub payload : List ℕ
  pub iovec : Option (List ℕ)
  pub fd_count : ℕ

-- `CMSG_ALIGN`; `!(size_of::<size_t>() - 1)` is `usize::MAX - 7`.
unfoldable pub cmsg_align : ℕ → ℕ
cmsg_align length = bit_and (wrapping_sub (wrapping_add length 8) 1) (usize_max - 7)

abbrev pub payload_size : ℕ → ℕ
payload_size count = c_int_size * count % usize_mod

-- The size of `cmsghdr` is that of the platform.
module _ (cmsghdr_size : ℕ) where
  -- `CMSG_LEN`
  unfoldable pub cmsg_len_of : ℕ → ℕ
  cmsg_len_of length = wrapping_add (cmsg_align cmsghdr_size) length

  -- `CMSG_SPACE`
  unfoldable pub cmsg_space : ℕ → ℕ
  cmsg_space length = wrapping_add (cmsg_align length) (cmsg_align cmsghdr_size)

  unfoldable pub new : ℕ → Cmsg
  unfolding cmsg_space cmsg_len_of
  new fd_count = record {
    cmsg_len = cmsg_len_of (payload_size fd_count);
    msg_controllen = cmsg_len_of (payload_size fd_count);
    payload =
        replicate ((cmsg_space (payload_size fd_count) - cmsg_align cmsghdr_size) / c_int_size) 0;
    iovec = none;
    fd_count = fd_count;
  }

  unfoldable pub set_data : List ℕ → Cmsg → Cmsg
  set_data bytes c = record c { iovec = some bytes }

  unfoldable pub set_fds : List ℕ → Cmsg → Result Cmsg
  unfolding cmsg_len_of
  set_fds fds c = do
    assert (leb (length fds) c.fd_count)
    ok (record c {
      cmsg_len = cmsg_len_of (payload_size (length fds));
      msg_controllen = cmsg_len_of (payload_size (length fds));
      payload = fds ++ drop (length fds) c.payload;
    })

  unfoldable pub reset_fd_count : Cmsg → Cmsg
  unfolding cmsg_len_of
  reset_fd_count c = record c {
    cmsg_len = cmsg_len_of (payload_size c.fd_count);
    msg_controllen = cmsg_len_of (payload_size c.fd_count);
  }

  -- Read from the header in the buffer, not from `msg_controllen`.
  unfoldable pub current_fd_count : Cmsg → ℕ
  current_fd_count c = wrapping_sub c.cmsg_len (cmsg_align cmsghdr_size) / c_int_size

  unfoldable pub fds : Cmsg → List ℕ
  unfolding current_fd_count
  fds c = take (current_fd_count c) c.payload
