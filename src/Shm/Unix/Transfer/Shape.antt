-- ===== src/Shm/Unix/Transfer/Shape.antt =====
-- What the data of a memory of src/unix/sharedmem.rs comes to, given the indices of its file
-- descriptors.
use sandbox_ipc.Prelude.{ℕ, ◌≡◌, ◌∙◌, length, arith, List, [], ◌∷◌, Option, none, some, arith}
use sandbox_ipc.Prelude.Io.{ok}
use sandbox_ipc.Channel.Tokens.{Token, number, is_some, is_none}
use sandbox_ipc.Channel.Fds.{Libc, Locals, serialize_fd}
use sandbox_ipc.Channel.Fds.Items.{put_fd, put_option}
use sandbox_ipc.Channel.Fds.Runs.{serialize_all, serialize_all_cons, from}
use sandbox_ipc.Shm.Unix.{SharedMem}
use sandbox_ipc.Shm.Unix.Owners.{memory_fds}
use sandbox_ipc.Shm.Unix.Transfer.{serialize_token}
use sandbox_ipc.Shm.Map

-- The tokens for a memory whose file descriptors are numbered from 0.
abbrev pub shape : Map.SharedMem SharedMem → List Token
shape mem = elim mem.inner.rw_fd [
  | none ↦ is_none ∷ number 0 ∷ number mem.inner.size ∷ number mem.token ∷ []
  | some fd ↦ is_some ∷ number 0 ∷ number 1 ∷ number mem.inner.size ∷ number mem.token ∷ []
]

module _ {W : Type 0} (libc : Libc W) where
  -- The state after file descriptors have been encoded is that after a memory with them has been.
  one :
      (ro_fd size token index : ℕ) (l : Locals W)
      → (serialize_fd libc ro_fd l).0 ≡ ok index
      → index ≡ 0
      → let mem : Map.SharedMem SharedMem = record {
        inner = record { rw_fd = none; ro_fd = ro_fd; size = size };
        token = token;
      } in
        serialize_token libc mem l ≡ (ok (shape mem), (serialize_fd libc ro_fd l).1)
  unfolding serialize_token put_fd put_option
  one ro_fd size token index l e first = ground (arith, e, first)

  two :
      (rw_fd ro_fd size token index next : ℕ) (l : Locals W)
      → (serialize_fd libc rw_fd l).0 ≡ ok index
      → (serialize_fd libc ro_fd (serialize_fd libc rw_fd l).1).0 ≡ ok next
      → index ≡ 0
      → next ≡ 1
      → let mem : Map.SharedMem SharedMem = record {
        inner = record { rw_fd = some rw_fd; ro_fd = ro_fd; size = size };
        token = token;
      } in
        serialize_token libc mem l
        ≡ (ok (shape mem), (serialize_fd libc ro_fd (serialize_fd libc rw_fd l).1).1)
  unfolding serialize_token put_fd put_option
  two rw_fd ro_fd size token index next l e e' first second = ground (arith, e, e', first, second)

  by_fields :
      (rw_fd : Option ℕ) (ro_fd size token : ℕ) (indices : List ℕ) (l : Locals W)
      → let mem : Map.SharedMem SharedMem = record {
        inner = record { rw_fd = rw_fd; ro_fd = ro_fd; size = size };
        token = token;
      } in
        (serialize_all libc (memory_fds mem.inner) l).0 ≡ ok indices
        → indices ≡ from 0 (length (memory_fds mem.inner))
        → serialize_token libc mem l
          ≡ (ok (shape mem), (serialize_all libc (memory_fds mem.inner) l).1)
  unfolding serialize_all
  by_fields none ro_fd size token indices l done counted =
      let (index, rest, split, e, none_left, same) =
        serialize_all_cons libc ro_fd [] l indices done in
      one ro_fd size token index l e (cc (split, counted)) ∙ ground (arith, same)
  by_fields (some rw_fd) ro_fd size token indices l done counted =
      let (index, rest, split, e, more, same) =
        serialize_all_cons libc rw_fd (ro_fd ∷ []) l indices done in
      let (next, rest', split', e', none_left, same') =
        serialize_all_cons libc ro_fd [] (serialize_fd libc rw_fd l).1 rest more in
      two rw_fd ro_fd size token index next l e e' (cc (split, counted))
        (cc (split, split', counted))
      ∙ ground (arith, same, same')

  -- Encoding a memory is encoding its file descriptors, with its size and its token as numbers, if the
  -- indices are 0 and 1.
  pub serialize_token-all :
      (mem : Map.SharedMem SharedMem) (indices : List ℕ) (l : Locals W)
      → (serialize_all libc (memory_fds mem.inner) l).0 ≡ ok indices
      → indices ≡ from 0 (length (memory_fds mem.inner))
      → serialize_token libc mem l
        ≡ (ok (shape mem), (serialize_all libc (memory_fds mem.inner) l).1)
  serialize_token-all mem indices l done counted =
      by_fields mem.inner.rw_fd mem.inner.ro_fd mem.inner.size mem.token indices l done counted
