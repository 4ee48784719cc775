-- ===== src/Queue/Guard.antt =====
-- The guards of src/shm/queue.rs, and `io::Write` and `io::Read` on them. A guard's slice is the
-- bytes of its slot.
pub mod Copy
use sandbox_ipc.Prelude.{ℕ, ◌+◌, ◌-◌, min, List, ◌++◌, length, take, drop}

pub record PushGuard : Type 0 where
  pub send_index : ℕ
  pub slice : List ℕ
  pub write_offset : ℕ

pub record PopGuard : Type 0 where
  pub recv_index : ℕ
  pub slice : List ℕ
  pub read_offset : ℕ

-- `dest[at..at + n].copy_from_slice(&src[..n])`
abbrev pub copy_into : List ℕ → ℕ → ℕ → List ℕ → List ℕ
copy_into dest at n src = take at dest ++ (take n src ++ drop (at + n) dest)

-- The guard afterwards, and the number of bytes written.
unfoldable pub write : PushGuard → List ℕ → PushGuard × ℕ
write g bytes =
    let bytes_to_write = min (length g.slice - g.write_offset) (length bytes) in
    (
      record g {
        slice = copy_into g.slice g.write_offset bytes_to_write bytes;
        write_offset = g.write_offset + bytes_to_write;
      },
      bytes_to_write,
    )

-- The guard and the buffer afterwards, and the number of bytes read.
unfoldable pub read : PopGuard → List ℕ → PopGuard × List ℕ × ℕ
read g buffer =
    let bytes_to_read = min (length g.slice - g.read_offset) (length buffer) in
    (
      record g { read_offset = g.read_offset + bytes_to_read },
      copy_into buffer 0 bytes_to_read (drop g.read_offset g.slice),
      bytes_to_read,
    )
