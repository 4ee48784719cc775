-- ===== src/Channel/Datagram/Tests/Sizes.antt =====
-- A transport that cuts a message to the buffer, under a `BincodeDatagram` of src/ser.rs.
use sandbox_ipc.Prelude.{
  ℕ, zero, suc, ◌≤◌, ◌≡◌, ◌≢◌, refl, arith, List, [], ◌∷◌, ◌++◌, take, drop, length, length-append,
  length-take, length-drop,
}
use sandbox_ipc.Prelude.Io.{Result, ok, err, panic, ErrorKind}
use sandbox_ipc.Channel.Datagram.{Transport, wrap, start_send, poll_complete, poll}
use sandbox_ipc.Channel.Datagram.Outbox.{run}
use sandbox_ipc.Channel.Datagram.Buffers.{Lent, Sized}
use sandbox_ipc.Channel.Datagram.Sized.{Bounded, run_safe}
use sandbox_ipc.Channel.Datagram.Tests.{Wire, write, bytes, noop, serialize_into, deserialize, ops}

abbrev pub read_cut : List ℕ → Wire → Result ℕ × List ℕ × Wire
read_cut buffer ([], out, room) = (err ErrorKind.would_block, buffer, ([], out, room))
read_cut buffer (m ∷ rest, out, room) =
    let cut = take (length buffer) m in
    (ok (length cut), cut ++ drop (length cut) buffer, (rest, out, room))

abbrev pub cutting : Transport Wire
cutting = record { read = read_cut; write = write }

read-length_lem : (buffer : List ℕ) (w : Wire) → length (read_cut buffer w).1 ≡ length buffer
read-length_lem buffer ([], out, room) = refl
read-length_lem buffer (m ∷ rest, out, room) =
    let cut = take (length buffer) m in
    omega (
      arith,
      length-append cut (drop (length cut) buffer),
      length-drop (length cut) buffer,
      length-take (length buffer) m,
    )

read-count_lem :
    (buffer : List ℕ) (w : Wire) (n : ℕ) → (read_cut buffer w).0 ≡ ok n → n ≤ length buffer
read-count_lem buffer ([], out, room) n e = ground arith
read-count_lem buffer (m ∷ rest, out, room) n e = ground (arith, length-take (length buffer) m)

read_calm_lem : (buffer : List ℕ) (w : Wire) → (read_cut buffer w).0 ≢ panic
read_calm_lem buffer ([], out, room) = ground arith
read_calm_lem buffer (m ∷ rest, out, room) = ground arith

write_calm_lem : (m : List ℕ) (w : Wire) → (write m w).0 ≢ panic
write_calm_lem m (arrivals, out, zero) = ground arith
write_calm_lem m (arrivals, out, suc room) = ground arith

serialize-length_lem :
    {G : Type 0} (limit x : ℕ) (buffer : List ℕ) (g : G)
    → length (serialize_into limit x buffer g).1 ≡ length buffer
serialize-length_lem limit x [] g = refl
serialize-length_lem limit x (b ∷ buffer) g = refl

serialize-count_lem :
    {G : Type 0} (limit x : ℕ) (buffer : List ℕ) (g : G) (n : ℕ)
    → (serialize_into limit x buffer g).0 ≡ ok n
    → n ≤ length buffer
serialize-count_lem limit x [] g n e = ground arith
serialize-count_lem limit x (b ∷ buffer) g n e = ground arith

serialize_calm_lem :
    (limit x : ℕ) (buffer : List ℕ) (g : Unit {0}) → (serialize_into limit x buffer g).0 ≢ panic
serialize_calm_lem limit x [] g = ground arith
serialize_calm_lem limit x (b ∷ buffer) g = ground arith

deserialize_calm_lem : (limit : ℕ) (m : List ℕ) (g : Unit {0}) → (deserialize limit m g).0 ≢ panic
deserialize_calm_lem limit [] g = ground arith
deserialize_calm_lem limit (b ∷ m) g = ground arith

pub cutting-Lent : {G : Type 0} → Lent cutting (bytes {G = G})
cutting-Lent = record {
  read-length = read-length_lem;
  serialize-length = serialize-length_lem;
  serialize-count = serialize-count_lem;
}

cutting-Bounded : Bounded cutting bytes (noop {G = Unit {0}})
cutting-Bounded = record {
  lent = cutting-Lent;
  read-count = read-count_lem;
  read_calm = read_calm_lem;
  write_calm = write_calm_lem;
  serialize_calm = serialize_calm_lem;
  deserialize_calm = deserialize_calm_lem;
  commit_calm = λ guard s g. ground arith;
  before_calm = λ s g. ground arith;
}

-- The second write blocks, so that a message waits afterwards.
run_safe_example :
    let d = (run cutting bytes noop ops (wrap ([], [], 1) 4 tt)).1 in
    Sized 4 d
    × ((start_send cutting bytes noop 5 d).0 ≢ panic)
    × ((poll_complete cutting bytes noop d).0 ≢ panic)
    × ((poll cutting bytes noop d).0 ≢ panic)
run_safe_example = run_safe cutting bytes noop cutting-Bounded ([], [], 1) 4 tt ops 5
