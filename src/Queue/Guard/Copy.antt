-- ===== src/Queue/Guard/Copy.antt =====
-- What is written through a `PushGuard` of src/shm/queue.rs is read through a `PopGuard`.
use sandbox_ipc.Prelude.{
  ℕ, zero, suc, ◌+◌, ◌-◌, ◌≤◌, ◌≡◌, min, List, [], ◌∷◌, ◌++◌, arith, refl, ap, ◌∙◌, length, take,
  drop, length-append, length-take, length-drop, append_nil, take-append,
}
use sandbox_ipc.Queue.Guard.{PushGuard, PopGuard, write, read}

drop-append : (n : ℕ) (xs ys : List ℕ) → length xs ≡ n → drop n (xs ++ ys) ≡ ys
drop-append zero [] ys e = refl
drop-append zero (x ∷ xs) ys e = absurd (omega arith)
drop-append (suc n) [] ys e = absurd (omega arith)
drop-append (suc n) (x ∷ xs) ys e = drop-append n xs ys (omega arith)

drop_all : (n : ℕ) (xs : List ℕ) → length xs ≡ n → drop n xs ≡ []
drop_all zero [] e = refl
drop_all zero (x ∷ xs) e = absurd (omega arith)
drop_all (suc n) [] e = refl
drop_all (suc n) (x ∷ xs) e = drop_all n xs (omega arith)

take_all : (xs : List ℕ) → take (length xs) xs ≡ xs
take_all [] = refl
take_all (x ∷ xs) = cc (take_all xs)

-- Bytes written through a guard are read back: if they fit behind the write offset, they are written
-- whole, the slot keeps its length, and a read at that offset into a buffer of their length gives
-- them, and ends where the write ended.
pub read-write :
    (g : PushGuard) (bytes buffer : List ℕ)
    → g.write_offset + length bytes ≤ length g.slice
    → length buffer ≡ length bytes
    → let (g', n) = write g bytes in
      let p : PopGuard = record {
        recv_index = g.send_index;
        slice = g'.slice;
        read_offset = g.write_offset;
      } in
      let (p', out, m) = read p buffer in
      (n ≡ length bytes)
      × (length g'.slice ≡ length g.slice)
      × (m ≡ length bytes)
      × (out ≡ bytes)
      × (p'.read_offset ≡ g'.write_offset)
unfolding write read
read-write g bytes buffer fits same =
    let front = take g.write_offset g.slice in
    let back = drop (g.write_offset + length bytes) g.slice in
    let size : length front ≡ g.write_offset = omega (arith, length-take g.write_offset g.slice) in
    let written : min (length g.slice - g.write_offset) (length bytes) ≡ length bytes =
      omega arith in
    let slice = front ++ (bytes ++ back) in
    let whole : length slice ≡ length g.slice = omega (
      arith,
      size,
      length-append front (bytes ++ back),
      length-append bytes back,
      length-drop (g.write_offset + length bytes) g.slice,
    ) in
    let from_there : drop g.write_offset slice ≡ bytes ++ back =
      drop-append g.write_offset front (bytes ++ back) size in
    let read_all : min (length slice - g.write_offset) (length buffer) ≡ length bytes =
      omega (arith, whole) in
    rw (written, take_all bytes, read_all)
      (
        refl,
        whole,
        refl,
        ap (λ t. take (length bytes) t ++ drop (0 + length bytes) buffer) from_there
            ∙ ap (λ t. t ++ drop (0 + length bytes) buffer) (take-append bytes back)
            ∙ ap (λ t. bytes ++ t) (drop_all (0 + length bytes) buffer (omega arith))
            ∙ append_nil bytes,
        refl,
      )
