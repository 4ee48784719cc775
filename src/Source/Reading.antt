-- ===== src/Source/Reading.antt =====
-- Reading a data source of src/io.rs piece by piece, against its bytes as a whole.
use native.Mathlib.Numerals.{unary_clauses}
use sandbox_ipc.Prelude.{
  ℕ, zero, suc, ◌+◌, ◌<◌, ◌≡◌, refl, sym, ap, ◌∙◌, List, [], ◌∷◌, ◌++◌, length, take, drop, arith,
  length-append, inl, inr,
}
use sandbox_ipc.Prelude.Io.{ok, ◌>>=◌, Result-cases}
use sandbox_ipc.Shm.Range.{Access, Range}
use sandbox_ipc.Shm.Map
use sandbox_ipc.Shm.Map.{Platform, SharedMem, SharedMemMap}
use sandbox_ipc.Source.{
  Files, Cursor, read_cursor, SendableDataSource, SendableDataSourceReader, SendableDataSourceBytes,
  to_read, to_bytes, read, deref, drain,
}

-- A chunk that a read of `size` bytes may return before `rest`, leaving `rest'`.
abbrev pub Chunk : List ℕ → List ℕ → List ℕ → Type 0
Chunk rest chunk rest' = (rest ≡ chunk ++ rest') × (chunk ≡ [] → rest ≡ [])

-- Files without I/O errors: `rest` is what lies between the position and the end.
pub record Streams {F : Type 0} (files : Files F) (rest : F → List ℕ) : Type 0 where
  pub read_chunk :
      (f : F) (size : ℕ)
      → 0 < size
      → (chunk : List ℕ) × ((files.read f size).0 ≡ ok chunk)
        × Chunk (rest f) chunk (rest (files.read f size).1)
  pub read_rest : (f : F) → (files.read_to_end f).0 ≡ ok (rest f)

pub take-drop : {A : Type 0} (n : ℕ) (xs : List A) → xs ≡ take n xs ++ drop n xs
take-drop zero xs = refl
take-drop (suc n) [] = refl
take-drop (suc n) (x ∷ xs) = cc (take-drop n xs)

drop-take : {A : Type 0} (n : ℕ) (xs : List A) → drop n xs ≡ drop (length (take n xs)) xs
drop-take zero xs = refl
drop-take (suc n) [] = refl
drop-take (suc n) (x ∷ xs) = drop-take n xs

pub take-eq-nil : {A : Type 0} (n : ℕ) (xs : List A) → 0 < n → take n xs ≡ [] → xs ≡ []
take-eq-nil zero xs lt e = absurd (omega arith)
take-eq-nil (suc n) [] lt e = refl
take-eq-nil (suc n) (x ∷ xs) lt e = cc

drop-add :
    {A : Type 0} (i n : ℕ) (xs : List A)
    → drop n (drop i xs) ≡ drop (i + length (take n (drop i xs))) xs
drop-add zero n xs = ground (arith, drop-take n xs)
drop-add (suc i) zero [] = simp unary_clauses refl
drop-add (suc i) (suc n) [] = simp unary_clauses refl
drop-add (suc i) n (x ∷ xs) =
    let next : suc i + length (take n (drop i xs)) ≡ suc (i + length (take n (drop i xs))) =
      omega arith in
    rw next (drop-add i n xs)

cursor-Chunk :
    (c : Cursor) (size : ℕ)
    → 0 < size
    → let (chunk, c') = read_cursor c size in
      Chunk (drop c.position c.bytes) chunk (drop c'.position c'.bytes)
cursor-Chunk c size lt = (
  take-drop size (drop c.position c.bytes)
      ∙ ap (λ t. take size (drop c.position c.bytes) ++ t) (drop-add c.position size c.bytes),
  take-eq-nil size (drop c.position c.bytes) lt,
)

module _ {F M V : Type 0} (files : Files F) (platform : Platform M V) (byte_at : ℕ → ℕ)
    (rest : F → List ℕ) (laws : Streams files rest) where
  abbrev remaining : SendableDataSourceReader F M V → List ℕ
  remaining (SendableDataSourceReader.file f) = rest f
  remaining (SendableDataSourceReader.memory map c) = drop c.position c.bytes
  remaining (SendableDataSourceReader.inline c) = drop c.position c.bytes

  read-Chunk :
      (reader : SendableDataSourceReader F M V) (size : ℕ)
      → 0 < size
      → (chunk : List ℕ) × ((read files platform byte_at reader size).0 ≡ ok chunk)
        × Chunk (remaining reader) chunk (remaining (read files platform byte_at reader size).1)
  unfolding read
  read-Chunk (SendableDataSourceReader.file f) size lt = laws.read_chunk f size lt
  read-Chunk (SendableDataSourceReader.memory map c) size lt = (_, refl, cursor-Chunk c size lt)
  read-Chunk (SendableDataSourceReader.inline c) size lt = (_, refl, cursor-Chunk c size lt)

  drain-Chunk :
      (fuel size : ℕ) (reader : SendableDataSourceReader F M V) (chunk : List ℕ)
      → let reader' = (read files platform byte_at reader size).1 in
        (read files platform byte_at reader size).0 ≡ ok chunk
        → Chunk (remaining reader) chunk (remaining reader')
        → length (remaining reader) < suc fuel
        → (length (remaining reader') < fuel
            → drain files platform byte_at fuel size reader' ≡ ok (remaining reader'))
        → drain files platform byte_at (suc fuel) size reader ≡ ok (remaining reader)
  unfolding drain
  drain-Chunk fuel size reader [] got (split, end) enough ih = rw got (ap ok (sym (end refl)))
  drain-Chunk fuel size reader (b ∷ bs) got (split, end) enough ih =
      let reader' = (read files platform byte_at reader size).1 in
      let fits : length (remaining reader') < fuel =
        omega (arith, enough, ap length split, length-append (b ∷ bs) (remaining reader')) in
      rw got (rw (ih fits) (ap ok (sym split)))

  drain_lem :
      (fuel size : ℕ) (reader : SendableDataSourceReader F M V)
      → 0 < size
      → length (remaining reader) < fuel
      → drain files platform byte_at fuel size reader ≡ ok (remaining reader)
  unfolding drain
  drain_lem zero size reader lt enough = absurd (omega arith)
  drain_lem (suc fuel) size reader lt enough =
      let (chunk, got, whole) = read-Chunk reader size lt in
      drain-Chunk fuel size reader chunk got whole enough (drain_lem fuel size _ lt)

  -- Reading piece by piece gives what reading at once gives: over files that have no I/O errors, to
  -- make a reader of a data source and to read with a buffer of any size but 0 until a read returns
  -- no byte gives the bytes of `to_bytes`, or the error or the panic of the mapping that `to_bytes`
  -- gives. It ends after as many reads as there are bytes, and one.
  pub read_all :
      (source : SendableDataSource F M) (fuel size : ℕ)
      → 0 < size
      → ((b : SendableDataSourceBytes M V)
          → to_bytes files platform byte_at source ≡ ok b
          → length (deref files platform byte_at b) < fuel)
      → (to_read files platform byte_at source >>= λ reader.
          drain files platform byte_at fuel size reader)
        ≡ (to_bytes files platform byte_at source >>= λ b. ok (deref files platform byte_at b))
  unfolding to_read to_bytes deref
  read_all (SendableDataSource.file f) fuel size lt enough = rw (laws.read_rest f) (
      drain_lem fuel size (SendableDataSourceReader.file f) lt
        (enough (SendableDataSourceBytes.vec (rest f)) (rw (laws.read_rest f) refl)))
  read_all (SendableDataSource.memory mem) fuel size lt enough =
      elim (Result-cases (Map.map platform mem Range.full Access.read)) [
        | inl (map, e) ↦ rw e (
            drain_lem fuel size (SendableDataSourceReader.memory map _) lt
              (enough (SendableDataSourceBytes.shared map) (rw e refl)))
        | inr (inl (kind, e)) ↦ rw e refl
        | inr (inr e) ↦ rw e refl
      ]
  read_all (SendableDataSource.inline bytes) fuel size lt enough =
      drain_lem fuel size _ lt (enough (SendableDataSourceBytes.vec bytes) refl)
