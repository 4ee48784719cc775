-- ===== src/Source/Transfer/Handles.antt =====
-- A data source of src/io.rs from one process to another, on Windows.
use sandbox_ipc.Prelude.{ℕ, ◌≡◌, ap, Bool, true, List, [], ◌∷◌, ◌++◌, some, arith}
use sandbox_ipc.Prelude.Io.{ok}
use sandbox_ipc.Channel.Tokens.{Token, number, next_number}
use sandbox_ipc.Channel.Handles.{Winapi, HandleSender, Locals, duplicate, serialize_handle, send}
use sandbox_ipc.Channel.Handles.Arrival.{
  put_file, get_file, encode_handle, deserialize_handle, before_deserialize,
}
use sandbox_ipc.Shm.Windows.{SharedMem}
use sandbox_ipc.Shm.Windows.Transfer.{serialize_token, deserialize_token, section_arrives}
use sandbox_ipc.Source.{SendableDataSource, file, memory, inline}
use sandbox_ipc.Source.Transfer.{
  Wire, serialize, deserialize, inline_arrives, serialize-file, serialize-memory, deserialize-file,
  deserialize-memory,
}

abbrev pub windows :
    {W V : Type 0} → Winapi W → Winapi V → (ℕ → Bool) → Wire (Locals W) (Locals V) SharedMem
windows api api' is_handle = record {
  put_file = put_file api;
  get_file = get_file is_handle;
  put_memory = serialize_token api;
  get_memory = deserialize_token api' is_handle;
}

-- The handle that a source has, and the source with another handle in its place.
abbrev pub handle_of : SendableDataSource ℕ SharedMem → ℕ → ℕ
handle_of (file handle) other = handle
handle_of (memory mem) other = mem.inner.handle
handle_of (inline bytes) other = other

abbrev pub with_handle : SendableDataSource ℕ SharedMem → ℕ → SendableDataSource ℕ SharedMem
with_handle (file handle) remote = file remote
with_handle (memory mem) remote =
    memory (record mem { inner = record { handle = remote; size = mem.inner.size } })
with_handle (inline bytes) remote = inline bytes

-- A data source arrives: what a receiver decodes of a source that is sent to its process is that source,
-- with the handle that `DuplicateHandle` made of the source's own in that process in its place, if it
-- has one, and what follows in the message is left over. The sender's target is a process, the call
-- does not fail, and `WinHandle` takes the duplicate for a handle.
pub windows_source_arrives :
    {W V : Type 0} (api : Winapi W) (api' : Winapi V) (is_handle : ℕ → Bool)
    (source : SendableDataSource ℕ SharedMem) (other remote : ℕ) (s : HandleSender) (l : Locals W)
    (r : Locals V) (rest : List Token)
    → l.sender ≡ some s
    → (duplicate api s.target (handle_of source other) l.world).0 ≡ some remote
    → is_handle remote ≡ true
    → let wire = windows api api' is_handle in
      (tokens : List Token) × ((serialize wire source l).0 ≡ ok tokens)
      × ((deserialize wire (tokens ++ rest) (before_deserialize r).1).0
          ≡ ok (with_handle source remote, rest))
unfolding encode_handle serialize_handle send deserialize_handle before_deserialize next_number
windows_source_arrives api api' is_handle (file handle) other remote s l r rest sender duplicated
      valid =
    let wire = windows api api' is_handle in
    let put : (encode_handle api handle l).0 ≡ ok (number remote ∷ []) =
      ground (arith, sender, duplicated) in
    let enc = serialize-file wire handle (number remote ∷ []) l put in
    let dec =
      deserialize-file wire remote (number remote ∷ rest) rest (before_deserialize r).1
        (ground (arith, valid)) in
    (number 0 ∷ number remote ∷ [], ap (λ p. p.0) enc, ap (λ p. p.0) dec)
windows_source_arrives api api' is_handle (memory mem) other remote s l r rest sender duplicated
      valid =
    let wire = windows api api' is_handle in
    let (tokens, put, (got, kept)) =
      section_arrives api api' is_handle mem remote s l r rest sender duplicated valid in
    let enc = serialize-memory wire mem tokens l put in
    let dec = deserialize-memory wire _ (tokens ++ rest) rest (before_deserialize r).1 got in
    (number 1 ∷ tokens, ap (λ p. p.0) enc, ap (λ p. p.0) dec)
windows_source_arrives api api' is_handle (inline bytes) other remote s l r rest sender duplicated
      valid =
    let wire = windows api api' is_handle in
    let (enc, dec) = inline_arrives wire bytes rest l (before_deserialize r).1 in
    (_, ap (λ p. p.0) enc, ap (λ p. p.0) dec)
