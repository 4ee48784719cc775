-- ===== src/Shm/Windows/Transfer.antt =====
-- `SharedMem` of src/windows/sharedmem.rs in a message, and in it that of src/shm/mod.rs. A uuid is a number.
use sandbox_ipc.Prelude.{ℕ, ◌≡◌, Bool, true, List, [], ◌∷◌, ◌++◌, some, arith}
use sandbox_ipc.Prelude.Io.{ok}
use sandbox_ipc.Prelude.State.{St, ◌>>=◌, pure, lift, scoped}
use sandbox_ipc.Channel.Tokens.{Token, number, next_number}
use sandbox_ipc.Channel.Handles.{Winapi, HandleSender, Locals, duplicate, serialize_handle, send}
use sandbox_ipc.Channel.Handles.Arrival.{
  encode_handle, deserialize_handle, before_deserialize, drop_deserialize,
}
use sandbox_ipc.Shm.Windows.{SharedMem}
use sandbox_ipc.Shm.Map

module _ {W : Type 0} (api : Winapi W) where
  unfoldable pub serialize : SharedMem → St (Locals W) (List Token)
  serialize mem = do handle ← encode_handle api mem.handle; pure (handle ++ (number mem.size ∷ []))

  unfoldable pub serialize_token : Map.SharedMem SharedMem → St (Locals W) (List Token)
  unfolding serialize
  serialize_token mem = do inner ← serialize mem.inner; pure (inner ++ (number mem.token ∷ []))

  -- The drop of a `WinHandle`.
  abbrev pub drop_handle : ℕ → St (Locals W) (Unit {0})
  drop_handle handle l = (ok tt, record l { world = api.close handle l.world })

  -- An error closes the handle that has been read.
  unfoldable pub deserialize : (ℕ → Bool) → List Token → St (Locals W) (SharedMem × List Token)
  deserialize is_handle tokens = do
    (handle, tokens₁) ← deserialize_handle is_handle tokens
    scoped (drop_handle handle) (do
      (size, tokens₂) ← lift (next_number tokens₁)
      pure (record { handle = handle; size = size }, tokens₂))

  unfoldable pub deserialize_token :
      (ℕ → Bool) → List Token → St (Locals W) (Map.SharedMem SharedMem × List Token)
  unfolding deserialize
  deserialize_token is_handle tokens = do
    (inner, tokens₁) ← deserialize is_handle tokens
    scoped (drop_handle inner.handle) (do
      (token, tokens₂) ← lift (next_number tokens₁)
      pure (record { inner = inner; token = token }, tokens₂))

-- A section arrives: a memory that is sent to a process comes out there with its size, its token and
-- the handle that `DuplicateHandle` made of its own in that process; what follows in the message is
-- left over, and the receiver is afterwards as it was. The sender's target is a process, the call
-- does not fail, and `WinHandle` takes the duplicate for a handle.
pub section_arrives :
    {W V : Type 0} (api : Winapi W) (api' : Winapi V) (is_handle : ℕ → Bool)
    (mem : Map.SharedMem SharedMem) (remote : ℕ) (s : HandleSender) (l : Locals W) (r : Locals V)
    (rest : List Token)
    → l.sender ≡ some s
    → (duplicate api s.target mem.inner.handle l.world).0 ≡ some remote
    → is_handle remote ≡ true
    → let (saved, r₀) = before_deserialize r in
      (tokens : List Token) × ((serialize_token api mem l).0 ≡ ok tokens)
      × (let (got, r₁) = deserialize_token api' is_handle (tokens ++ rest) r₀ in
          (got
            ≡ ok (
              record {
                inner = record { handle = remote; size = mem.inner.size };
                token = mem.token;
              },
              rest,
            ))
          × (drop_deserialize saved r₁ ≡ r))
unfolding serialize_token deserialize_token encode_handle serialize_handle send deserialize_handle
    before_deserialize drop_deserialize next_number
section_arrives api api' is_handle mem remote s l r rest sender duplicated valid = (
  number remote ∷ number mem.inner.size ∷ number mem.token ∷ [],
  ground (arith, sender, duplicated),
  (ground (arith, valid), ground (arith, valid)),
)
