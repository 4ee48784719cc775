-- ===== src/Channel/Pipes/Child.antt =====
-- What a child of src/windows/channel.rs is told: a `ChildMessageChannel` as data, and the handles
-- that the child must inherit.
use sandbox_ipc.Prelude.{
  ℕ, suc, zero, ◌+◌, ◌≡◌, Bool, true, ◌&&◌, List, [], ◌∷◌, ◌++◌, Option, none, some, ◌==◌,
  if◌then◌else◌, arith, Bool-cases, Option-cases, inl, inr,
}
use sandbox_ipc.Prelude.Io.{Result, ok, err, ErrorKind, ◌>>=◌, ◌>>◌, ensure}
use sandbox_ipc.Channel.Tokens.{Token, number, is_some, is_none, next_number}
use sandbox_ipc.Channel.Pipes.{ChildMessageChannel}

unfoldable pub serialize_opt : Option ℕ → List Token
serialize_opt none = is_none ∷ []
serialize_opt (some handle) = is_some ∷ number handle ∷ []

unfoldable pub serialize : ChildMessageChannel → List Token
unfolding serialize_opt
serialize child =
    number child.channel_handle
    ∷ (serialize_opt child.remote_process_handle ++ (number child.remote_process_id ∷ []))

-- `is_handle` is `WinHandle::from_raw`, which refuses what cannot be a handle.
module _ (is_handle : ℕ → Bool) where
  unfoldable pub deserialize_handle : List Token → Result (ℕ × List Token)
  unfolding next_number
  deserialize_handle tokens = do
    (handle, rest) ← next_number tokens
    ensure (is_handle handle) ErrorKind.custom
    ok (handle, rest)

  unfoldable pub deserialize_opt : List Token → Result (Option ℕ × List Token)
  unfolding deserialize_handle
  deserialize_opt (is_some ∷ tokens) = do
    (handle, rest) ← deserialize_handle tokens
    ok (some handle, rest)
  deserialize_opt (is_none ∷ tokens) = ok (none, tokens)
  deserialize_opt tokens = err ErrorKind.custom

  unfoldable pub deserialize : List Token → Result (ChildMessageChannel × List Token)
  unfolding deserialize_handle deserialize_opt
  deserialize tokens = do
    (channel_handle, rest) ← deserialize_handle tokens
    (remote_process_handle, rest') ← deserialize_opt rest
    (remote_process_id, rest'') ← next_number rest'
    ok (
      record {
        channel_handle = channel_handle;
        remote_process_handle = remote_process_handle;
        remote_process_id = remote_process_id;
      },
      rest'',
    )

  abbrev pub valid_opt : Option ℕ → Bool
  valid_opt none = true
  valid_opt (some handle) = is_handle handle

  -- Whether `WinHandle` takes each handle for one.
  abbrev pub valid : ChildMessageChannel → Bool
  valid child = is_handle child.channel_handle && valid_opt child.remote_process_handle

  deserialize-serialize :
      (child : ChildMessageChannel) (rest : List Token)
      → deserialize (serialize child ++ rest)
        ≡ (if valid child then ok (child, rest) else err ErrorKind.custom)
  unfolding deserialize serialize
  deserialize-serialize child rest = elim (Bool-cases (is_handle child.channel_handle)) [
    | inl good ↦ elim (Option-cases child.remote_process_handle) [
      | inl e ↦ ground (arith, good, e)
      | inr (h, e) ↦ elim (Bool-cases (is_handle h)) [
        | inl good' ↦ ground (arith, good, good', e)
        | inr bad ↦ ground (arith, good, bad, e)
      ]
    ]
    | inr bad ↦ ground (arith, bad)
  ]

-- `ChildMessageChannelHandles`
pub record ChildMessageChannelHandles : Type 0 where
  pub channel_handle : ChildMessageChannel
  pub index : ℕ

abbrev pub handles : ChildMessageChannel → ChildMessageChannelHandles
handles child = record { channel_handle = child; index = 0 }

unfoldable pub next : ChildMessageChannelHandles → Option ℕ × ChildMessageChannelHandles
next h =
    if h.index == 0
    then (some h.channel_handle.channel_handle, record h { index = h.index + 1 })
    else (if h.index == 1
        then (h.channel_handle.remote_process_handle, record h { index = h.index + 1 })
        else (none, h))

-- The items of the iterator up to the first `None`, and what the iterator then is; of at most `fuel`
-- calls of `next`.
unfoldable pub collect :
    (fuel : ℕ) → ChildMessageChannelHandles → Option (List ℕ × ChildMessageChannelHandles)
collect zero h = none
collect (suc fuel) h =
    let (item, h') = next h in
    elim item [
      | none ↦ some ([], h')
      | some handle ↦ elim (collect fuel h') [
        | none ↦ none
        | some (items, last) ↦ some (handle ∷ items, last)
      ]
    ]

abbrev pub option_list : Option ℕ → List ℕ
option_list none = []
option_list (some handle) = handle ∷ []

handles_collect :
    (child : ChildMessageChannel) (fuel : ℕ)
    → (last : ChildMessageChannelHandles) × (collect (suc (suc (suc fuel))) (handles child)
        ≡ some (child.channel_handle ∷ option_list child.remote_process_handle, last))
      × (next last ≡ (none, last))
unfolding collect next
handles_collect child fuel = elim (Option-cases child.remote_process_handle) [
  | inl e ↦ (record { channel_handle = child; index = 2 }, ground (arith, e), ground arith)
  | inr (h, e) ↦ (record { channel_handle = child; index = 2 }, ground (arith, e), ground arith)
]

-- A child is told what it needs: what a process sends to its child is what the child reads, with
-- what follows left over, if `WinHandle` takes each handle in it for one, and an error if not; and
-- the iterator over the handles that the child must inherit gives just these, the pipe and the
-- process handle if there is one, in three calls of `next` at most, and `None` for ever after.
pub child_told :
    (is_handle : ℕ → Bool) (child : ChildMessageChannel) (rest : List Token) (fuel : ℕ)
    → (deserialize is_handle (serialize child ++ rest)
        ≡ (if valid is_handle child then ok (child, rest) else err ErrorKind.custom))
      × (last : ChildMessageChannelHandles) × (collect (suc (suc (suc fuel))) (handles child)
          ≡ some (child.channel_handle ∷ option_list child.remote_process_handle, last))
      × (next last ≡ (none, last))
child_told is_handle child rest fuel =
    let (last, collected, fused) = handles_collect child fuel in
    (deserialize-serialize is_handle child rest, last, collected, fused)
