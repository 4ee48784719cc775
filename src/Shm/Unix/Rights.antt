-- ===== src/Shm/Unix/Rights.antt =====
-- Memories that processes derive from one another by `clone_with_access` of src/shm/mod.rs and by sending
-- them in messages, over src/unix/sharedmem.rs.
use sandbox_ipc.Prelude.{
  ℕ, ◌≡◌, ◌∙◌, ◌⊎◌, refl, List, [], ◌∷◌, ◌++◌, Option, none, some, arith, inl, inr, Option-cases,
}
use sandbox_ipc.Prelude.Io.{ok, err, panic, ErrorKind, Result-cases}
use sandbox_ipc.Channel.Owned.{Files}
use sandbox_ipc.Channel.Tokens.{Token, number, is_some, is_none, next_number}
use sandbox_ipc.Channel.Fds.{Libc, Locals, serialize_fd, deserialize_fd}
use sandbox_ipc.Channel.Fds.Items.{put_fd, put_option, get_fd, get_option}
use sandbox_ipc.Shm.Range.{Access, read, read_write, Range}
use sandbox_ipc.Shm.Unix
use sandbox_ipc.Shm.Unix.{SharedMem, Mmap, choose_fd}
use sandbox_ipc.Shm.Unix.Created.{Linked, Calls, clone}
use sandbox_ipc.Shm.Unix.Transfer.{serialize_token, deserialize_token}
use sandbox_ipc.Shm.Map
use sandbox_ipc.Shm.Memory.{clone_with_access, unix}

abbrev pub Memory : Type 0
Memory = Map.SharedMem SharedMem

-- What one process does to have a memory `mem'` from a memory `mem` of its own or of another one:
-- `cloned` is a clone, `received` an encoding and its decoding by any receiver, whatever the file
-- descriptors that come with the message.
pub data Derived {W V : Type 0} (calls : Calls V) (libc : Libc W) (close : ℕ → W → W) (mem : Memory)
    : Memory → Type 0 where
  same : Derived calls libc close mem mem
  cloned :
      {mem' : Memory} (access : Access) (s : Files (Linked V)) (mem'' : Memory)
      → Derived calls libc close mem mem'
      → (clone_with_access (unix calls) mem' access s).0 ≡ ok mem''
      → Derived calls libc close mem mem''
  received :
      {mem' : Memory} (l r : Locals W) (tokens rest rest' : List Token) (mem'' : Memory)
      → Derived calls libc close mem mem'
      → (serialize_token libc mem' l).0 ≡ ok tokens
      → (deserialize_token libc close (tokens ++ rest) r).0 ≡ ok (mem'', rest')
      → Derived calls libc close mem mem''

abbrev shape_at : Memory → (i j : ℕ) → List Token
shape_at mem i j = elim mem.inner.rw_fd [
  | none ↦ is_none ∷ number i ∷ number mem.inner.size ∷ number mem.token ∷ []
  | some fd ↦ is_some ∷ number i ∷ number j ∷ number mem.inner.size ∷ number mem.token ∷ []
]

encoded :
    {W : Type 0} (libc : Libc W) (rw_fd : Option ℕ) (ro_fd size token : ℕ) (l : Locals W)
    (tokens : List Token)
    → let mem : Memory = record {
      inner = record { rw_fd = rw_fd; ro_fd = ro_fd; size = size };
      token = token;
    } in
      (serialize_token libc mem l).0 ≡ ok tokens → (i j : ℕ) × (tokens ≡ shape_at mem i j)
unfolding serialize_token put_fd put_option
encoded libc none ro_fd size token l tokens e = elim (Result-cases (serialize_fd libc ro_fd l).0) [
  | inl (i, e') ↦ (i, 0, ground (arith, e, e'))
  | inr (inl (kind, e')) ↦ absurd (ground (arith, e, e'))
  | inr (inr e') ↦ absurd (ground (arith, e, e'))
]
encoded libc (some rw_fd) ro_fd size token l tokens e =
    elim (Result-cases (serialize_fd libc rw_fd l).0) [
      | inl (i, e') ↦
          elim (Result-cases (serialize_fd libc ro_fd (serialize_fd libc rw_fd l).1).0) [
            | inl (j, e'') ↦ (i, j, ground (arith, e, e', e''))
            | inr (inl (kind, e'')) ↦ absurd (ground (arith, e, e', e''))
            | inr (inr e'') ↦ absurd (ground (arith, e, e', e''))
          ]
      | inr (inl (kind, e')) ↦ absurd (ground (arith, e, e'))
      | inr (inr e') ↦ absurd (ground (arith, e, e'))
    ]

-- `mem'` has the size and the token of `mem`, and no file descriptor for writing if `mem` has none.
record Within (mem mem' : Memory) : Type 0 where
  size : mem'.inner.size ≡ mem.inner.size
  token : mem'.token ≡ mem.token
  read_only : mem.inner.rw_fd ≡ none → mem'.inner.rw_fd ≡ none

get_fd-cases :
    {W : Type 0} (libc : Libc W) (i : ℕ) (rest : List Token) (r : Locals W)
    → let got = (get_fd libc (number i ∷ rest) r).0 in
      ((fd : ℕ) × (got ≡ ok (fd, rest))) ⊎ (((kind : ErrorKind) × (got ≡ err kind)) ⊎ (got ≡ panic))
unfolding get_fd next_number
get_fd-cases libc i rest r = elim (Option-cases r.receiver) [
  | inl e ↦ inr (inl (ErrorKind.custom, ground (arith, e)))
  | inr (receiver, e) ↦ elim (Result-cases (deserialize_fd libc i r).0) [
    | inl (fd, e') ↦ inl (fd, ground (arith, e, e'))
    | inr (inl (kind, e')) ↦ inr (inl (kind, ground (arith, e, e')))
    | inr (inr e') ↦ inr (inr (ground (arith, e, e')))
  ]
]

decoded :
    {W : Type 0} (libc : Libc W) (close : ℕ → W → W) (rw_fd : Option ℕ) (ro_fd size token i j : ℕ)
    (r : Locals W) (rest rest' : List Token) (mem' : Memory)
    → let mem : Memory = record {
      inner = record { rw_fd = rw_fd; ro_fd = ro_fd; size = size };
      token = token;
    } in
      (deserialize_token libc close (shape_at mem i j ++ rest) r).0 ≡ ok (mem', rest')
      → Within mem mem'
unfolding deserialize_token get_option next_number
decoded libc close none ro_fd size token i j r rest rest' mem' e =
    elim (get_fd-cases libc i (number size ∷ number token ∷ rest) r) [
      | inl (fd, e') ↦ record {
        size = ground (arith, e, e');
        token = ground (arith, e, e');
        read_only = λ none_before. ground (arith, e, e');
      }
      | inr (inl (kind, e')) ↦ absurd (ground (arith, e, e'))
      | inr (inr e') ↦ absurd (ground (arith, e, e'))
    ]
decoded libc close (some rw_fd) ro_fd size token i j r rest rest' mem' e =
    let last = number size ∷ number token ∷ rest in
    elim (get_fd-cases libc i (number j ∷ last) r) [
      | inl (fd, e') ↦
          elim (get_fd-cases libc j last (get_fd libc (number i ∷ number j ∷ last) r).1) [
            | inl (fd', e'') ↦ record {
              size = ground (arith, e, e', e'');
              token = ground (arith, e, e', e'');
              read_only = λ none_before. absurd (cc (none_before));
            }
            | inr (inl (kind, e'')) ↦ absurd (ground (arith, e, e', e''))
            | inr (inr e'') ↦ absurd (ground (arith, e, e', e''))
          ]
      | inr (inl (kind, e')) ↦ absurd (ground (arith, e, e'))
      | inr (inr e') ↦ absurd (ground (arith, e, e'))
    ]

cloned-Within :
    {V : Type 0} (calls : Calls V) (mem : Memory) (access : Access) (s : Files (Linked V))
    (mem' : Memory)
    → (clone_with_access (unix calls) mem access s).0 ≡ ok mem'
    → Within mem mem'
unfolding clone_with_access clone
cloned-Within calls mem read s mem' e =
    elim (Option-cases (calls.dup mem.inner.ro_fd s.world.process).0) [
      | inl e' ↦ absurd (ground (arith, e, e'))
      | inr (fd, e') ↦ record {
        size = ground (arith, e, e');
        token = ground (arith, e, e');
        read_only = λ none_before. ground (arith, e, e');
      }
    ]
cloned-Within calls mem read_write s mem' e = record {
  size = ground (arith, e);
  token = ground (arith, e);
  read_only = λ none_before. absurd (ground (arith, e, none_before));
}

step : {a b c : Memory} → Within a b → Within b c → Within a c
step p q = record {
  size = q.size ∙ p.size;
  token = q.token ∙ p.token;
  read_only = λ none_before. q.read_only (p.read_only none_before);
}

module _ {W V : Type 0} {calls : Calls V} {libc : Libc W} {close : ℕ → W → W} where
  derived-Within : {mem mem' : Memory} → Derived calls libc close mem mem' → Within mem mem'
  derived-Within same = record { size = refl; token = refl; read_only = λ e. e }
  derived-Within (cloned {mem'} access s mem'' d e) =
      step (derived-Within d) (cloned-Within calls mem' access s mem'' e)
  derived-Within (received {mem'} l r tokens rest rest' mem'' d sent got) =
      let (i, j, shaped) =
        encoded libc mem'.inner.rw_fd mem'.inner.ro_fd mem'.inner.size mem'.token l tokens sent in
      step (derived-Within d) (
        decoded libc close mem'.inner.rw_fd mem'.inner.ro_fd mem'.inner.size mem'.token i j r rest
          rest' mem'' (rw (← shaped) got))

  -- A memory that can only be read stays so: whatever is derived from it by clones, and by sending it
  -- from process to process, has its size and its token, cannot be mapped for writing, and cannot be
  -- cloned for writing; either attempt is an error for lack of permission.
  pub read_only_stays :
      {mem mem' : Memory}
      → Derived calls libc close mem mem'
      → (page_size : ℕ) (mmap : Mmap) (range : Range) (s : Files (Linked V))
      → mem.inner.rw_fd ≡ none
      → (mem'.inner.size ≡ mem.inner.size)
        × (mem'.token ≡ mem.token)
        × (Map.map (Map.unix page_size mmap) mem' range read_write
            ≡ err ErrorKind.permission_denied)
        × ((clone_with_access (unix calls) mem' read_write s).0 ≡ err ErrorKind.permission_denied)
  unfolding Map.map Unix.map choose_fd clone_with_access clone
  read_only_stays d page_size mmap range s none_before =
      let within = derived-Within d in
      let nothing = within.read_only none_before in
      (within.size, within.token, ground (arith, nothing), ground (arith, nothing))
