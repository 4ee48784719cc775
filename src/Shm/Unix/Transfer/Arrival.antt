-- ===== src/Shm/Unix/Transfer/Arrival.antt =====
-- A memory of src/unix/sharedmem.rs that one process sends and another receives.
use sandbox_ipc.Prelude.{
  ℕ, ◌+◌, ◌*◌, ◌<◌, ◌≡◌, ◌∙◌, subst, refl, List, [], ◌∷◌, ◌++◌, Option, none, some, arith, length,
}
use sandbox_ipc.Prelude.Word.{usize_mod}
use sandbox_ipc.Prelude.Io.{Result, ok}
use sandbox_ipc.Channel.Cmsg.{Cmsg}
use sandbox_ipc.Channel.Cmsg.Payload.{Sound}
use sandbox_ipc.Channel.Tokens.{Token, number, next_number}
use sandbox_ipc.Channel.Fds.{
  Libc, Locals, max_msg_fds, before_serialize, commit_serialize, before_deserialize,
}
use sandbox_ipc.Channel.Fds.Items.{get_fd, get_option}
use sandbox_ipc.Channel.Fds.Runs.{serialize_all}
use sandbox_ipc.Channel.Fds.Sender.{Duplicates, Opens, all, one}
use sandbox_ipc.Channel.Fds.Receiver.{Usable}
use sandbox_ipc.Channel.Fds.Reading.{Offers, get_fd-Offers, get_fd-keeps}
use sandbox_ipc.Channel.Fds.Delivery.{Delivers, numbered, delivered}
use sandbox_ipc.Shm.Unix.{SharedMem}
use sandbox_ipc.Shm.Unix.Owners.{memory_fds}
use sandbox_ipc.Shm.Unix.Transfer.{deserialize_token, serialize_token}
use sandbox_ipc.Shm.Unix.Transfer.Shape.{shape, serialize_token-all}
use sandbox_ipc.Shm.Map

-- The memory `got` stands for the same files as `sent` does, with the same rights.
pub record Same (files : List ℕ) (refers : ℕ → Option ℕ) (sent got : Map.SharedMem SharedMem)
    : Type 0 where
  pub size : got.inner.size ≡ sent.inner.size
  pub token : got.token ≡ sent.token
  pub fds : length (memory_fds got.inner) ≡ length (memory_fds sent.inner)
  pub opened : Opens refers (memory_fds got.inner) files

module _ {V : Type 0} {libc : Libc V} {refers : V → ℕ → Option ℕ} (dups : Duplicates libc refers)
    (usable : (fd file : ℕ) (w : V) → refers w fd ≡ some file → Usable libc w fd)
    (close : ℕ → V → V) where
  read_one :
      (fd fd' file size token : ℕ) (fds : List ℕ) (rest : List Token) (l : Locals V)
      → Offers (fd' ∷ fds) l
      → refers l.world fd' ≡ some file
      → let mem : Map.SharedMem SharedMem = record {
        inner = record { rw_fd = none; ro_fd = fd; size = size };
        token = token;
      } in
        let mem' : Map.SharedMem SharedMem = record {
          inner = record { rw_fd = none; ro_fd = fd'; size = size };
          token = token;
        } in
        let (got, l') = deserialize_token libc close (shape mem ++ rest) l in
        (got ≡ ok (mem', rest)) × Same (file ∷ []) (refers l'.world) mem mem'
  unfolding deserialize_token get_option next_number
  read_one fd fd' file size token fds rest l offers open_fd =
      let after = number size ∷ number token ∷ rest in
      let (e, offers') =
        get_fd-Offers libc (fd' ∷ fds) 0 fd' after l offers refl
          (usable fd' file l.world open_fd) in
      let keeps = get_fd-keeps dups fd' (number 0 ∷ after) l in
      (
        ground (arith, e),
        record {
          size = refl;
          token = refl;
          fds = refl;
          opened = one (ground (arith, e, keeps, open_fd)) all;
        },
      )

  read_two :
      (rw ro rw' ro' file file' size token : ℕ) (fds : List ℕ) (rest : List Token) (l : Locals V)
      → Offers (rw' ∷ ro' ∷ fds) l
      → refers l.world rw' ≡ some file
      → refers l.world ro' ≡ some file'
      → let mem : Map.SharedMem SharedMem = record {
        inner = record { rw_fd = some rw; ro_fd = ro; size = size };
        token = token;
      } in
        let mem' : Map.SharedMem SharedMem = record {
          inner = record { rw_fd = some rw'; ro_fd = ro'; size = size };
          token = token;
        } in
        let (got, l') = deserialize_token libc close (shape mem ++ rest) l in
        (got ≡ ok (mem', rest)) × Same (file ∷ file' ∷ []) (refers l'.world) mem mem'
  unfolding deserialize_token get_option next_number
  read_two rw ro rw' ro' file file' size token fds rest l offers open_rw open_ro =
      let last = number size ∷ number token ∷ rest in
      let after = number 1 ∷ last in
      let (e, offers') =
        get_fd-Offers libc (rw' ∷ ro' ∷ fds) 0 rw' after l offers refl
          (usable rw' file l.world open_rw) in
      let l₁ = (get_fd libc (number 0 ∷ after) l).1 in
      let (e', offers'') =
        get_fd-Offers libc (rw' ∷ ro' ∷ fds) 1 ro' last l₁ offers' refl
          (usable ro' file' l₁.world (get_fd-keeps dups ro' (number 0 ∷ after) l ∙ open_ro)) in
      let keeps =
        λ (x : ℕ). get_fd-keeps dups x after l₁ ∙ get_fd-keeps dups x (number 0 ∷ after) l in
      (
        ground (arith, e, e'),
        record {
          size = refl;
          token = refl;
          fds = refl;
          opened =
              one (ground (arith, e, e', keeps rw', open_rw))
                (one (ground (arith, e, e', keeps ro', open_ro)) all);
        },
      )

  -- What the receiver reads of the data of a memory, when it is offered file descriptors for the same
  -- files.
  read_by_fields :
      (before : ℕ → Option ℕ) (rw_fd : Option ℕ) (ro_fd size token : ℕ) (fds files : List ℕ)
      (rest : List Token) (l : Locals V)
      → let mem : Map.SharedMem SharedMem = record {
        inner = record { rw_fd = rw_fd; ro_fd = ro_fd; size = size };
        token = token;
      } in
        Opens before (memory_fds mem.inner) files
        → Opens (refers l.world) fds files
        → Offers fds l
        → let (got, l') = deserialize_token libc close (shape mem ++ rest) l in
          (mem' : Map.SharedMem SharedMem) × (got ≡ ok (mem', rest))
          × Same files (refers l'.world) mem mem'
  read_by_fields before none ro_fd size token fds files rest l (one {file} e all) (one {fd} e' all)
        offers =
      let (read, same) = read_one ro_fd fd file size token [] rest l offers e' in (_, read, same)
  read_by_fields before (some rw_fd) ro_fd size token fds files rest l
        (one {file} e (one {file = file'} e₁ all)) (one {fd} e' (one {fd = fd'} e₁' all)) offers =
      let (read, same) =
        read_two rw_fd ro_fd fd fd' file file' size token [] rest l offers e' e₁' in
      (_, read, same)

module _ {W V : Type 0} {libc : Libc W} {refers : W → ℕ → Option ℕ} {libc' : Libc V}
    {refers' : V → ℕ → Option ℕ} (dups : Duplicates libc refers) (dups' : Duplicates libc' refers')
    (usable : (fd file : ℕ) (w : V) → refers' w fd ≡ some file → Usable libc' w fd)
    (close : ℕ → V → V) where
  -- Shared memory arrives: a memory whose file descriptors are open, sent in a message, is encoded,
  -- and what the receiver decodes is a memory of the same size and token with as many file
  -- descriptors, open and for the same files in the same order, while what follows in the message is
  -- left over and the sender's variable is as it was before; if the file descriptors can be encoded, the
  -- receiver can read and set the flags of those that it has open,
  -- the control message of the sender is sound and has room for 32 file descriptors, and the one that
  -- the receiver gets has what the documentation of `recvmsg` says.
  pub memory_arrives :
      (cmsghdr_size : ℕ) (mem : Map.SharedMem SharedMem) (files indices : List ℕ) (c c' : Cmsg)
      (l : Locals W) (r : Locals V) (rest : List Token)
      → cmsghdr_size + 24 + 4 * max_msg_fds < usize_mod
      → Sound cmsghdr_size c
      → c.fd_count ≡ max_msg_fds
      → Opens (refers l.world) (memory_fds mem.inner) files
      → (serialize_all libc (memory_fds mem.inner) (before_serialize l).1).0 ≡ ok indices
      → (let (saved, l₀) = before_serialize l in
          let l₁ = (serialize_token libc mem l₀).1 in
          (m : Cmsg)
          → (commit_serialize cmsghdr_size saved c l₁).0 ≡ ok m
          → Delivers cmsghdr_size (refers l₁.world) (refers' r.world) m c')
      → let (saved, l₀) = before_serialize l in
        let (encoded, l₁) = serialize_token libc mem l₀ in
        let (sent, l₂) = commit_serialize cmsghdr_size saved c l₁ in
        let r₀ = (before_deserialize cmsghdr_size c' r).1 in
        (tokens : List Token) × (encoded ≡ ok tokens)
        × (l₂.sender ≡ l.sender)
        × (let (got, r₁) = deserialize_token libc' close (tokens ++ rest) r₀ in
            (mem' : Map.SharedMem SharedMem) × (got ≡ ok (mem', rest))
            × Same files (refers' r₁.world) mem mem')
  memory_arrives cmsghdr_size mem files indices c c' l r rest small sound room open_fds done
        delivery =
      let fds = memory_fds mem.inner in
      let counted =
        numbered dups cmsghdr_size fds files indices c l small sound room open_fds done in
      let enc = serialize_token-all libc mem indices (before_serialize l).1 done counted in
      let (kept, offers, opens) =
        delivered dups refers' cmsghdr_size fds files indices c c' l r small sound room open_fds
          done
          (subst
            (λ (p : Result (List Token) × Locals W).
              (m : Cmsg)
              → (commit_serialize cmsghdr_size (before_serialize l).0 c p.1).0 ≡ ok m
              → Delivers cmsghdr_size (refers p.1.world) (refers' r.world) m c')
            enc delivery) in
      let (mem', read, same) =
        read_by_fields dups' usable close (refers l.world) mem.inner.rw_fd mem.inner.ro_fd
          mem.inner.size mem.token _ files rest _ open_fds opens offers in
      (shape mem, rw enc refl, rw enc kept, (mem', read, same))
