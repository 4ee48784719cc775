-- ===== src/Source/Transfer/Arrival.antt =====
-- A data source of src/io.rs from one process to another, on Unix.
use sandbox_ipc.Prelude.{
  arith, Option-cases, inl, inr, length, ℕ, ◌+◌, ◌*◌, ◌<◌, ◌≡◌, ◌∙◌, ap, subst, refl, some, List,
  [], ◌∷◌, ◌++◌, Option,
}
use sandbox_ipc.Prelude.Word.{usize_mod}
use sandbox_ipc.Prelude.Io.{ok}
use sandbox_ipc.Channel.Cmsg.{Cmsg}
use sandbox_ipc.Channel.Cmsg.Payload.{Sound}
use sandbox_ipc.Channel.Tokens.{Token, number}
use sandbox_ipc.Channel.Fds.{
  Libc, Locals, max_msg_fds, before_serialize, commit_serialize, before_deserialize,
}
use sandbox_ipc.Channel.Fds.Items.{put_file, get_file}
use sandbox_ipc.Channel.Fds.Runs.{serialize_all}
use sandbox_ipc.Channel.Fds.Sender.{Duplicates, Opens}
use sandbox_ipc.Channel.Fds.Receiver.{Usable}
use sandbox_ipc.Channel.Fds.Delivery.{Delivers, numbered, delivered}
use sandbox_ipc.Channel.Fds.Single.{put_fd-all, read_fd}
use sandbox_ipc.Shm.Map
use sandbox_ipc.Shm.Unix.{SharedMem}
use sandbox_ipc.Shm.Unix.Owners.{memory_fds}
use sandbox_ipc.Shm.Unix.Transfer.{serialize_token, deserialize_token}
use sandbox_ipc.Shm.Unix.Transfer.Shape.{shape, serialize_token-all}
use sandbox_ipc.Shm.Unix.Transfer.Arrival.{Same, memory_arrives}
use sandbox_ipc.Source.{SendableDataSource, file, memory, inline}
use sandbox_ipc.Source.Transfer.{
  Wire, serialize, deserialize, inline_arrives, serialize-file, serialize-memory, deserialize-file,
  deserialize-memory,
}

abbrev pub unix :
    {W V : Type 0} → Libc W → Libc V → (ℕ → V → V) → Wire (Locals W) (Locals V) SharedMem
unix libc libc' close = record {
  put_file = put_file libc;
  get_file = get_file libc';
  put_memory = serialize_token libc;
  get_memory = deserialize_token libc' close;
}

abbrev pub source_fds : SendableDataSource ℕ SharedMem → List ℕ
source_fds (file fd) = fd ∷ []
source_fds (memory mem) = memory_fds mem.inner
source_fds (inline bytes) = []

-- The source `got` stands for the same data as `sent` does, by the same open files.
abbrev pub SameSource :
    (files : List ℕ) (refers : ℕ → Option ℕ) (sent got : SendableDataSource ℕ SharedMem) → Type 0
SameSource files refers (file fd) (file fd') = Opens refers (fd' ∷ []) files
SameSource files refers (memory mem) (memory mem') = Same files refers mem mem'
SameSource files refers (inline bytes) (inline bytes') = bytes' ≡ bytes
SameSource files refers sent got = ⊥

some_fds : (mem : SharedMem) → 0 < length (memory_fds mem)
some_fds mem = elim (Option-cases mem.rw_fd) [
  | inl e ↦ ground (arith, e)
  | inr (fd, e) ↦ ground (arith, e)
]

module _ {W V : Type 0} {libc : Libc W} {refers : W → ℕ → Option ℕ} {libc' : Libc V}
    {refers' : V → ℕ → Option ℕ} (dups : Duplicates libc refers) (dups' : Duplicates libc' refers')
    (usable : (fd file : ℕ) (w : V) → refers' w fd ≡ some file → Usable libc' w fd)
    (close : ℕ → V → V) (cmsghdr_size : ℕ) where
  -- What `recvmsg` is asked to do with the message of a source.
  abbrev Delivered : SendableDataSource ℕ SharedMem → Cmsg → Cmsg → Locals W → Locals V → Type 0
  Delivered source c c' l r =
      let (saved, l₀) = before_serialize l in
      let l₁ = (serialize (unix libc libc' close) source l₀).1 in
      (m : Cmsg)
      → (commit_serialize cmsghdr_size saved c l₁).0 ≡ ok m
      → Delivers cmsghdr_size (refers l₁.world) (refers' r.world) m c'

  abbrev pub Obtained :
      SendableDataSource ℕ SharedMem → List ℕ → Cmsg → Locals W → Locals V → List Token → Type 0
  Obtained source files c' l r rest =
      let (saved, l₀) = before_serialize l in
      let r₀ = (before_deserialize cmsghdr_size c' r).1 in
      (tokens : List Token) × ((serialize (unix libc libc' close) source l₀).0 ≡ ok tokens)
      × (let (got, r₁) = deserialize (unix libc libc' close) (tokens ++ rest) r₀ in
          (source' : SendableDataSource ℕ SharedMem) × (got ≡ ok (source', rest))
          × SameSource files (refers' r₁.world) source source')

  file_case :
      (fd : ℕ) (files indices : List ℕ) (c c' : Cmsg) (l : Locals W) (r : Locals V)
      (rest : List Token)
      → cmsghdr_size + 24 + 4 * max_msg_fds < usize_mod
      → Sound cmsghdr_size c
      → c.fd_count ≡ max_msg_fds
      → Opens (refers l.world) (fd ∷ []) files
      → (serialize_all libc (fd ∷ []) (before_serialize l).1).0 ≡ ok indices
      → Delivered (file fd) c c' l r
      → Obtained (file fd) files c' l r rest
  file_case fd files indices c c' l r rest small sound room open_fds done delivery =
      let l₀ = (before_serialize l).1 in
      let wire = unix libc libc' close in
      let counted =
        numbered dups cmsghdr_size (fd ∷ []) files indices c l small sound room open_fds done in
      let put = put_fd-all libc fd indices l₀ done counted in
      let enc = serialize-file wire fd (number 0 ∷ []) l₀ (ap (λ p. p.0) put) in
      let state = ap (λ p. p.1) enc ∙ ap (λ p. p.1) put in
      let (kept, offers, opens) =
        delivered dups refers' cmsghdr_size (fd ∷ []) files indices c c' l r small sound room
          open_fds done
          (subst
            (λ (l₁ : Locals W).
              (m : Cmsg)
              → (commit_serialize cmsghdr_size (before_serialize l).0 c l₁).0 ≡ ok m
              → Delivers cmsghdr_size (refers l₁.world) (refers' r.world) m c')
            state delivery) in
      let (fd', read, opened) =
        read_fd dups' usable (refers l.world) fd _ files rest _ open_fds opens offers in
      let dec = deserialize-file wire fd' (number 0 ∷ rest) rest _ read in
      (
        number 0 ∷ number 0 ∷ [],
        ap (λ p. p.0) enc,
        (file fd', ap (λ p. p.0) dec, rw (ap (λ p. p.1) dec) opened),
      )

  memory_case :
      (mem : Map.SharedMem SharedMem) (files indices : List ℕ) (c c' : Cmsg) (l : Locals W)
      (r : Locals V) (rest : List Token)
      → cmsghdr_size + 24 + 4 * max_msg_fds < usize_mod
      → Sound cmsghdr_size c
      → c.fd_count ≡ max_msg_fds
      → Opens (refers l.world) (memory_fds mem.inner) files
      → (serialize_all libc (memory_fds mem.inner) (before_serialize l).1).0 ≡ ok indices
      → Delivered (memory mem) c c' l r
      → Obtained (memory mem) files c' l r rest
  memory_case mem files indices c c' l r rest small sound room open_fds done delivery =
      let l₀ = (before_serialize l).1 in
      let wire = unix libc libc' close in
      let counted =
        numbered dups cmsghdr_size (memory_fds mem.inner) files indices c l small sound room
          open_fds done in
      let put = serialize_token-all libc mem indices l₀ done counted in
      let state = ap (λ p. p.1) (serialize-memory wire mem (shape mem) l₀ (ap (λ p. p.0) put)) in
      let (tokens, encoded, kept, (mem', read, same)) =
        memory_arrives dups dups' usable close cmsghdr_size mem files indices c c' l r rest small
          sound room open_fds done
          (subst
            (λ (l₁ : Locals W).
              (m : Cmsg)
              → (commit_serialize cmsghdr_size (before_serialize l).0 c l₁).0 ≡ ok m
              → Delivers cmsghdr_size (refers l₁.world) (refers' r.world) m c')
            state delivery) in
      let dec = deserialize-memory wire mem' (tokens ++ rest) rest _ read in
      (
        number 1 ∷ tokens,
        ap (λ p. p.0) (serialize-memory wire mem tokens l₀ encoded),
        (memory mem', ap (λ p. p.0) dec, rw (ap (λ p. p.1) dec) same),
      )

  pub source_arrives :
      (source : SendableDataSource ℕ SharedMem) (files indices : List ℕ) (c c' : Cmsg)
      (l : Locals W) (r : Locals V) (rest : List Token)
      → cmsghdr_size + 24 + 4 * max_msg_fds < usize_mod
      → Sound cmsghdr_size c
      → c.fd_count ≡ max_msg_fds
      → Opens (refers l.world) (source_fds source) files
      → (serialize_all libc (source_fds source) (before_serialize l).1).0 ≡ ok indices
      → (0 < length (source_fds source)
          → let (saved, l₀) = before_serialize l in
            let l₁ = (serialize (unix libc libc' close) source l₀).1 in
            (m : Cmsg)
            → (commit_serialize cmsghdr_size saved c l₁).0 ≡ ok m
            → Delivers cmsghdr_size (refers l₁.world) (refers' r.world) m c')
      → Obtained source files c' l r rest
  source_arrives (file fd) files indices c c' l r rest small sound room open_fds done delivery =
      file_case fd files indices c c' l r rest small sound room open_fds done
        (delivery (omega arith))
  source_arrives (memory mem) files indices c c' l r rest small sound room open_fds done delivery =
      memory_case mem files indices c c' l r rest small sound room open_fds done
        (delivery (some_fds mem.inner))
  source_arrives (inline bytes) files indices c c' l r rest small sound room open_fds done
        delivery =
      let l₀ = (before_serialize l).1 in
      let r₀ = (before_deserialize cmsghdr_size c' r).1 in
      let (enc, dec) = inline_arrives (unix libc libc' close) bytes rest l₀ r₀ in
      (_, ap (λ p. p.0) enc, (inline bytes, ap (λ p. p.0) dec, refl))
