-- ===== src/Channel/Fds/Sender.antt =====
-- Sending file descriptors, of src/unix/mod.rs: what goes into the control message.
use Prim.Native.Nat.{bit_or}
use sandbox_ipc.Prelude.{
  append_nil, append_assoc, ℕ, zero, suc, ◌+◌, ◌≤◌, ◌<◌, ◌≡◌, false, List, [], ◌∷◌, ◌++◌, Option,
  some, arith, refl, sym, ap, take, set, length, length-set, ◌∙◌,
}
use sandbox_ipc.Prelude.Io.{ok}
use sandbox_ipc.Channel.Fds.Runs.{serialize_all, serialize_all_cons, from}
use sandbox_ipc.Channel.Fds.{
  Libc, is_negative, HandleSender, Locals, set_cloexec, send, serialize_fd,
}

-- What the calls document, with the open file that each file descriptor of a process refers to, if
-- it is open: `dup` makes another one for the same file, and no call closes any.
pub record Duplicates {W : Type 0} (libc : Libc W) (refers : W → ℕ → Option ℕ) : Type 0 where
  pub dup-new :
      (fd file : ℕ) (w : W)
      → refers w fd ≡ some file
      → is_negative (libc.dup fd w).0 ≡ false
      → refers (libc.dup fd w).1 (libc.dup fd w).0 ≡ some file
  pub dup-keeps :
      (fd x file : ℕ) (w : W) → refers w x ≡ some file → refers (libc.dup fd w).1 x ≡ some file
  pub get-keeps : (fd x : ℕ) (w : W) → refers (libc.get_flags fd w).1 x ≡ refers w x
  pub set-keeps : (fd flags x : ℕ) (w : W) → refers (libc.set_flags fd flags w).1 x ≡ refers w x

-- File descriptors that are open, and the files that they refer to.
pub data Opens (refers : ℕ → Option ℕ) : List ℕ → List ℕ → Type 0 where
  all : Opens refers [] []
  one :
      {fd file : ℕ} {fds files : List ℕ}
      → refers fd ≡ some file
      → Opens refers fds files
      → Opens refers (fd ∷ fds) (file ∷ files)

Opens-keeps :
    {before after : ℕ → Option ℕ}
    → ((x file : ℕ) → before x ≡ some file → after x ≡ some file)
    → {fds files : List ℕ} → Opens before fds files
    → Opens after fds files
Opens-keeps keeps all = all
Opens-keeps keeps (one {fd} {file} e rest) = one (keeps fd file e) (Opens-keeps keeps rest)

Opens-snoc :
    {refers : ℕ → Option ℕ} {fds files : List ℕ} (fd file : ℕ)
    → Opens refers fds files
    → refers fd ≡ some file
    → Opens refers (fds ++ (fd ∷ [])) (files ++ (file ∷ []))
Opens-snoc fd file all e = one e all
Opens-snoc fd file (one e' rest) e = one e' (Opens-snoc fd file rest e)

take-set :
    (xs : List ℕ) (i v : ℕ) → i < length xs → take (suc i) (set xs i v) ≡ take i xs ++ (v ∷ [])
take-set [] i v h = absurd (omega arith)
take-set (x ∷ xs) zero v h = refl
take-set (x ∷ xs) (suc i) v h = cc (take-set xs i v (omega arith))

module _ {W : Type 0} {libc : Libc W} {refers : W → ℕ → Option ℕ}
    (dups : Duplicates libc refers) where
  pub cloexec-keeps : (fd x : ℕ) (w : W) → refers (set_cloexec libc fd w).1 x ≡ refers w x
  unfolding set_cloexec
  cloexec-keeps fd x w =
      dups.set-keeps fd (bit_or (libc.get_flags fd w).0 1) x (libc.get_flags fd w).1
      ∙ dups.get-keeps fd x w

  send-keeps :
      (fd x file : ℕ) (s : HandleSender) (w : W)
      → refers w x ≡ some file
      → refers (send libc fd (s, w)).1.1 x ≡ some file
  unfolding send
  send-keeps fd x file s w e =
      ground
        (arith, dups.dup-keeps fd x file w e, cloexec-keeps (libc.dup fd w).0 x (libc.dup fd w).1)

  -- What a send that succeeds does.
  record Sent (fd file : ℕ) (s : HandleSender) (w : W) (index : ℕ) (s' : HandleSender)
      : Type 0 where
    at_index : index ≡ s.index
    within : s.index < length s.fds
    next : s'.index ≡ suc s.index
    stored : s'.fds ≡ set s.fds s.index (libc.dup fd w).0
    opened : refers (send libc fd (s, w)).1.1 (libc.dup fd w).0 ≡ some file

  send-Sent :
      (fd file : ℕ) (s : HandleSender) (w : W) (index : ℕ)
      → refers w fd ≡ some file
      → (send libc fd (s, w)).0 ≡ ok index
      → Sent fd file s w index (send libc fd (s, w)).1.0
  unfolding send
  send-Sent fd file s w index open_fd e = ground (
    arith,
    dups.dup-new fd file w open_fd,
    cloexec-keeps (libc.dup fd w).0 (libc.dup fd w).0 (libc.dup fd w).1,
  )

  serialize_fd_lem :
      (fd index : ℕ) (s : HandleSender) (l : Locals W)
      → l.sender ≡ some s
      → (serialize_fd libc fd l).0 ≡ ok index
      → ((send libc fd (s, l.world)).0 ≡ ok index)
        × ((serialize_fd libc fd l).1.sender ≡ some (send libc fd (s, l.world)).1.0)
        × ((serialize_fd libc fd l).1.world ≡ (send libc fd (s, l.world)).1.1)
  unfolding serialize_fd
  serialize_fd_lem fd index s l e done = ground (arith, e)

  -- What a run of encodings that succeeds leaves behind.
  pub record Ready (s : HandleSender) (count : ℕ) (files : List ℕ) (l : Locals W)
      (s' : HandleSender) : Type 0 where
    pub holds : l.sender ≡ some s'
    pub length_kept : length s'.fds ≡ length s.fds
    pub counted : s'.index ≡ s.index + count
    pub within : s'.index ≤ length s'.fds
    pub opened : Opens (refers l.world) (take s'.index s'.fds) files

  pub serialize_all_lem :
      (fds files held : List ℕ) (s : HandleSender) (l : Locals W) (indices : List ℕ)
      → l.sender ≡ some s
      → s.index ≤ length s.fds
      → Opens (refers l.world) fds files
      → Opens (refers l.world) (take s.index s.fds) held
      → (serialize_all libc fds l).0 ≡ ok indices
      → (s' : HandleSender) × (indices ≡ from s.index (length fds))
        × Ready s (length fds) (held ++ files) (serialize_all libc fds l).1 s'
  unfolding serialize_all
  serialize_all_lem [] files held s l indices e room all before done = (
    s,
    ground (arith, done),
    record {
      holds = e;
      length_kept = refl;
      counted = omega arith;
      within = room;
      opened = rw (append_nil held) before;
    },
  )
  serialize_all_lem (fd ∷ fds) files held s l indices e room
        (one {file} {files = rest_files} open_fd opens) before done =
      let (index, rest, split, one_done, rest_done, same) =
        serialize_all_cons libc fd fds l indices done in
      let l' = (serialize_fd libc fd l).1 in
      let (fine, held', world') = serialize_fd_lem fd index s l e one_done in
      let s' = (send libc fd (s, l.world)).1.0 in
      let new = (libc.dup fd l.world).0 in
      let sent = send-Sent fd file s l.world index open_fd fine in
      let keeps : (x g : ℕ) → refers l.world x ≡ some g → refers l'.world x ≡ some g =
        λ x g open_x. rw world' (send-keeps fd x g s l.world open_x) in
      let size : length s'.fds ≡ length s.fds =
        ap length sent.stored ∙ length-set s.fds s.index new in
      let opened' : Opens (refers l'.world) (take s'.index s'.fds) (held ++ (file ∷ [])) =
        rw (sent.next, sent.stored, take-set s.fds s.index new sent.within)
          (Opens-snoc new file (Opens-keeps keeps before) (rw world' sent.opened)) in
      let (s'', indices', ready') =
        serialize_all_lem fds rest_files (held ++ (file ∷ [])) s' l' rest held'
          (omega (arith, size, sent.next, sent.within)) (Opens-keeps keeps opens) opened'
          rest_done in
      (
        s'',
        cc (split, indices', sent.at_index, sent.next),
        rw same (record {
          holds = ready'.holds;
          length_kept = ready'.length_kept ∙ size;
          counted = omega (arith, ready'.counted, sent.next);
          within = ready'.within;
          opened = rw (sym (append_assoc held (file ∷ []) rest_files)) ready'.opened;
        }),
      )
