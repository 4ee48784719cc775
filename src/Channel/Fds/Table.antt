-- ===== src/Channel/Fds/Table.antt =====
-- A process whose file descriptors are the places of a list: calls that src/unix/mod.rs makes, with the
-- behaviour that they document.
use sandbox_ipc.Prelude.{
  ℕ, zero, suc, ◌≡◌, List, [], ◌∷◌, ◌++◌, none, some, arith, refl, get_elem?, length, inl, inr,
  Option, Option-cases,
}
use sandbox_ipc.Prelude.Io.{ok}
use sandbox_ipc.Channel.Cmsg
use sandbox_ipc.Channel.Cmsg.{Cmsg}
use sandbox_ipc.Channel.Fds.{
  Libc, Locals, max_msg_fds, minus_one, set_cloexec, send, serialize_fd, before_serialize,
}
use sandbox_ipc.Channel.Fds.Runs.{serialize_all}
use sandbox_ipc.Channel.Fds.Sender.{Duplicates, Opens, all, one}
use sandbox_ipc.Channel.Fds.Receiver.{Usable}

-- The place of each file descriptor holds the file that it refers to.
abbrev dup : ℕ → List ℕ → ℕ × List ℕ
dup fd w = elim (get_elem? w fd) [
  | none ↦ (minus_one, w)
  | some file ↦ (length w, w ++ (file ∷ []))
]

abbrev get_flags : ℕ → List ℕ → ℕ × List ℕ
get_flags fd w = elim (get_elem? w fd) [ none ↦ (minus_one, w) | some file ↦ (0, w) ]

abbrev pub table : Libc (List ℕ)
table = record { dup = dup; get_flags = get_flags; set_flags = λ fd flags w. (0, w) }

snoc_last : (w : List ℕ) (file : ℕ) → get_elem? (w ++ (file ∷ [])) (length w) ≡ some file
snoc_last [] file = refl
snoc_last (x ∷ w) file = snoc_last w file

snoc_keeps :
    (w : List ℕ) (file x g : ℕ) → get_elem? w x ≡ some g → get_elem? (w ++ (file ∷ [])) x ≡ some g
snoc_keeps [] file x g e = cc
snoc_keeps (y ∷ w) file zero g e = e
snoc_keeps (y ∷ w) file (suc x) g e = snoc_keeps w file x g e

pub table-Duplicates : Duplicates table (λ w fd. get_elem? w fd)
table-Duplicates = record {
  dup-new = λ fd file w e fine. ground (arith, e, snoc_last w file);
  dup-keeps = λ fd x file w e. elim (Option-cases (get_elem? w fd)) [
    | inl closed ↦ ground (arith, closed, e)
    | inr (g, open_fd) ↦ ground (arith, open_fd, snoc_keeps w g x file e)
  ];
  get-keeps = λ fd x w. ground arith;
  set-keeps = λ fd flags x w. refl;
}

pub table-Usable : (fd file : ℕ) (w : List ℕ) → get_elem? w fd ≡ some file → Usable table w fd
unfolding set_cloexec
table-Usable fd file w e = record { valid = ground (arith, e); settable = ground (arith, e) }

-- A message with the file descriptor 2 of one process, for the file 52, which is 1 in another.
abbrev pub sender : Locals (List ℕ)
sender = record { world = 50 ∷ 51 ∷ 52 ∷ []; sender = none; receiver = none }

abbrev pub receiver : Locals (List ℕ)
receiver = record { world = 60 ∷ 52 ∷ []; sender = none; receiver = none }

abbrev pub empty : Cmsg
empty = Cmsg.new 16 max_msg_fds

pub empty_room : empty.fd_count ≡ max_msg_fds
unfolding Cmsg.new
empty_room = refl

-- The control message as received, with the file descriptor 1.
abbrev pub received : Cmsg
received = record {
  cmsg_len = 20;
  msg_controllen = 24;
  payload = 1 ∷ 0 ∷ [];
  iovec = none;
  fd_count = 2;
}

pub duplicated : (serialize_all table (2 ∷ []) (before_serialize sender).1).0 ≡ ok (0 ∷ [])
unfolding before_serialize serialize_all serialize_fd send set_cloexec
duplicated = refl

pub same_file :
    (refers : ℕ → Option ℕ) (files : List ℕ)
    → refers 3 ≡ some 52
    → Opens refers (3 ∷ []) files
    → Opens (λ fd. get_elem? receiver.world fd) (Cmsg.fds 16 received) files
unfolding Cmsg.fds Cmsg.cmsg_align
same_file refers files at_3 (one e all) = one (cc (at_3, e)) all
