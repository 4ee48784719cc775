-- ===== src/Channel/Fds/Single.antt =====
-- A message of src/unix/mod.rs with one file descriptor.
use sandbox_ipc.Prelude.{ℕ, ◌≡◌, ◌∙◌, refl, some, List, [], ◌∷◌, Option, arith}
use sandbox_ipc.Prelude.Io.{ok}
use sandbox_ipc.Channel.Tokens.{Token, number}
use sandbox_ipc.Channel.Fds.{Libc, Locals}
use sandbox_ipc.Channel.Fds.Items.{put_fd, get_fd}
use sandbox_ipc.Channel.Fds.Runs.{serialize_all, serialize_all_cons}
use sandbox_ipc.Channel.Fds.Sender.{Duplicates, Opens, all, one}
use sandbox_ipc.Channel.Fds.Receiver.{Usable}
use sandbox_ipc.Channel.Fds.Reading.{Offers, get_fd-Offers, get_fd-keeps}

-- Encoding a file descriptor as the first is encoding a list of one.
pub put_fd-all :
    {W : Type 0} (libc : Libc W) (fd : ℕ) (indices : List ℕ) (l : Locals W)
    → (serialize_all libc (fd ∷ []) l).0 ≡ ok indices
    → indices ≡ 0 ∷ []
    → put_fd libc fd l ≡ (ok (number 0 ∷ []), (serialize_all libc (fd ∷ []) l).1)
unfolding put_fd serialize_all
put_fd-all libc fd indices l done counted =
    let (index, rest, split, e, more, same) = serialize_all_cons libc fd [] l indices done in
    let first : index ≡ 0 = cc (split, counted) in ground (arith, e, first, same)

-- Of the file descriptors offered, for one that was sent, the receiver reads one for the same file.
pub read_fd :
    {V : Type 0} {libc : Libc V} {refers : V → ℕ → Option ℕ} (dups : Duplicates libc refers)
    (usable : (fd file : ℕ) (w : V) → refers w fd ≡ some file → Usable libc w fd)
    (before : ℕ → Option ℕ) (sent : ℕ) (fds files : List ℕ) (rest : List Token) (l : Locals V)
    → Opens before (sent ∷ []) files
    → Opens (refers l.world) fds files
    → Offers fds l
    → let (got, l') = get_fd libc (number 0 ∷ rest) l in
      (fd : ℕ) × (got ≡ ok (fd, rest)) × Opens (refers l'.world) (fd ∷ []) files
read_fd {libc} dups usable before sent fds files rest l (one {file} e all) (one {fd} e' all)
      offers =
    let (read, offers') =
      get_fd-Offers libc (fd ∷ []) 0 fd rest l offers refl (usable fd file l.world e') in
    (fd, read, one (get_fd-keeps dups fd (number 0 ∷ rest) l ∙ e') all)
