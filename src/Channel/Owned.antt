-- ===== src/Channel/Owned.antt =====
-- Code that opens and closes file descriptors or handles, with errors and panics as values: what it
-- has open at each point, of src/unix/channel.rs and src/windows/channel.rs.
pub mod Turns
use sandbox_ipc.Prelude.{ℕ, List, [], ◌∷◌, ◌==◌, if◌then◌else◌, ◌≡◌, ◌≢◌, arith, ==_iff}
use sandbox_ipc.Prelude.Io.{Result, ok, err, panic, ErrorKind}
use sandbox_ipc.Prelude.State.{St}

-- The process, and the file descriptors or handles that this code has had from the system and not closed, the
-- latest first.
pub record Files (W : Type 0) : Type 0 where
  pub world : W
  pub opened : List ℕ

abbrev pub remove : ℕ → List ℕ → List ℕ
remove x [] = []
remove x (y ∷ ys) = let rest = remove x ys in if x == y then ys else y ∷ rest

module _ {W : Type 0} where
  abbrev pub call : {A : Type 0} → (W → A × W) → St (Files W) A
  call f s = let (a, w) = f s.world in (ok a, record s { world = w })

  abbrev pub attempt : {A : Type 0} → (W → Result A × W) → St (Files W) A
  attempt f s = let (r, w) = f s.world in (r, record s { world = w })

  abbrev pub hold : ℕ → St (Files W) (Unit {0})
  hold fd s = (ok tt, record s { opened = fd ∷ s.opened })

-- What is open afterwards: the file descriptors of the result, if there is one, and what was open.
abbrev pub kept : {A : Type 0} → (A → List ℕ → List ℕ) → Result A → List ℕ → List ℕ
kept fds (ok a) opened = fds a opened
kept fds (err kind) opened = opened
kept fds panic opened = opened

pub remove-first : (x : ℕ) (xs : List ℕ) → remove x (x ∷ xs) ≡ xs
remove-first x xs = ground (arith, ==_iff x x)

pub remove-second : (x y : ℕ) (xs : List ℕ) → x ≢ y → remove x (y ∷ x ∷ xs) ≡ y ∷ xs
remove-second x y xs differ = ground (arith, ==_iff x x, ==_iff x y)
