-- ===== src/Prelude/State.antt =====
-- Code with a state, whose outcome is a `Result`: an error or a panic keeps the changes made so far.
use mathlib.Core.Bool.{Bool, true, false}
use mathlib.Core.Option.{Option, none, some}
use sandbox_ipc.Prelude.Io.{Result, ok, err, panic, ErrorKind}

abbrev pub St : Type 0 → Type 0 → Type 0
St S A = S → Result A × S

module _ {S : Type 0} where
  abbrev pub pure : {A : Type 0} → A → St S A
  pure a s = (ok a, s)

  infixl 5 ◌>>=◌ ◌>>◌
  abbrev pub ◌>>=◌ : {A B : Type 0} → St S A → (A → St S B) → St S B
  ◌>>=◌ m f s =
      let (r, s') = m s in
      elim r [ ok a ↦ f a s' | err kind ↦ (err kind, s') | panic ↦ (panic, s') ]

  abbrev pub ◌>>◌ : {B : Type 0} → St S (Unit {0}) → St S B → St S B
  m >> k = m >>= λ _. k

  abbrev pub get : St S S
  get s = (ok s, s)

  abbrev pub put : S → St S (Unit {0})
  put s' s = (ok tt, s')

  abbrev pub lift : {A : Type 0} → Result A → St S A
  lift r s = (r, s)

  abbrev pub lift_ensure : Bool → ErrorKind → St S (Unit {0})
  lift_ensure true kind s = (ok tt, s)
  lift_ensure false kind s = (err kind, s)

  abbrev pub lift_assert : Bool → St S (Unit {0})
  lift_assert true s = (ok tt, s)
  lift_assert false s = (panic, s)

  abbrev pub lift_ok_or : {A : Type 0} → Option A → ErrorKind → St S A
  lift_ok_or (some a) kind s = (ok a, s)
  lift_ok_or none kind s = (err kind, s)

  -- What a `?` in the scope of a guard does: an exit without a result closes it.
  abbrev pub scoped : {A : Type 0} → (St S (Unit {0})) → St S A → St S A
  scoped cleanup m s =
      let (r, s') = m s in
      elim r [
        | ok a ↦ (ok a, s')
        | err kind ↦ (err kind, (cleanup s').1)
        | panic ↦ (panic, (cleanup s').1)
      ]

  -- What happens at the end of a scope, however it is left.
  abbrev pub finally : {A : Type 0} → (St S (Unit {0})) → St S A → St S A
  finally cleanup m s = let (r, s') = m s in (r, (cleanup s').1)
