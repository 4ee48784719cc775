-- ===== src/Channel/Owned/Turns.antt =====
-- Rules for what code leaves open, by its parts: from the handles that it is given to those of its
-- result.
use sandbox_ipc.Prelude.{
  ℕ, ◌+◌, ◌-◌, ◌≡◌, refl, sym, ◌∙◌, List, [], ◌∷◌, ◌++◌, ◌==◌, if◌then◌else◌, arith, Bool, true,
  false, inl, inr,
}
use sandbox_ipc.Prelude.Io.{Result, ok, err, panic, ErrorKind, Result-cases}
use sandbox_ipc.Prelude.State.{St, ◌>>=◌, pure, lift_ensure}
use sandbox_ipc.Channel.Owned.{Files, remove, call, attempt}
use sandbox_ipc.Prelude.State.{scoped, finally}

abbrev pub count : ℕ → List ℕ → ℕ
count y [] = 0
count y (x ∷ xs) = (if x == y then 1 else 0) + count y xs

pub count-append : (y : ℕ) (xs ys : List ℕ) → count y (xs ++ ys) ≡ count y xs + count y ys
count-append y [] ys = omega arith
count-append y (x ∷ xs) ys = omega (arith, count-append y xs ys)

-- A handle is closed once, if it is open.
pub count-remove :
    (y x : ℕ) (xs : List ℕ) → count y (remove x xs) ≡ count y xs - (if x == y then 1 else 0)
count-remove y x [] = ground arith
count-remove y x (z ∷ xs) = ground (arith, count-remove y x xs)

-- The handles of the result, if there is one.
abbrev pub owned : {A : Type 0} → (A → List ℕ) → Result A → List ℕ
owned handles (ok a) = handles a
owned handles (err kind) = []
owned handles panic = []

-- However `m` ends, it has closed what it was given, and left open the handles of its result and
-- what else was open before, each as often as it was. `base` counts the latter.
pub record Turns {W A : Type 0} (given : List ℕ) (m : St (Files W) A) (handles : A → List ℕ)
    : Type 0 where
  pub turns :
      (s : Files W) (base : ℕ → ℕ)
      → ((y : ℕ) → count y s.opened ≡ count y given + base y)
      → (y : ℕ) → count y (m s).1.opened ≡ count y (owned handles (m s).0) + base y

-- A result without handles.
nothing : {A : Type 0} (y n : ℕ) (r : Result A) → count y (owned (λ a. []) r) + n ≡ n
nothing y n (ok a) = omega arith
nothing y n (err kind) = omega arith
nothing y n panic = omega arith

-- `m` opens and closes nothing.
abbrev pub Plain : {W A : Type 0} → St (Files W) A → Type 0
Plain {W} m = (s : Files W) → (m s).1.opened ≡ s.opened

-- `cleanup` closes `h`.
abbrev pub Drops : {W : Type 0} → ℕ → St (Files W) (Unit {0}) → Type 0
Drops {W} h cleanup =
    (s : Files W) → ((cleanup s).0 ≡ ok tt) × ((cleanup s).1.opened ≡ remove h s.opened)

module _ {W A : Type 0} where
  pub Turns-pure : (a : A) (handles : A → List ℕ) → Turns (handles a) (pure {S = Files W} a) handles
  Turns-pure a handles = record { turns = λ s base h y. h y }

  pub Turns-Plain : (m : St (Files W) A) → Plain m → Turns [] m (λ a. [])
  Turns-Plain m plain = record {
    turns = λ s base h y. elim (Result-cases (m s).0) [
      | inl (a, e) ↦ rw (plain s) (rw e (h y))
      | inr (inl (kind, e)) ↦ rw (plain s) (rw e (h y))
      | inr (inr e) ↦ rw (plain s) (rw e (h y))
    ];
  }

  pub Turns-same :
      {m : St (Files W) A} {given : List ℕ} {handles : A → List ℕ} (given' : List ℕ)
      (handles' : A → List ℕ)
      → ((y : ℕ) → count y given' ≡ count y given)
      → ((a : A) (y : ℕ) → count y (handles a) ≡ count y (handles' a))
      → Turns given m handles
      → Turns given' m handles'
  Turns-same {m} given' handles' same same' t = record {
    turns = λ s base h y.
        let turned = t.turns s base (λ y'. omega (arith, h y', same y')) y in
        elim (Result-cases (m s).0) [
          | inl (a, e) ↦ ground (arith, same' a y)
          | inr (inl (kind, e)) ↦ ground arith
          | inr (inr e) ↦ ground arith
        ];
  }

  pub Turns-scoped :
      {m : St (Files W) A} {given : List ℕ} {handles : A → List ℕ}
      (cleanup : St (Files W) (Unit {0})) (x : ℕ)
      → Drops x cleanup
      → Turns given m handles
      → Turns (x ∷ given) (scoped cleanup m) (λ a. x ∷ handles a)
  Turns-scoped {m} {given} {handles} cleanup x drops t = record {
    turns = λ s base h y.
        let turned = t.turns s (λ y'. count y' (x ∷ []) + base y') (λ y'. omega (arith, h y')) y in
        elim (Result-cases (m s).0) [
          | inl (a, e) ↦ ground arith
          | inr (inl (kind, e)) ↦ ground (arith, (drops (m s).1).1, count-remove y x (m s).1.opened)
          | inr (inr e) ↦ ground (arith, (drops (m s).1).1, count-remove y x (m s).1.opened)
        ];
  }

  pub Turns-finally :
      {given : List ℕ} {cleanup : St (Files W) (Unit {0})} (m : St (Files W) A)
      → Plain m
      → Turns given cleanup (λ done. [])
      → Turns given (finally cleanup m) (λ a. [])
  Turns-finally {cleanup} m plain t = record {
    turns = λ s base h y.
        t.turns (m s).1 base (λ y'. rw (plain s) (h y')) y
        ∙ nothing y (base y) (cleanup (m s).1).0
        ∙ sym (nothing y (base y) (m s).0);
  }

  pub Turns-call : (f : W → A × W) → Turns [] (call f) (λ a. [])
  Turns-call f = Turns-Plain (call f) (λ s. refl)

  pub Turns-attempt : (f : W → Result A × W) → Turns [] (attempt f) (λ a. [])
  Turns-attempt f = Turns-Plain (attempt f) (λ s. refl)

pub Turns-drop :
    {W : Type 0} (cleanup : St (Files W) (Unit {0})) (x : ℕ) (given : List ℕ)
    → Drops x cleanup
    → Turns (x ∷ given) cleanup (λ done. given)
Turns-drop cleanup x given drops = record {
  turns = λ s base h y. ground (arith, h y, drops s, count-remove y x s.opened);
}

pub Turns-ensure :
    {W : Type 0} (test : Bool) (kind : ErrorKind)
    → Turns [] (lift_ensure {S = Files W} test kind) (λ done. [])
Turns-ensure true kind = Turns-Plain (lift_ensure true kind) (λ s. refl)
Turns-ensure false kind = Turns-Plain (lift_ensure false kind) (λ s. refl)

module _ {W A B : Type 0} where
  bind_ok :
      (m : St (Files W) A) (k : A → St (Files W) B) (s : Files W) (a : A)
      → (m s).0 ≡ ok a
      → (m >>= k) s ≡ k a (m s).1
  bind_ok m k s a e = ground (arith, e)

  pub Turns-bind :
      {m : St (Files W) A} {k : A → St (Files W) B} {given : List ℕ} {handles : B → List ℕ}
      (mid : A → List ℕ)
      → Turns given m mid
      → ((a : A) → Turns (mid a) (k a) handles)
      → Turns given (m >>= k) handles
  Turns-bind {m} {k} mid t u = record {
    turns = λ s base h y.
        let turned = t.turns s base h in
        elim (Result-cases (m s).0) [
          | inl (a, e) ↦
              rw (bind_ok m k s a e) ((u a).turns (m s).1 base (λ y'. ground (arith, turned y')) y)
          | inr (inl (kind, e)) ↦ ground (arith, turned y)
          | inr (inr e) ↦ ground (arith, turned y)
        ];
  }
