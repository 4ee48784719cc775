-- ===== src/Prelude/Io.antt =====
-- `std::io::Result`, and a panic as a third outcome.
use mathlib.Core.Path.{◌≡◌, refl}
use mathlib.Core.Bool.{Bool, true, false}
use mathlib.Core.Logic.{◌⊎◌, inl, inr}
use mathlib.Core.Option.{Option, none, some}

-- The kinds of `std::io::Error` that the crate makes; `custom` is an error of serde,
-- and `os` one that the system returns.
pub data ErrorKind : Type 0 where
  invalid_input invalid_data permission_denied broken_pipe write_zero would_block custom os :
      ErrorKind

pub data Result {ℓ} (A : Type ℓ) : Type ℓ where
  ok : A → Result A
  err : ErrorKind → Result A
  panic : Result A

infixl 5 ◌>>=◌ ◌>>◌
abbrev pub ◌>>=◌ {ℓ κ} : {A : Type ℓ} → {B : Type κ} → Result A → (next : A → Result B) → Result B
r >>= next = elim r [ ok value ↦ next value | err kind ↦ err kind | panic ↦ panic ]

abbrev pub ◌>>◌ {ℓ} : {B : Type ℓ} → Result (Unit {0}) → Result B → Result B
done >> next = done >>= λ _. next

-- `if !test { return Err(kind) }`
abbrev pub ensure : Bool → ErrorKind → Result (Unit {0})
ensure true kind = ok tt
ensure false kind = err kind

-- `assert!(test)`
abbrev pub assert : Bool → Result (Unit {0})
assert true = ok tt
assert false = panic

-- `option.ok_or(kind)?`
abbrev pub ok_or {ℓ} : {A : Type ℓ} → Option A → ErrorKind → Result A
ok_or (some a) kind = ok a
ok_or none kind = err kind

-- A bind that succeeds, taken apart.
pub >>=-eq-ok {ℓ κ} :
    {A : Type ℓ} {B : Type κ} {b : B} (r : Result A) (next : A → Result B)
    → (r >>= next) ≡ ok b
    → (value : A) × (r ≡ ok value) × (next value ≡ ok b)
>>=-eq-ok (ok value) next e = (value, refl, e)
>>=-eq-ok panic next e = cc
>>=-eq-ok (err kind) next e = cc

pub Result-cases {ℓ} :
    {A : Type ℓ} (r : Result A)
    → ((value : A) × (r ≡ ok value)) ⊎ (((kind : ErrorKind) × (r ≡ err kind)) ⊎ (r ≡ panic))
Result-cases (ok value) = inl (value, refl)
Result-cases (err kind) = inr (inl (kind, refl))
Result-cases panic = inr (inr refl)
