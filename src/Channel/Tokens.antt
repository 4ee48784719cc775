-- ===== src/Channel/Tokens.antt =====
-- What serde passes to a format and gets from it, as src/windows/channel.rs and src/windows/mod.rs use
-- it: numbers, Booleans, and the tag of an `Option`.
use sandbox_ipc.Prelude.{Bool, ℕ, zero, suc, ◌<◌, ◌≡◌, refl, List, [], ◌∷◌, ◌++◌, length, arith}
use sandbox_ipc.Prelude.Io.{Result, ok, err, ErrorKind, ◌>>=◌}

pub data Token : Type 0 where
  number : ℕ → Token
  boolean : Bool → Token
  is_some is_none : Token

unfoldable pub next_number : List Token → Result (ℕ × List Token)
next_number (number n ∷ rest) = ok (n, rest)
next_number tokens = err ErrorKind.custom

unfoldable pub next_boolean : List Token → Result (Bool × List Token)
next_boolean (boolean b ∷ rest) = ok (b, rest)
next_boolean tokens = err ErrorKind.custom

abbrev pub tokens_of : List ℕ → List Token
tokens_of [] = []
tokens_of (n ∷ ns) = number n ∷ tokens_of ns

-- An array of a fixed length, which has no length of its own in the data.
unfoldable pub next_array : (len : ℕ) → List Token → Result (List ℕ × List Token)
unfolding next_number
next_array zero tokens = ok ([], tokens)
next_array (suc len) tokens = do
  (n, rest) ← next_number tokens
  (ns, rest') ← next_array len rest
  ok (n ∷ ns, rest')

pub next_array_lem :
    (ns : List ℕ) (rest : List Token) (len : ℕ)
    → length ns ≡ len
    → next_array len (tokens_of ns ++ rest) ≡ ok (ns, rest)
unfolding next_array
next_array_lem [] rest zero e = refl
next_array_lem [] rest (suc len) e = absurd (omega arith)
next_array_lem (n ∷ ns) rest zero e = absurd (omega arith)
next_array_lem (n ∷ ns) rest (suc len) e = rw (next_array_lem ns rest len (omega arith)) refl

pub next_array-short :
    (ns : List ℕ) (len : ℕ) → length ns < len → next_array len (tokens_of ns) ≡ err ErrorKind.custom
unfolding next_array
next_array-short [] zero e = absurd (omega arith)
next_array-short [] (suc len) e = refl
next_array-short (n ∷ ns) zero e = absurd (omega arith)
next_array-short (n ∷ ns) (suc len) e = rw (next_array-short ns len (omega arith)) refl
