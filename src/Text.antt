-- ===== src/Text.antt =====
-- Python's operations on `str`, as lists of code points.
use Prim.Native.Char.{code}
use Prim.Native.String.{String}
use wifipi.Prelude.{
  ◌+◌, ◌-◌, ◌&&◌, ◌||◌, leb, nat_beq, ◌*◌, ℕ, if◌then◌else◌, Option, reverse, List, Bool, some,
  none, true, false, ◌∷◌, [], list_eq,
}
use wifipi.Prelude.Int.{ℤ, pos, negsuc}
use wifipi.Prelude.Result.{Result, ok, err, value_error}
use wifipi.Routes.Entry.{Name}

-- the code points of a text
abbrev pub codes : String → Name
codes String.[] = []
codes (String.◌∷◌ c s) = code c ∷ codes s

-- what `strip` and `split` take for a space, up to Latin-1
abbrev pub is_space : ℕ → Bool
is_space c =
    nat_beq c 32
    || (leb 9 c && leb c 13)
    || (leb 28 c && leb c 31)
    || nat_beq c 133
    || nat_beq c 160

unfoldable pub strip_left : Name → Name
strip_left [] = []
strip_left (c ∷ s) = let rest = strip_left s in if is_space c then rest else c ∷ s

unfoldable pub strip : Name → Name
strip s = reverse (strip_left (reverse (strip_left s)))

-- the digits of `int(s)`, with a single underscore between two of them; `last` says that one came before
unfoldable pub digits : ℕ → Bool → Name → Option ℕ
digits acc last [] = if last then some acc else none
digits acc last (c ∷ s) =
    let more = digits (acc * 10 + (c - 48)) true s in
    let under = digits acc false s in
    if leb 48 c && leb c 57 then more else if nat_beq c 95 && last then under else none

abbrev pub negate : ℕ → ℤ
negate n = if nat_beq n 0 then pos 0 else negsuc (n - 1)

abbrev pub or_value_error : Option ℕ → (ℕ → ℤ) → Result ℤ
or_value_error none f = err value_error
or_value_error (some n) f = ok (f n)

-- `int(s)` of a text of ASCII characters
unfoldable pub int_of_text : Name → Result ℤ
int_of_text s = elim (strip s) [
  | [] ↦ err value_error
  | c ∷ rest ↦
      if nat_beq c 45
      then or_value_error (digits 0 false rest) negate
      else if nat_beq c 43
      then or_value_error (digits 0 false rest) (λ n. pos n)
      else or_value_error (digits 0 false (c ∷ rest)) (λ n. pos n)
]

-- `s.startswith(prefix)`
unfoldable pub starts_with : Name → Name → Bool
starts_with [] s = true
starts_with (c ∷ prefix) [] = false
starts_with (c ∷ prefix) (d ∷ s) = nat_beq c d && starts_with prefix s

-- `needle in s`
unfoldable pub has_text : Name → Name → Bool
has_text needle [] = starts_with needle []
has_text needle (c ∷ s) = starts_with needle (c ∷ s) || has_text needle s

-- where `splitlines` breaks a text
abbrev pub is_break : ℕ → Bool
is_break c =
    (leb 10 c && leb c 13)
    || (leb 28 c && leb c 30)
    || nat_beq c 133
    || nat_beq c 8232
    || nat_beq c 8233

-- a text put before the first piece
abbrev pub onto : ℕ → List Name → List Name
onto c [] = (c ∷ []) ∷ []
onto c (s ∷ ss) = (c ∷ s) ∷ ss

-- the pieces between the characters of a kind, with empty ones
unfoldable pub pieces : (ℕ → Bool) → Name → List Name
pieces is_cut [] = [] ∷ []
pieces is_cut (c ∷ s) = let rest = pieces is_cut s in if is_cut c then [] ∷ rest else onto c rest

-- `s.splitlines()`, but for empty lines, of which there may be more here
unfoldable pub splitlines : Name → List Name
splitlines s = pieces is_break s

unfoldable pub nonempty : List Name → List Name
nonempty [] = []
nonempty ([] ∷ ss) = nonempty ss
nonempty ((c ∷ s) ∷ ss) = (c ∷ s) ∷ nonempty ss

-- `s.split()`
unfoldable pub split : Name → List Name
split s = nonempty (pieces is_space s)
