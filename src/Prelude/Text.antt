-- ===== src/Prelude/Text.antt =====
-- Rust's `str` as a list of code points, with the methods of the standard library that the
-- program calls on it.
use Prim.Native.Nat.{ℕ, zero, suc, ◌+◌, ◌-◌, ◌*◌, ◌/◌, ◌%◌}
use Prim.Native.Char.{code}
use Prim.Native.String.{String}
use mathlib.Core.Path.{◌≡◌, refl}
use mathlib.Core.Logic.{◌↔◌}
use mathlib.Core.Bool.{Bool, true, false, ◌&&◌, ◌||◌}
use mathlib.Core.Option.{Option, none, some}
use mathlib.Core.List.{List, [], ◌++◌, ◌∷◌, map}
use native.Mathlib.Omega.{arith}
use hrm_grag.Prelude.Int.{negsuc, pos, ℤ}
use hrm_grag.Prelude.Lists.{All, is_empty}
use hrm_grag.Prelude.Tests.{if◌then◌else◌, leb, ltb, ◌==◌}

abbrev pub Text : Type 0
Text = List ℕ

-- What `uuid` does with text: `Uuid::parse_str` and `Uuid::to_string`.
pub record Uuid : Type 0 where
  pub parse_str : Text → Option ℕ
  pub to_string : ℕ → Text

-- The code points of a literal.
abbrev pub codes : String → Text
codes String.[] = []
codes (String.◌∷◌ c s) = code c ∷ codes s

unfoldable pub text_eq : Text → Text → Bool
text_eq [] [] = true
text_eq [] (y ∷ ys) = false
text_eq (x ∷ xs) [] = false
text_eq (x ∷ xs) (y ∷ ys) = x == y && text_eq xs ys

pub text_eq_iff : (s t : Text) → (text_eq s t ≡ true) ↔ (s ≡ t)
unfolding text_eq
text_eq_iff [] [] = ground arith
text_eq_iff [] (y ∷ ys) = ground arith
text_eq_iff (x ∷ xs) [] = ground arith
text_eq_iff (x ∷ xs) (y ∷ ys) = ground (arith, text_eq_iff xs ys)

-- `char::is_whitespace`: the code points with the Unicode property White_Space.
unfoldable pub is_whitespace : ℕ → Bool
is_whitespace c =
    (leb 9 c && leb c 13)
    || c == 32
    || c == 0x85
    || c == 0xa0
    || c == 0x1680
    || (leb 0x2000 c && leb c 0x200a)
    || c == 0x2028
    || c == 0x2029
    || c == 0x202f
    || c == 0x205f
    || c == 0x3000

-- `char::is_control`: the general category Cc.
unfoldable pub is_control : ℕ → Bool
is_control c = ltb c 32 || (leb 127 c && leb c 159)

unfoldable pub trim_start : Text → Text
trim_start [] = []
trim_start (c ∷ s) = let rest = trim_start s in if is_whitespace c then rest else c ∷ s

unfoldable pub trim_end : Text → Text
trim_end [] = []
trim_end (c ∷ s) =
    let rest = trim_end s in if is_empty rest && is_whitespace c then [] else c ∷ rest

unfoldable pub trim : Text → Text
unfolding trim_start trim_end is_whitespace
trim s = trim_end (trim_start s)

unfoldable pub to_ascii_lowercase : Text → Text
to_ascii_lowercase = map (λ c. if leb 65 c && leb c 90 then c + 32 else c)

unfoldable pub to_ascii_uppercase : Text → Text
to_ascii_uppercase = map (λ c. if leb 97 c && leb c 122 then c - 32 else c)

-- `strip_prefix`: what follows the first text in the second.
unfoldable pub strip_prefix : Text → Text → Option Text
strip_prefix [] s = some s
strip_prefix (c ∷ p) [] = none
strip_prefix (c ∷ p) (d ∷ s) = let rest = strip_prefix p s in if c == d then rest else none

unfoldable pub starts_with : Text → Text → Bool
unfolding strip_prefix
starts_with p s = elim (strip_prefix p s) [ none ↦ false | some r ↦ true ]

-- `s.contains(p)`, with the pattern first.
unfoldable pub contains : Text → Text → Bool
unfolding starts_with
contains p [] = is_empty p
contains p (c ∷ s) = starts_with p (c ∷ s) || contains p s

digits : ℕ → ℕ → Text → Option ℕ
digits bound n [] = if leb n bound then some n else none
digits bound n (c ∷ s) =
    let rest = digits bound (n * 10 + (c - 48)) s in if leb 48 c && leb c 57 then rest else none

-- `parse::<u64>` and the like: an optional `+`, then one digit at least, in range.
unfoldable pub parse_unsigned : ℕ → Text → Option ℕ
unfolding digits
parse_unsigned bound [] = none
parse_unsigned bound (c ∷ s) =
    if c == b'+' then (if is_empty s then none else digits bound 0 s) else digits bound 0 (c ∷ s)

negate : ℕ → ℤ
negate zero = pos 0
negate (suc n) = negsuc n

-- `parse::<i64>` and the like, for integers from -bound - 1 to bound.
unfoldable pub parse_signed : ℕ → Text → Option ℤ
unfolding digits negate parse_unsigned
parse_signed bound [] = none
parse_signed bound (c ∷ s) =
    if c == b'-'
    then (if is_empty s
        then none
        else elim (digits (suc bound) 0 s) [ none ↦ none | some n ↦ some (negate n) ])
    else elim (parse_unsigned bound (c ∷ s)) [ none ↦ none | some n ↦ some (pos n) ]

-- `s.split(c)`: what comes before the first `c`, and the later parts.
abbrev pub cut : ℕ → Text → Text × List Text
cut c [] = ([], [])
cut c (d ∷ s) = let (h, rest) = cut c s in if d == c then ([], h ∷ rest) else (d ∷ h, rest)

unfoldable pub split : ℕ → Text → List Text
split c s = let (h, rest) = cut c s in h ∷ rest

-- `trim_start_matches(c)`
unfoldable pub trim_start_matches : ℕ → Text → Text
trim_start_matches c [] = []
trim_start_matches c (d ∷ s) = let rest = trim_start_matches c s in if d == c then rest else d ∷ s

pub cut-free :
    (c : ℕ) (s r : Text)
    → All (λ d. (d == c) ≡ false) s
    → cut c (s ++ c ∷ r) ≡ (s, (cut c r).0 ∷ (cut c r).1)
cut-free c [] r h = ground arith
cut-free c (d ∷ s) r h = rw (h.0, cut-free c s r h.1) refl

-- The parts before a separator that they do not contain.
pub split-free :
    (c : ℕ) (s r : Text) → All (λ d. (d == c) ≡ false) s → split c (s ++ c ∷ r) ≡ s ∷ split c r
unfolding split
split-free c s r h = rw (cut-free c s r h) refl

decimal_of : ℕ → ℕ → Text
decimal_of zero n = []
decimal_of (suc fuel) n =
    let rest = decimal_of fuel (n / 10) in
    let last = 48 + n % 10 in if ltb n 10 then last ∷ [] else rest ++ last ∷ []

-- A u64 in decimal; it has at most 20 digits.
unfoldable pub show_u64 : ℕ → Text
unfolding decimal_of
show_u64 n = decimal_of 20 n
