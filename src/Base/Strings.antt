-- ===== src/Base/Strings.antt =====
-- Go's strings as lists of code points, with the parts of package strings that the code calls.
use Prim.Native.Nat.{ℕ, ◌+◌, ◌-◌}
use mathlib.Core.Path.{◌≡◌, refl}
use mathlib.Core.Logic.{◌↔◌}
use mathlib.Core.Bool.{Bool, true, false, not, ◌&&◌, ◌||◌}
use mathlib.Core.List.{List, [], ◌∷◌, ◌++◌, map, reverse}
use Prim.Native.Char.{code}
use Prim.Native.String.{String}
use native.Mathlib.Omega.{arith}
use billiards_online.Base.Tests.{leb, ltb, ◌==◌, if◌then◌else◌}

abbrev pub Text : Type 0
Text = List ℕ

unfoldable pub text_eq : Text → Text → Bool
text_eq [] [] = true
text_eq (x ∷ xs) (y ∷ ys) = (x == y) && text_eq xs ys
text_eq _ _ = false

pub text_eq_iff : (s t : Text) → (text_eq s t ≡ true) ↔ (s ≡ t)
unfolding text_eq
text_eq_iff [] [] = ground arith
text_eq_iff (x ∷ xs) (y ∷ ys) = ground (arith, text_eq_iff xs ys)
text_eq_iff [] (y ∷ ys) = ground arith
text_eq_iff (x ∷ xs) [] = ground arith

-- unicode.IsSpace
unfoldable pub is_space : ℕ → Bool
is_space c =
    (leb 9 c && leb c 13)
    || (c == 32)
    || (c == 0x85)
    || (c == 0xA0)
    || (c == 0x1680)
    || (leb 0x2000 c && leb c 0x200a)
    || (c == 0x2028)
    || (c == 0x2029)
    || (c == 0x202f)
    || (c == 0x205f)
    || (c == 0x3000)

unfoldable pub trim_left : Text → Text
unfolding is_space
trim_left [] = []
trim_left (c ∷ cs) = if is_space c then trim_left cs else c ∷ cs

-- strings.TrimSpace
unfoldable pub trim_space : Text → Text
unfolding trim_left
trim_space s = reverse (trim_left (reverse (trim_left s)))

-- strings.ToUpper; `upper` is Unicode's table for the characters above ASCII.
unfoldable pub upper_char : (ℕ → ℕ) → ℕ → ℕ
upper_char upper c = if leb 128 c then upper c else if leb b'a' c && leb c b'z' then c - 32 else c

unfoldable pub to_upper : (ℕ → ℕ) → Text → Text
unfolding upper_char
to_upper upper = map (upper_char upper)

-- strings.ToLower, in the same way
unfoldable pub lower_char : (ℕ → ℕ) → ℕ → ℕ
lower_char lower c = if leb 128 c then lower c else if leb b'A' c && leb c b'Z' then c + 32 else c

unfoldable pub to_lower : (ℕ → ℕ) → Text → Text
unfolding lower_char
to_lower lower = map (lower_char lower)

-- The code points of a literal.
abbrev pub codes : String → Text
codes String.[] = []
codes (String.◌∷◌ c s) = code c ∷ codes s

-- strings.Split by one character
unfoldable pub cons_head : ℕ → List Text → List Text
cons_head c [] = (c ∷ []) ∷ []
cons_head c (t ∷ ts) = (c ∷ t) ∷ ts

unfoldable pub split_on : ℕ → Text → List Text
unfolding cons_head
split_on sep [] = [] ∷ []
split_on sep (c ∷ cs) =
    let rest = split_on sep cs in if c == sep then [] ∷ rest else cons_head c rest

-- Does a text hold no such character?
unfoldable pub lacks : ℕ → Text → Bool
lacks sep [] = true
lacks sep (c ∷ cs) = not (c == sep) && lacks sep cs

pub split_on-append :
    (sep : ℕ) (a b : Text) → lacks sep a ≡ true → split_on sep (a ++ sep ∷ b) ≡ a ∷ split_on sep b
unfolding split_on lacks cons_head
split_on-append sep [] b h = ground arith
split_on-append sep (c ∷ a) b h = ground (arith, split_on-append sep a b)

pub split_on-lacks : (sep : ℕ) (a : Text) → lacks sep a ≡ true → split_on sep a ≡ a ∷ []
unfolding split_on lacks cons_head
split_on-lacks sep [] h = refl
split_on-lacks sep (c ∷ a) h = ground (arith, split_on-lacks sep a)

-- LIKE 'p%'
unfoldable pub starts_with : Text → Text → Bool
starts_with [] s = true
starts_with (p ∷ ps) [] = false
starts_with (p ∷ ps) (c ∷ cs) = (p == c) && starts_with ps cs

-- Go's `len`: the bytes of UTF-8
abbrev pub char_bytes : ℕ → ℕ
char_bytes c = if ltb c 0x80 then 1 else if ltb c 0x800 then 2 else if ltb c 0x10000 then 3 else 4

unfoldable pub byte_len : Text → ℕ
byte_len [] = 0
byte_len (c ∷ cs) = char_bytes c + byte_len cs
