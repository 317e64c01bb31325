-- ===== src/Common/Texts.antt =====
-- The functions of Go's `strings` package that the gateway calls, over the code points of a text.
-- Every separator is an ASCII character, so that a walk over code points and one over bytes agree.
use Prim.Native.Nat.{ℕ}
use Prim.Native.Char.{Char, code}
use Prim.Native.String
use Prim.Native.String.{String, [], ◌∷◌}
use mathlib.Core.Bool.{Bool, true, false, ◌&&◌, ◌||◌}
use mathlib.Core.Option
use mathlib.Core.Option.{Option, none, some}
use mathlib.Core.List.{List, [], ◌∷◌}
use text.Mathlib.Text.{◌==◌ as str_eq}
use tanugate.Common.Tests.{◌==◌, if◌then◌else◌, leb}

infixl 65 ◌<>◌
abbrev pub ◌<>◌ : String → String → String
s <> t = String.◌++◌ s t

infix 50 ◌===◌
abbrev pub ◌===◌ : String → String → Bool
s === t = str_eq s t

-- `strings.Contains` and `strings.ContainsRune` for one character.
unfoldable pub contains_char : ℕ → String → Bool
contains_char k [] = false
contains_char k (c ∷ s) = code c == k || contains_char k s

-- `strings.CutPrefix`: what follows the prefix.
unfoldable pub cut_prefix : String → String → Option String
cut_prefix s [] = some s
cut_prefix [] (_ ∷ _) = none
cut_prefix (c ∷ s) (d ∷ t) = if code c == code d then cut_prefix s t else none

-- `strings.HasPrefix`.
unfoldable pub has_prefix : String → String → Bool
unfolding cut_prefix
has_prefix s t = elim (cut_prefix s t) [ none ↦ false | some _ ↦ true ]

-- `strings.TrimPrefix`.
unfoldable pub trim_prefix : String → String → String
unfolding cut_prefix
trim_prefix s t = elim (cut_prefix s t) [ none ↦ s | some rest ↦ rest ]

-- What stands before the suffix: `s[:len(s)-len(t)]` where `strings.HasSuffix(s, t)`.
unfoldable pub cut_suffix : String → String → Option String
cut_suffix [] t = if str_eq [] t then some [] else none
cut_suffix (c ∷ s) t =
    if str_eq (c ∷ s) t then some [] else Option.map (λ p. c ∷ p) (cut_suffix s t)

-- What stands before the last occurrence of a character: `s[:strings.LastIndex(s, c)]`.
unfoldable pub before_last : ℕ → String → Option String
before_last k [] = none
before_last k (c ∷ s) = elim (before_last k s) [
  | some p ↦ some (c ∷ p)
  | none ↦ if code c == k then some [] else none
]

abbrev pub cons_head : Char → List String → List String
cons_head c [] = (c ∷ []) ∷ []
cons_head c (p ∷ ps) = (c ∷ p) ∷ ps

-- `strings.Split` at one character.
unfoldable pub split : ℕ → String → List String
split k [] = [] ∷ []
split k (c ∷ s) = let parts = split k s in if code c == k then [] ∷ parts else cons_head c parts

-- `strings.Join`.
unfoldable pub join : String → List String → String
join sep [] = []
join sep (s ∷ []) = s
join sep (s ∷ (t ∷ ss)) = s <> sep <> join sep (t ∷ ss)

-- `unicode.IsSpace` on the characters of Latin-1 and on the other white space of Unicode.
unfoldable pub is_space : ℕ → Bool
is_space k =
    (leb 9 k && leb k 13)
    || k == 32
    || k == 0x85
    || k == 0xa0
    || k == 0x1680
    || (leb 0x2000 k && leb k 0x200a)
    || k == 0x2028
    || k == 0x2029
    || k == 0x202f
    || k == 0x205f
    || k == 0x3000

unfoldable pub trim_left : String → String
unfolding is_space
trim_left [] = []
trim_left (c ∷ s) = let rest = trim_left s in if is_space (code c) then rest else c ∷ s

unfoldable pub trim_right : String → String
unfolding is_space
trim_right [] = []
trim_right (c ∷ s) =
    let rest = trim_right s in if str_eq rest [] && is_space (code c) then [] else c ∷ rest

-- `strings.TrimSpace`.
unfoldable pub trim_space : String → String
unfolding trim_left trim_right
trim_space s = trim_right (trim_left s)

-- `strings.Map` with the table of a case mapping.
unfoldable pub map_chars : (Char → Char) → String → String
map_chars f [] = []
map_chars f (c ∷ s) = f c ∷ map_chars f s
