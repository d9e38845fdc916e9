-- ===== src/Prelude/Text.antt =====
-- A Python `str` as the list of its code points, and the `str` methods that the program calls.
use Prim.Native.Nat.{ℕ}
use Prim.Native.Char.{code}
use Prim.Native.String.{String}
use mathlib.Core.Bool.{Bool, true, false, ◌&&◌, ◌||◌}
use mathlib.Core.List.{List, [], ◌∷◌, reverse}
use reflake.Prelude.Tests.{if◌then◌else◌, ltb, leb}
use reflake.Prelude.Equality.{◌==◌, nat_eq}

abbrev pub Str : Type 0
Str = List ℕ

-- The code points of a literal.
abbrev pub lit : String → Str
lit String.[] = []
lit (String.◌∷◌ c s) = code c ∷ lit s

abbrev pub slash : ℕ
slash = b'/'

-- `s.startswith(p)`
unfoldable pub starts_with : Str → Str → Bool
starts_with s [] = true
starts_with [] (c ∷ p) = false
starts_with (d ∷ s) (c ∷ p) = c == d && starts_with s p

-- Python's `<` on `str`: by code points, a proper prefix first.
unfoldable pub str_lt : Str → Str → Bool
str_lt [] [] = false
str_lt [] (d ∷ t) = true
str_lt (c ∷ s) [] = false
str_lt (c ∷ s) (d ∷ t) =
    let rest = str_lt s t in if ltb c d then true else if c == d then rest else false

-- The characters that `str.strip()` removes.
unfoldable pub is_space : ℕ → Bool
is_space c =
    (leb 9 c && leb c 13)
    || (leb 28 c && leb c 32)
    || c == 133
    || c == 160
    || c == 5760
    || (leb 8192 c && leb c 8202)
    || c == 8232
    || c == 8233
    || c == 8239
    || c == 8287
    || c == 12288

unfoldable pub drop_while : (ℕ → Bool) → Str → Str
drop_while p [] = []
drop_while p (c ∷ s) = if p c then drop_while p s else c ∷ s

-- `s.strip(...)` for the characters of `p`.
unfoldable pub strip_by : (ℕ → Bool) → Str → Str
unfolding drop_while
strip_by p s = reverse (drop_while p (reverse (drop_while p s)))

-- `s.endswith(p)`
unfoldable pub ends_with : Str → Str → Bool
unfolding starts_with
ends_with s p = starts_with (reverse s) (reverse p)

-- `p in s`
unfoldable pub has_infix : Str → Str → Bool
unfolding starts_with
has_infix p [] = starts_with [] p
has_infix p (c ∷ s) = starts_with (c ∷ s) p || has_infix p s

-- The piece before the first slash, and the pieces after it.
unfoldable pub split_onto : Str → Str → List Str
split_onto piece [] = reverse piece ∷ []
split_onto piece (c ∷ s) =
    let here = reverse piece ∷ split_onto [] s in
    let on = split_onto (c ∷ piece) s in if c == slash then here else on

-- `s.split("/")`
unfoldable pub split_slash : Str → List Str
unfolding split_onto
split_slash s = split_onto [] s
