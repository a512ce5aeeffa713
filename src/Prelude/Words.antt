-- ===== src/Prelude/Words.antt =====
-- What the program uses of Go's `strings` and `unicode` packages, over code points.
use Prim.Native.Nat.{ℕ, ◌+◌}
use mathlib.Core.Bool.{Bool, ◌&&◌, ◌||◌}
use mathlib.Core.List.{[], ◌∷◌, map, reverse}
use specrelay.Prelude.Tests.{leb, if◌then◌else◌}
use specrelay.Prelude.Equality.{Text, ◌==◌, nat_eq}

-- `unicode.IsSpace`.
unfoldable pub is_space : ℕ → Bool
is_space c =
    leb 9 c && leb c 13
    || c == 32
    || c == 0x85
    || c == 0xa0
    || c == 0x1680
    || leb 0x2000 c && leb c 0x200a
    || c == 0x2028
    || c == 0x2029
    || c == 0x202f
    || c == 0x205f
    || c == 0x3000

unfoldable pub trim_left : Text → Text
unfolding is_space
trim_left [] = []
trim_left (c ∷ s) = if is_space c then trim_left s else c ∷ s

-- `strings.TrimSpace`.
unfoldable pub trim_space : Text → Text
unfolding trim_left
trim_space s = reverse (trim_left (reverse (trim_left s)))

-- `unicode.ToLower` where its value is an ASCII letter: beside the capitals these are the Turkish
-- dotted capital I and the Kelvin sign. Other code points stay outside ASCII and are left alone.
unfoldable pub lower_rune : ℕ → ℕ
lower_rune c =
    if leb b'A' c && leb c b'Z'
    then c + 32
    else if c == 0x130
    then b'i'
    else if c == 0x212a
    then b'k'
    else c

-- `strings.ToLower`, for a comparison with ASCII words.
unfoldable pub to_lower : Text → Text
unfolding lower_rune
to_lower s = map lower_rune s
