-- ===== src/Checkpoint.antt =====
-- backend/internal/repository/store.go: `boundCheckpointText`, over the runes that Go reads from a
-- string. A rune is at most 0x10ffff, and a byte that is no UTF-8 is read as the rune 0xfffd.
pub mod Bounds
use specrelay.Prelude.{
  ℕ, ◌+◌, Bool, true, false, not, ◌||◌, [], ◌∷◌, ◌==◌, if◌then◌else◌, ltb, leb, Text, text_eq,
  nat_eq,
}

-- `len(string(character))`.
abbrev pub encoded_length : ℕ → ℕ
encoded_length c =
    if ltb c 0x80 then 1 else if ltb c 0x800 then 2 else if ltb c 0x10000 then 3 else 4

abbrev pub lines_after : ℕ → ℕ → ℕ
lines_after c lines = if c == 10 then lines + 1 else lines

-- The loop: what is still written, and whether it stops early.
unfoldable pub write_runes : ℕ → ℕ → Text → ℕ → ℕ → Text × Bool
write_runes max_bytes max_lines [] bytes lines = ([], false)
write_runes max_bytes max_lines (c ∷ s) bytes lines =
    let rest = write_runes max_bytes max_lines s (bytes + encoded_length c) (lines_after c lines) in
    if ltb max_bytes (bytes + encoded_length c) || leb max_lines lines
    then ([], true)
    else (c ∷ rest.0, rest.1)

unfoldable pub bound_checkpoint_text : Text → ℕ → ℕ → Text × Bool
unfolding write_runes
bound_checkpoint_text value max_bytes max_lines =
    if max_bytes == 0 || max_lines == 0
    then ([], not (value == []))
    else write_runes max_bytes max_lines value 0 0
