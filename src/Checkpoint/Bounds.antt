-- ===== src/Checkpoint/Bounds.antt =====
-- What boundCheckpointText (backend/internal/repository/store.go) keeps of a text.
use specrelay.Prelude.{
  ℕ, ◌+◌, ◌≤◌, ◌<◌, ◌≡◌, ◌⊎◌, inl, inr, refl, ap, Bool, true, false, not, ◌||◌, [], ◌∷◌, ◌++◌, ◌==◌,
  ltb, leb, Text, text_eq, nat_eq, text_beq, arith, Bool-cases,
}
use specrelay.Checkpoint.{encoded_length, lines_after, write_runes, bound_checkpoint_text}

-- The bytes of a text in UTF-8, and its newlines.
unfoldable pub byte_length : Text → ℕ
byte_length [] = 0
byte_length (c ∷ s) = encoded_length c + byte_length s

unfoldable pub newlines : Text → ℕ
newlines [] = 0
newlines (c ∷ s) = lines_after c (newlines s)

-- Nothing was left out, or the next rune would be one byte or one line too many.
pub data IsLongest (max_bytes max_lines bytes lines : ℕ) : Bool → Text → Type 0 where
  whole : IsLongest max_bytes max_lines bytes lines false []
  full :
      (c : ℕ) (rest : Text)
      → (max_bytes < bytes + encoded_length c) ⊎ (max_lines ≤ lines)
      → IsLongest max_bytes max_lines bytes lines true (c ∷ rest)

-- What is kept of a value, after `bytes` and `lines` that are written already.
pub record IsBounded (max_bytes max_lines bytes lines : ℕ) (value kept : Text) (truncated : Bool)
    : Type 0 where
  pub left_out : Text
  pub splits : value ≡ kept ++ left_out
  pub few_bytes : bytes + byte_length kept ≤ max_bytes
  pub few_lines : lines + newlines kept ≤ max_lines
  pub longest :
      IsLongest max_bytes max_lines
        (bytes + byte_length kept)
        (lines + newlines kept)
        truncated
        left_out

IsBounded-cons :
    (mb ml bytes lines c : ℕ) (s kept : Text) (truncated : Bool)
    → IsBounded mb ml (bytes + encoded_length c) (lines_after c lines) s kept truncated
    → IsBounded mb ml bytes lines (c ∷ s) (c ∷ kept) truncated
unfolding byte_length newlines
IsBounded-cons mb ml bytes lines c s kept truncated h =
    let bytes_eq : bytes + encoded_length c + byte_length kept
        ≡ bytes + (encoded_length c + byte_length kept) =
      omega arith in
    let lines_eq : lines_after c lines + newlines kept ≡ lines + lines_after c (newlines kept) =
      ground (arith, Bool-cases (c == 10)) in
    record {
      left_out = h.left_out;
      splits = ap (λ rest. c ∷ rest) h.splits;
      few_bytes = omega (arith, h.few_bytes);
      few_lines = rw lines_eq at h.few_lines;
      longest = rw (bytes_eq, lines_eq) at h.longest;
    }

write_runes-IsBounded :
    (mb ml : ℕ) (s : Text) (bytes lines : ℕ)
    → bytes ≤ mb
    → lines ≤ ml
    → let out = write_runes mb ml s bytes lines in IsBounded mb ml bytes lines s out.0 out.1
unfolding write_runes byte_length newlines
write_runes-IsBounded mb ml [] bytes lines b l = record {
  left_out = [];
  splits = refl;
  few_bytes = omega arith;
  few_lines = omega arith;
  longest = whole;
}
write_runes-IsBounded mb ml (c ∷ s) bytes lines b l =
    elim (Bool-cases (ltb mb (bytes + encoded_length c) || leb ml lines)) [
      | inl stop ↦ rw stop (record {
        left_out = c ∷ s;
        splits = refl;
        few_bytes = omega arith;
        few_lines = omega arith;
        longest = full c s (ground arith);
      })
      | inr go ↦ rw go (
          IsBounded-cons mb ml bytes lines c s _ _ (
            write_runes-IsBounded mb ml s (bytes + encoded_length c) (lines_after c lines)
              (ground arith) (ground arith)))
    ]

nothing-IsBounded :
    (value : Text) (mb ml : ℕ)
    → (mb == 0 || ml == 0) ≡ true
    → IsBounded mb ml 0 0 value [] (not (value == []))
unfolding byte_length newlines text_beq
nothing-IsBounded [] mb ml closed = record {
  left_out = [];
  splits = refl;
  few_bytes = omega arith;
  few_lines = omega arith;
  longest = whole;
}
nothing-IsBounded (c ∷ s) mb ml closed = record {
  left_out = c ∷ s;
  splits = refl;
  few_bytes = omega arith;
  few_lines = omega arith;
  longest = full c s (ground arith);
}

-- What is kept of a text is a prefix of it with at most `max_bytes` bytes and `max_lines` newlines;
-- it is reported as truncated exactly when something was left out, and then the next rune would be
-- too many bytes or stand after the last allowed newline.
pub bound_checkpoint_text-IsBounded :
    (value : Text) (max_bytes max_lines : ℕ)
    → let out = bound_checkpoint_text value max_bytes max_lines in
      IsBounded max_bytes max_lines 0 0 value out.0 out.1
unfolding bound_checkpoint_text byte_length newlines
bound_checkpoint_text-IsBounded value mb ml = elim (Bool-cases (mb == 0 || ml == 0)) [
  | inl closed ↦ rw closed (nothing-IsBounded value mb ml closed)
  | inr open_limits ↦
      rw open_limits (write_runes-IsBounded mb ml value 0 0 (omega arith) (omega arith))
]
