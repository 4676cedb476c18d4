-- ===== src/Instance/Position.antt =====
-- cmd/next-server/main.go: the row and the column of a syntax error, in `run`. A text is a list of
-- bytes, and 10 is the line end.
use ne_xt_server.Base.{
  ℕ, ◌+◌, ◌-◌, ◌≤◌, ◌≡◌, refl, sym, ap₂, ◌∙◌, inl, inr, List, [], ◌∷◌, arith, ◌==◌, if◌then◌else◌,
  Bool-cases, length,
}

-- `strings.Count(prefix, "\n")`
abbrev pub count_line_ends : List ℕ → ℕ
count_line_ends [] = 0
count_line_ends (c ∷ cs) = (if c == 10 then 1 else 0) + count_line_ends cs

-- `strings.LastIndex(prefix, "\n") + 1`, which is 0 without a line end.
abbrev pub after_last_line_end : List ℕ → ℕ
after_last_line_end [] = 0
after_last_line_end (c ∷ cs) =
    let rest = after_last_line_end cs in if rest == 0 then (if c == 10 then 1 else 0) else rest + 1

-- The row and the column of what comes after the prefix; the column is that of the last byte read.
unfoldable pub row_column : List ℕ → ℕ × ℕ
row_column prefix = (count_line_ends prefix + 1, length prefix - after_last_line_end prefix)

-- Reading a text from a row and a column on.
abbrev pub read_on : ℕ × ℕ → List ℕ → ℕ × ℕ
read_on (row, column) [] = (row, column)
read_on (row, column) (c ∷ cs) =
    let next_row = read_on (row + 1, 0) cs in
    let next_column = read_on (row, column + 1) cs in if c == 10 then next_row else next_column

after_bound : (cs : List ℕ) → after_last_line_end cs ≤ length cs
after_bound [] = omega arith
after_bound (c ∷ cs) = ground (arith, after_bound cs)

no_line_end : (cs : List ℕ) → after_last_line_end cs ≡ 0 → count_line_ends cs ≡ 0
no_line_end [] h = refl
no_line_end (c ∷ cs) h = ground (arith, no_line_end cs)

read_on-row_column :
    (row column : ℕ) (cs : List ℕ)
    → read_on (row, column) cs ≡ (
      row + count_line_ends cs,
      (if after_last_line_end cs == 0 then column else 0) + (length cs - after_last_line_end cs),
    )
read_on-row_column row column [] = ground arith
read_on-row_column row column (c ∷ cs) =
    let bound = after_bound cs in
    elim (Bool-cases (c == 10)) [
      | inl e ↦ rw e (
          read_on-row_column (row + 1) 0 cs
          ∙ ap₂ (λ x y. (x, y)) (omega arith)
              (elim (Bool-cases (after_last_line_end cs == 0)) [
                | inl z ↦ rw z (ground arith)
                | inr z ↦ rw z (ground arith)
              ]))
      | inr e ↦ rw e (
          read_on-row_column row (column + 1) cs
          ∙ ap₂ (λ x y. (x, y)) (omega arith)
              (elim (Bool-cases (after_last_line_end cs == 0)) [
                | inl z ↦ rw z (ground arith)
                | inr z ↦ rw z (ground arith)
              ]))
    ]

-- The row and the column that are counted from the prefix at once are those that reading it byte by
-- byte from row 1 comes to.
pub row_column-read_on : (prefix : List ℕ) → row_column prefix ≡ read_on (1, 0) prefix
unfolding row_column
row_column-read_on prefix =
    ap₂ (λ x y. (x, y)) (omega arith)
      (elim (Bool-cases (after_last_line_end prefix == 0)) [
        | inl z ↦ rw z (omega arith)
        | inr z ↦ rw z (omega arith)
      ])
    ∙ sym (read_on-row_column 1 0 prefix)
