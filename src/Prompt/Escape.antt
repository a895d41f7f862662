-- ===== src/Prompt/Escape.antt =====
-- What pinentry reads back from a text that src/prompt.rs escapes.
use f2ido.Prelude.{
  ℕ, ◌≡◌, ◌≢◌, refl, ap, ◌∙◌, ◌++◌, arith, List, [], ◌∷◌, ◌==◌, All, if◌then◌else◌, ◌&&◌,
}
use f2ido.Prompt.{escape_string}

-- The reader of pinentry's protocol, for the one escape that the source writes: `%0A` is a newline.
abbrev pub unescape : List ℕ → List ℕ
unescape [] = []
unescape (a ∷ []) = a ∷ []
unescape (a ∷ b ∷ []) = a ∷ b ∷ []
unescape (a ∷ b ∷ c ∷ s) =
    if (a == 37) && (b == 48) && (c == 65) then 10 ∷ unescape s else a ∷ unescape (b ∷ c ∷ s)

-- An escaped text has no newline in it.
pub escape_string-one_line : (s : List ℕ) → All (λ c. c ≢ 10) (escape_string s)
unfolding escape_string
escape_string-one_line [] = tt
escape_string-one_line (c ∷ s) = ground (arith, escape_string-one_line s)

unescape-cons : (a : ℕ) (s : List ℕ) → a ≢ 37 → unescape (a ∷ s) ≡ a ∷ unescape s
unescape-cons a [] h = refl
unescape-cons a (b ∷ []) h = refl
unescape-cons a (b ∷ c ∷ s) h = ground arith

unescape_escaped : (s : List ℕ) → All (λ c. c ≢ 37) s → unescape (escape_string s) ≡ s
unfolding escape_string
unescape_escaped [] h = refl
unescape_escaped (c ∷ s) h =
    ground (arith, unescape_escaped s h.1, unescape-cons c (escape_string s) h.0)

-- The protocol has one command on each line: the reader stops at the first newline.
abbrev pub split_line : List ℕ → List ℕ × List ℕ
split_line [] = ([], [])
split_line (c ∷ s) = let found = split_line s in if c == 10 then ([], s) else (c ∷ found.0, found.1)

abbrev pub read_line : List ℕ → List ℕ × List ℕ
read_line s = let found = split_line s in (unescape found.0, found.1)

split_line-append :
    (s rest : List ℕ) → All (λ c. c ≢ 10) s → split_line (s ++ 10 ∷ rest) ≡ (s, rest)
split_line-append [] rest h = refl
split_line-append (c ∷ s) rest h = ground (arith, split_line-append s rest h.1)

-- A text without a percent sign, escaped and sent on a line of its own, is read back from the line
-- up to the first newline, with its own newlines in it, and what follows the line is left to read.
pub read_line-escape_string :
    (s rest : List ℕ) → All (λ c. c ≢ 37) s → read_line (escape_string s ++ 10 ∷ rest) ≡ (s, rest)
read_line-escape_string s rest h =
    ap (λ (r : List ℕ × List ℕ). (unescape r.0, r.1))
      (split_line-append (escape_string s) rest (escape_string-one_line s))
    ∙ ap (λ (x : List ℕ). (x, rest)) (unescape_escaped s h)
