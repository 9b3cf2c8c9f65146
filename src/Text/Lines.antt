-- ===== src/Text/Lines.antt =====
-- `str::lines`: a line ends at `\n` or `\r\n`; what follows the last end is a line if it is not empty.
use kapsaro.Base.{
  true, false, List, [], ◌∷◌, ◌++◌, ◌≡◌, ◌∙◌, refl, ap, arith, ◌==◌, Text, all, not, ◌&&◌,
  if◌then◌else◌, is_empty,
}
use mathlib.Core.List.{append_assoc, append-nil}

-- `strip_suffix('\r')`
unfoldable pub strip_cr : Text → Text
strip_cr [] = []
strip_cr (c ∷ []) = if c == b'\r' then [] else c ∷ []
strip_cr (c ∷ d ∷ s) = c ∷ strip_cr (d ∷ s)

unfoldable pub lines_from : Text → Text → List Text
unfolding strip_cr
lines_from current [] = if is_empty current then [] else current ∷ []
lines_from current (c ∷ s) = elim (c == b'\n') [
  | true ↦ strip_cr current ∷ lines_from [] s
  | false ↦ lines_from (current ++ c ∷ []) s
]

unfoldable pub lines : Text → List Text
unfolding lines_from
lines = lines_from []

-- No character of the text ends a line.
abbrev pub IsLine : Text → Type 0
IsLine s = all (λ c. not (c == b'\n') && not (c == b'\r')) s ≡ true

pub strip_cr-IsLine : (s : Text) → IsLine s → strip_cr s ≡ s
unfolding strip_cr
strip_cr-IsLine [] h = refl
strip_cr-IsLine (c ∷ []) h = ground arith
strip_cr-IsLine (c ∷ d ∷ s) h = ground (arith, strip_cr-IsLine (d ∷ s))

lines_from-append :
    (current s rest : Text)
    → IsLine s
    → lines_from current (s ++ b'\n' ∷ rest) ≡ strip_cr (current ++ s) ∷ lines_from [] rest
unfolding lines_from
lines_from-append current [] rest h = rw append-nil
lines_from-append current (c ∷ s) rest h =
    ground (arith, lines_from-append (current ++ c ∷ []) s rest, append_assoc current (c ∷ []) s)

-- A line written in front of a text is its first line.
pub lines-append : (s rest : Text) → IsLine s → lines (s ++ b'\n' ∷ rest) ≡ s ∷ lines rest
unfolding lines
lines-append s rest h =
    lines_from-append [] s rest h ∙ ap (λ l. l ∷ lines_from [] rest) (strip_cr-IsLine s h)
