-- ===== src/Clib/Text.antt =====
-- C strings as lists of bytes.
use zephyr_xenlib.Prelude.{ℕ, ◌<◌, List, [], ◌∷◌}

-- A list of bytes without a NUL.
abbrev pub IsText : List ℕ → Type 0
IsText [] = Unit
IsText (c ∷ cs) = (0 < c) × IsText cs
