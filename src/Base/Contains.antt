-- ===== src/Base/Contains.antt =====
-- `part in text` for two texts.
use Prim.Native.String.{String, [], ◌∷◌}
use mathlib.Core.Bool.{Bool, true, false, ◌&&◌, ◌||◌}
use Prim.Native.Char.{code}
use quaestor.Base.Tests.{eqb}

unfoldable pub starts_with : String → String → Bool
starts_with text [] = true
starts_with [] (d ∷ part) = false
starts_with (c ∷ text) (d ∷ part) = eqb (code c) (code d) && starts_with text part

unfoldable pub contains : String → String → Bool
contains part [] = starts_with [] part
contains part (c ∷ text) = starts_with (c ∷ text) part || contains part text
