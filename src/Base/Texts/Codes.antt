-- ===== src/Base/Texts/Codes.antt =====
-- The code points of a text of the language.
use Prim.Native.String.{String, [], ◌∷◌}
use Prim.Native.Char.{code}
use mathlib.Core.List.{[] as []ᴸ, ◌∷◌ as ◌∷ᴸ◌}
use cloud_devenv_sh.Base.Texts.{Text}

abbrev pub codes : String → Text
codes [] = []ᴸ
codes (c ∷ s) = code c ∷ᴸ codes s
