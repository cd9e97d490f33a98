-- ===== src/Base/Text.antt =====
-- What the program uses of Go's package strings, over native texts.
use Prim.Native.String.{String, len, slice}
use mathlib.Core.Bool.{Bool, ◌||◌}
use text.Mathlib.Text.{◌==◌ as str_eq, starts_with as starts}
use enxame.Base.Tests.{if◌then◌else◌}

infix 50 ◌==◌
abbrev pub ◌==◌ : String → String → Bool
a == b = str_eq a b

-- strings.HasPrefix
abbrev pub has_prefix : String → String → Bool
has_prefix s p = starts s p

-- strings.HasSuffix: the suffix is what remains of the text at some position.
unfoldable pub has_suffix : String → String → Bool
has_suffix String.[] t = String.[] == t
has_suffix (String.◌∷◌ c s) t = String.◌∷◌ c s == t || has_suffix s t

-- strings.Contains: the text from some position on begins with the part.
unfoldable pub contains : String → String → Bool
contains String.[] t = starts String.[] t
contains (String.◌∷◌ c s) t = starts (String.◌∷◌ c s) t || contains s t

-- strings.TrimPrefix
unfoldable pub trim_prefix : String → String → String
trim_prefix s p = if starts s p then slice s (len p) (len s) else s
