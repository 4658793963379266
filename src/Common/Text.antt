-- ===== src/Common/Text.antt =====
-- Text: the native `String` where the program only compares, and its characters where it walks them.
pub use Prim.Native.String.{String}
use Prim.Native.Nat.{ℕ, ◌+◌}
use Prim.Native.Char.{code}
use text.Mathlib.Text
use text.Mathlib.TextEquality.{eq_iff}
use mathlib.Core.Path.{◌≡◌}
use mathlib.Core.Logic.{◌↔◌}
use mathlib.Core.Bool.{Bool, true, ◌&&◌}
use mathlib.Core.List.{List, [], ◌∷◌}
use dsh_proxy.Common.Tests.{leb, if◌then◌else◌}

-- The code points of a text: its bytes, if it is ASCII.
abbrev pub codes : String → List ℕ
codes String.[] = []
codes (String.◌∷◌ c s) = code c ∷ codes s

-- `to_ascii_lowercase` of a byte.
unfoldable pub to_lower : ℕ → ℕ
to_lower c = if leb b'A' c && leb c b'Z' then c + 32 else c

-- Equality of texts.
unfoldable pub same_text : String → String → Bool
same_text s t = Text.◌==◌ s t

pub same_text-true : (s t : String) → (same_text s t ≡ true) ↔ (s ≡ t)
unfolding same_text
same_text-true s t = eq_iff s t
