-- ===== src/Prelude/Text.antt =====
-- Texts: the code points of a `String`, and what `str` offers on them in the standard library.
use Prim.Native.Nat.{ℕ, ◌+◌}
use Prim.Native.Char.{code}
use Prim.Native.String.{String}
use mathlib.Core.Bool.{Bool, true, false, ◌&&◌, ◌||◌}
use mathlib.Core.List.{List, [], ◌∷◌}
use text.Mathlib.Text.{◌==◌ as str_eq}
use smspool_sdk.Prelude.Tests.{leb, ◌==◌, if◌then◌else◌}
use smspool_sdk.Prelude.Lists.{all}

abbrev pub same_text : String → String → Bool
same_text s t = str_eq s t

abbrev pub codes : String → List ℕ
codes String.[] = []
codes (String.◌∷◌ c s) = code c ∷ codes s

-- `str::is_empty`.
abbrev pub is_empty : String → Bool
is_empty String.[] = true
is_empty (String.◌∷◌ c s) = false

-- `u8::to_ascii_lowercase`; a code point outside ASCII stays.
abbrev pub to_ascii_lowercase : ℕ → ℕ
to_ascii_lowercase c = if leb b'A' c && leb c b'Z' then c + 32 else c

abbrev same_codes : List ℕ → List ℕ → Bool
same_codes [] [] = true
same_codes (a ∷ s) (b ∷ t) = (to_ascii_lowercase a == to_ascii_lowercase b) && same_codes s t
same_codes _ _ = false

-- `str::eq_ignore_ascii_case`.
abbrev pub eq_ignore_ascii_case : String → String → Bool
eq_ignore_ascii_case s t = same_codes (codes s) (codes t)

-- `char::is_whitespace`, the Unicode property White_Space.
abbrev pub is_whitespace : ℕ → Bool
is_whitespace c =
    (leb 0x9 c && leb c 0xd)
    || (c == 0x20)
    || (c == 0x85)
    || (c == 0xa0)
    || (c == 0x1680)
    || (leb 0x2000 c && leb c 0x200a)
    || (c == 0x2028)
    || (c == 0x2029)
    || (c == 0x202f)
    || (c == 0x205f)
    || (c == 0x3000)

-- `s.trim().is_empty()`.
abbrev pub is_blank : String → Bool
is_blank s = all is_whitespace (codes s)
