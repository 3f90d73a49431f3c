-- ===== src/Text.antt =====
-- JavaScript strings as lists of UTF-16 code units, with the functions that the command handling calls.
use Prim.Native.Char.{code}
use lfontes_nanoclaw.Prelude.{
  leb, ◌==◌, if◌then◌else◌, any, ℕ, ◌+◌, String, ◌≡◌, ◌↔◌, Bool, true, false, ◌&&◌, ◌||◌, Option,
  none, some, List, [], ◌∷◌, arith,
}

abbrev pub Text : Type 0
Text = List ℕ

abbrev pub between : ℕ → ℕ → ℕ → Bool
between lo hi c = leb lo c && leb c hi

-- What `\s` matches and `trim` strips.
unfoldable pub is_space : ℕ → Bool
is_space c =
    between 0x09 0x0d c
    || c == 0x20
    || c == 0xa0
    || c == 0x1680
    || between 0x2000 0x200a c
    || between 0x2028 0x2029 c
    || c == 0x202f
    || c == 0x205f
    || c == 0x3000
    || c == 0xfeff

unfoldable pub trim_start : Text → Text
trim_start [] = []
trim_start (c ∷ s) = if is_space c then trim_start s else c ∷ s

-- Drops the spaces at the end: a rest that is all spaces goes.
unfoldable pub trim_end : Text → Text
trim_end [] = []
trim_end (c ∷ s) = elim (trim_end s) [ [] ↦ if is_space c then [] else c ∷ [] | d ∷ r ↦ c ∷ d ∷ r ]

unfoldable pub trim : Text → Text
unfolding is_space trim_start trim_end
trim s = trim_end (trim_start s)

unfoldable pub starts_with : Text → Text → Bool
starts_with s [] = true
starts_with [] (p ∷ ps) = false
starts_with (c ∷ s) (p ∷ ps) = c == p && starts_with s ps

-- `s.split(/\s/)[0]`
unfoldable pub first_word : Text → Text
unfolding is_space
first_word [] = []
first_word (c ∷ s) = if is_space c then [] else c ∷ first_word s

-- `toLowerCase` on ASCII letters. The texts that it is compared with are ASCII and hold no k, whose
-- upper case is the only ASCII letter that another character is lowered to.
unfoldable pub to_lower : Text → Text
to_lower [] = []
to_lower (c ∷ s) = (if between b'A' b'Z' c then c + 32 else c) ∷ to_lower s

unfoldable pub text_eq : Text → Text → Bool
text_eq [] [] = true
text_eq (c ∷ s) (d ∷ t) = c == d && text_eq s t
text_eq _ _ = false

pub text_eq_iff : (s t : Text) → (text_eq s t ≡ true) ↔ (s ≡ t)
unfolding text_eq
text_eq_iff [] [] = ground arith
text_eq_iff [] (d ∷ t) = ground arith
text_eq_iff (c ∷ s) [] = ground arith
text_eq_iff (c ∷ s) (d ∷ t) = ground (arith, text_eq_iff s t)

-- The code units of a text literal, which is ASCII wherever it is used.
abbrev pub codes : String → Text
codes String.[] = []
codes (String.◌∷◌ c s) = code c ∷ codes s

unfoldable pub contains_text : List Text → Text → Bool
unfolding text_eq
contains_text set t = any (text_eq t) set

-- The content of a chat message, as `JSON.parse` reads it: an object, with its `text` if that is a
-- string, or text that does not parse.
pub data Content : Type 0 where
  json : Option Text → Content
  plain : Text → Content

-- `(parsed.text || '').trim()`, or the content itself where it does not parse.
unfoldable pub content_text : Content → Text
unfolding trim
content_text (json none) = []
content_text (json (some t)) = trim t
content_text (plain t) = trim t
