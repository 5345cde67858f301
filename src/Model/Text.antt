-- ===== src/Model/Text.antt =====
-- Texts as code points: the parts of Go's `strings` that internal/model uses.
use Prim.Native.Char.{code}
use backup_management_center.Common.{
  ℕ, ◌+◌, String, Bool, ◌&&◌, ◌||◌, List, [], ◌∷◌, nat_eq, string_eq, ◌==◌, leb, if◌then◌else◌,
  all_where,
}

abbrev pub codes : String → List ℕ
codes String.[] = []
codes (String.◌∷◌ c s) = code c ∷ codes s

-- `unicode.IsSpace`.
abbrev pub is_space : ℕ → Bool
is_space c =
    (leb 0x09 c && leb c 0x0d)
    || c == 0x20
    || c == 0x85
    || c == 0xa0
    || c == 0x1680
    || (leb 0x2000 c && leb c 0x200a)
    || c == 0x2028
    || c == 0x2029
    || c == 0x202f
    || c == 0x205f
    || c == 0x3000

-- `strings.TrimSpace(s) == ""`.
abbrev pub is_blank : String → Bool
is_blank s = all_where is_space (codes s)

-- `unicode.ToLower`, exact wherever the result is an ASCII character. Outside ASCII only U+0130
-- and U+212A have an ASCII result; any other character stays outside ASCII and is kept as it is.
abbrev pub to_lower : ℕ → ℕ
to_lower c =
    if leb b'A' c && leb c b'Z'
    then c + 32
    else if c == 0x130
    then b'i'
    else if c == 0x212a
    then b'k'
    else c
