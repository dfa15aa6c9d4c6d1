-- ===== src/Json/Bytes.antt =====
-- Byte classes of <ctype.h> in the C locale, and the character sets of the tokenizer.
use jev_bush.Prelude.{ℕ, Bool, ◌&&◌, ◌||◌, leb, ◌==◌}

-- `isspace`.
abbrev pub is_space : ℕ → Bool
is_space c = c == b' ' || (leb 9 c && leb c 13)

-- `isdigit`.
abbrev pub is_digit : ℕ → Bool
is_digit c = leb b'0' c && leb c b'9'

-- `isxdigit`.
abbrev pub is_xdigit : ℕ → Bool
is_xdigit c = is_digit c || (leb b'a' c && leb c b'f') || (leb b'A' c && leb c b'F')

-- `strchr(",]}:", c)`, which finds the terminator too.
abbrev pub ends_primitive : ℕ → Bool
ends_primitive c = c == b',' || c == b']' || c == b'}' || c == b':' || c == 0

-- `c && strchr("\"\\/bfnrt", c)`.
abbrev pub is_escape : ℕ → Bool
is_escape c =
    c == b'"'
    || c == b'\\'
    || c == b'/'
    || c == b'b'
    || c == b'f'
    || c == b'n'
    || c == b'r'
    || c == b't'
