-- ===== src/Contracts.antt =====
-- `is_hex_digest` of lirix/core/contracts.py.
use lirix.Prelude.{ℕ, Bool, ◌&&◌, ◌||◌, Text, strip, length, all, leb, ◌==◌}

-- A digit, or a letter that `lower` takes to one of a to f.
abbrev is_hex_char : ℕ → Bool
is_hex_char c =
    (leb b'0' c && leb c b'9') || (leb b'a' c && leb c b'f') || (leb b'A' c && leb c b'F')

-- The argument is `str(value or "")`.
unfoldable pub is_hex_digest : Text → Bool
unfolding strip
is_hex_digest value = let token = strip value in (length token == 64) && all is_hex_char token
