-- ===== src/Store/Names.antt =====
-- internal/pki/pki.go, `CheckName`: the one rule for every name that ovcp stores.
use ovcp.Base.{[], ℕ, Bool, true, ◌&&◌, ◌||◌, ◌∷◌, leb, within, ◌==◌, Text, length}

abbrev pub max_cn_len : ℕ
max_cn_len = 64

-- One byte of the class [A-Za-z0-9._@-].
unfoldable pub is_name_byte : ℕ → Bool
is_name_byte c =
    within b'A' b'Z' c
    || within b'a' b'z' c
    || within b'0' b'9' c
    || c == b'.'
    || c == b'_'
    || c == b'@'
    || c == b'-'

unfoldable pub all_name_bytes : Text → Bool
all_name_bytes [] = true
all_name_bytes (c ∷ cs) = is_name_byte c && all_name_bytes cs

-- Whether `CheckName` accepts: ^[A-Za-z0-9._@-]{1,64}$
unfoldable pub check_name : Text → Bool
check_name s = leb 1 (length s) && leb (length s) max_cn_len && all_name_bytes s
