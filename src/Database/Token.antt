-- ===== src/Database/Token.antt =====
-- Heart/DataBaseSpace/accesstoken.h and accesstoken.cpp: the token of a session.
use qt_network_protocol.Prelude.{ℕ, List, [], Bool, ◌&&◌, length, ◌==◌, ltb, bytes_eq}

-- AccessToken: `duration` is the second at which it ends, `bytes` is `_data`.
pub record AccessToken : Type 0 where
  pub duration : ℕ
  pub bytes : List ℕ

-- The default constructor, and what `clear` leaves.
abbrev pub no_token : AccessToken
no_token = record { duration = 0; bytes = [] }

-- AccessToken::isValid at a time
unfoldable pub token_is_valid : ℕ → AccessToken → Bool
token_is_valid now t = ltb now t.duration && length t.bytes == 32

-- operator ==
unfoldable pub token_equal : AccessToken → AccessToken → Bool
token_equal t other = bytes_eq t.bytes other.bytes
