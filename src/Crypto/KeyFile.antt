-- ===== src/Crypto/KeyFile.antt =====
-- `readKeyFromFile` of src/crypto/utils.cpp. The file's content is an argument; `none` is a file
-- that cannot be opened.
pub mod Laws
use sec_search.Prelude.{
  ℕ, Bool, not, ◌&&◌, ◌||◌, [], ◌∷◌, Option, none, some, Bytes, length, Result, ok, throw, Error,
  throw_if, ◌>>=◌, ◌>>◌, ◌==◌, leb, if◌then◌else◌,
}
use sec_search.Crypto.Hex.{hex_to_bin}

-- `::isspace` in the C locale.
unfoldable pub is_space : ℕ → Bool
is_space c = c == 32 || (leb 9 c && leb c 13)

-- The loop over `getline`: the lines joined, without their ends.
read_lines : Bytes → Bytes
read_lines [] = []
read_lines (c ∷ s) = if c == 10 then read_lines s else c ∷ read_lines s

-- `erase(remove_if(…, ::isspace), …)`.
unfoldable pub strip : Bytes → Bytes
strip [] = []
strip (c ∷ s) = if is_space c then strip s else c ∷ strip s

-- The `catch` of the last step: any exception becomes "Invalid hex format in key file".
rethrow : Result Bytes → Result Bytes
rethrow (ok key) = ok key
rethrow (throw e) = throw Error.invalid_key_file_format

-- The last step, inside its `try`.
decode_key : Bytes → Result Bytes
decode_key content = do
  key_bytes ← hex_to_bin content
  throw_if (not (length key_bytes == 16)) Error.invalid_key_file_length
  ok key_bytes

pub read_key_from_file : Option Bytes → Result Bytes
unfolding read_lines rethrow decode_key
read_key_from_file none = throw Error.cannot_open_key_file
read_key_from_file (some file) = do
  let content = strip (read_lines file)
  throw_if (length content == 0) Error.key_file_empty
  throw_if (not (length content == 32)) Error.invalid_key_file_length
  rethrow (decode_key content)
