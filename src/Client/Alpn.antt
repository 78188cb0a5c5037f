-- ===== src/Client/Alpn.antt =====
-- The ALPN part of quic_client_open in ext/quic/connection_client.c: the checks of the entries, and
-- the wire format of RFC 7301.
pub mod Wire
use quic_ruby.Base.{ℕ, ◌+◌, ◌%◌, List, [], ◌∷◌, ◌++◌, ◌||◌, length, ltb, if◌then◌else◌, add64}
use quic_ruby.Ruby.{Value, Result, ok, raise, ◌>>=◌, arg_error, check_string}

-- The first loop: the size of the wire format, or the exception for a bad entry.
unfoldable pub alpn_total : ℕ → List Value → Result ℕ
alpn_total total [] = ok total
alpn_total total (entry ∷ rest) = check_string entry >>= λ bytes.
    let len = length bytes in
    let more = alpn_total (add64 total (1 + len)) rest in
    if ltb len 1 || ltb 255 len then raise arg_error else more

-- RSTRING_PTR and RSTRING_LEN of an entry that the first loop has checked.
unfoldable pub entry_bytes : Value → List ℕ
entry_bytes (Value.string e bytes) = bytes
entry_bytes v = []

-- The second loop: the length as an unsigned char, and the bytes.
unfoldable pub alpn_wire : List Value → List ℕ
unfolding entry_bytes
alpn_wire [] = []
alpn_wire (entry ∷ rest) =
    let bytes = entry_bytes entry in (length bytes % 256) ∷ bytes ++ alpn_wire rest
