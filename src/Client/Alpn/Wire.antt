-- ===== src/Client/Alpn/Wire.antt =====
-- The ALPN wire format: its size, its reading back, and how large it can get.
use mathlib.Core.Option
use quic_ruby.Base.{
  ℕ, zero, suc, ◌+◌, ◌*◌, ◌/◌, ◌≤◌, ◌<◌, ◌≡◌, ◌^◌, ◌%◌, refl, ap, ◌∙◌, ◌⊎◌, inl, inr, Option, none,
  some, List, [], ◌∷◌, ◌++◌, ◌||◌, map, arith, length, take, drop, All, u64_mod, add64, ltb, ◌==◌,
  if◌then◌else◌, length-append, drop-length_append,
}
use quic_ruby.Ruby.{Value, string, ascii_8bit, ok, raise, type_error, check_string}
use quic_ruby.Client.Alpn.{alpn_total, alpn_wire, entry_bytes}

-- The reading of RFC 7301, section 3.1: a list of names, each of 1 to 255 bytes behind its length.
unfoldable pub parse_alpn : ℕ → List ℕ → Option (List (List ℕ))
parse_alpn fuel [] = some []
parse_alpn zero (len ∷ rest) = none
parse_alpn (suc fuel) (len ∷ rest) =
    let more = parse_alpn fuel (drop len rest) in
    if len == 0 || ltb (length rest) len
    then none
    else Option.map (λ names. take len rest ∷ names) more

-- A String of 1 to 255 bytes.
abbrev IsEntry : Value → Type 0
IsEntry v =
    (check_string v ≡ ok (entry_bytes v))
    × (1 ≤ length (entry_bytes v))
    × (length (entry_bytes v) ≤ 255)

take-length_append : (xs ys : List ℕ) → take (length xs) (xs ++ ys) ≡ xs
take-length_append [] ys = refl
take-length_append (x ∷ xs) ys = ap (λ r. x ∷ r) (take-length_append xs ys)

check_string-cases :
    (v : Value) → (check_string v ≡ ok (entry_bytes v)) ⊎ (check_string v ≡ raise type_error)
unfolding entry_bytes
check_string-cases (string e bytes) = inl refl
check_string-cases v = inr refl

alpn_total-step :
    (t total : ℕ) (v : Value) (rest : List Value)
    → alpn_total t (v ∷ rest) ≡ ok total
    → IsEntry v × (alpn_total (add64 t (1 + length (entry_bytes v))) rest ≡ ok total)
unfolding alpn_total
alpn_total-step t total v rest e = ground (arith, check_string-cases v)

length-wire :
    (v : Value) (rest : List Value)
    → length (alpn_wire (v ∷ rest)) ≡ 1 + length (entry_bytes v) + length (alpn_wire rest)
unfolding alpn_wire
length-wire v rest = omega (arith, length-append (entry_bytes v) (alpn_wire rest))

-- The first loop accepts only entries of 1 to 255 bytes, and counts the bytes of the second loop.
alpn_total-wire :
    (t total : ℕ) (entries : List Value)
    → alpn_total t entries ≡ ok total
    → t + length (alpn_wire entries) < u64_mod
    → All IsEntry entries × (total ≡ t + length (alpn_wire entries))
alpn_total-wire t total [] e h = unfold alpn_total alpn_wire in (tt, ground arith)
alpn_total-wire t total (v ∷ rest) e h =
    let (entry, more) = alpn_total-step t total v rest e in
    let no_wrap : add64 t (1 + length (entry_bytes v)) ≡ t + (1 + length (entry_bytes v)) =
      omega (arith, length-wire v rest) in
    let (entries, sum) =
      alpn_total-wire (add64 t (1 + length (entry_bytes v))) total rest more
        (omega (arith, no_wrap, length-wire v rest)) in
    ((entry, entries), omega (arith, sum, no_wrap, length-wire v rest))

parse_alpn-wire :
    (entries : List Value)
    → All IsEntry entries
    → parse_alpn (length entries) (alpn_wire entries) ≡ some (map entry_bytes entries)
unfolding parse_alpn alpn_wire
parse_alpn-wire [] h = refl
parse_alpn-wire (v ∷ rest) h =
    let small : length (entry_bytes v) % 256 ≡ length (entry_bytes v) = omega arith in
    rw
      (
        small,
        drop-length_append (entry_bytes v) (alpn_wire rest),
        take-length_append (entry_bytes v) (alpn_wire rest),
        parse_alpn-wire rest h.1,
      )
      (ground (arith, length-append (entry_bytes v) (alpn_wire rest)))

-- The buffer is filled exactly, and a reader of RFC 7301 gets the names back in order: the loops of
-- quic_client_open agree on the size, for every list of entries that the first one accepts and whose
-- wire format is shorter than 2^64 bytes.
pub alpn_wire-parses :
    (entries : List Value) (total : ℕ)
    → alpn_total 0 entries ≡ ok total
    → length (alpn_wire entries) < u64_mod
    → (length (alpn_wire entries) ≡ total)
      × (parse_alpn (length entries) (alpn_wire entries) ≡ some (map entry_bytes entries))
alpn_wire-parses entries total e h =
    let (good, sum) = alpn_total-wire 0 total entries e (omega arith) in
    (omega (arith, sum), parse_alpn-wire entries good)

abbrev pub one_byte_names : ℕ → List Value
one_byte_names zero = []
one_byte_names (suc k) = string ascii_8bit (104 ∷ []) ∷ one_byte_names k

alpn_total-names :
    (t k : ℕ) → t + 2 * k < u64_mod → alpn_total t (one_byte_names k) ≡ ok (t + 2 * k)
unfolding alpn_total
alpn_total-names t zero h = ap ok (omega arith)
alpn_total-names t (suc k) h =
    let no_wrap : add64 t 2 ≡ t + 2 = omega arith in
    rw no_wrap (alpn_total-names (t + 2) k (omega arith) ∙ ap ok (omega arith))

-- For every bound below 2^63 there are entries that the first loop accepts with a larger size of
-- the stack buffer.
pub alpn_total-unbounded :
    (bound : ℕ)
    → bound < 2 ^ 63
    → (entries : List Value) × (total : ℕ) × (alpn_total 0 entries ≡ ok total) × (bound < total)
alpn_total-unbounded bound h = (
  one_byte_names (bound / 2 + 1),
  0 + 2 * (bound / 2 + 1),
  alpn_total-names 0 (bound / 2 + 1) (omega arith),
  omega arith,
)
