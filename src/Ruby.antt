-- ===== src/Ruby.antt =====
-- What ext/quic uses of the Ruby runtime: values, encodings, raised exceptions, keyword arguments.
-- The subclasses of Quic::Error are those that `Init_quic` of ext/quic/quic.c declares.
pub mod Hash
use Prim.Native.String.{String}
use text.Mathlib.Text.{◌==◌ as str_eq}
use quic_ruby.Base.{
  ◌≡◌, refl, ◌⊎◌, inl, inr, ℕ, ℤ, Bool, true, false, Option, none, some, List, [], ◌∷◌,
  if◌then◌else◌,
}

pub data Encoding : Type 0 where
  ascii_8bit other_encoding : Encoding

-- The kinds of object that the extension tells apart; `object` is any other.
pub data Value : Type 0 where
  nil : Value
  boolean : Bool → Value
  integer : ℤ → Value
  symbol : String → Value
  string : Encoding → List ℕ → Value
  object : Value

pub data ErrorClass : Type 0 where
  proto drop_conn retry closed crypto_error handshake_timeout flow_control unknown : ErrorClass
  wait_readable wait_writable stream_closed stream_reset not_bound : ErrorClass

-- A raised exception: a subclass of Quic::Error with its `@code`, or one of Ruby's own classes.
pub data Exception : Type 0 where
  quic : ErrorClass → Option ℤ → Exception
  arg_error type_error range_error runtime_error eof_error no_method_error : Exception

pub data Result {ℓ} (A : Type ℓ) : Type ℓ where
  ok : A → Result A
  raise : Exception → Result A

infixl 5 ◌>>=◌ ◌>>◌
abbrev pub ◌>>=◌ {ℓ κ} : {A : Type ℓ} {B : Type κ} → Result A → (A → Result B) → Result B
ok a >>= f = f a
raise e >>= f = raise e

abbrev pub ◌>>◌ {ℓ} : {B : Type ℓ} → Result (Unit {0}) → Result B → Result B
m >> k = m >>= λ _. k

pub Result-cases {ℓ} :
    {A : Type ℓ} (r : Result A) → ((a : A) × (r ≡ ok a)) ⊎ ((e : Exception) × (r ≡ raise e))
Result-cases (ok a) = inl (a, refl)
Result-cases (raise e) = inr (e, refl)

-- RTEST
abbrev pub rtest : Value → Bool
rtest nil = false
rtest (boolean b) = b
rtest (integer z) = true
rtest (symbol s) = true
rtest (string e bytes) = true
rtest object = true

abbrev pub is_nil : Value → Bool
is_nil nil = true
is_nil (boolean b) = false
is_nil (integer z) = false
is_nil (symbol s) = false
is_nil (string e bytes) = false
is_nil object = false

-- Check_Type(v, T_STRING), with the bytes of the String.
abbrev pub check_string : Value → Result (List ℕ)
check_string (string e bytes) = ok bytes
check_string nil = raise type_error
check_string (boolean b) = raise type_error
check_string (integer z) = raise type_error
check_string (symbol s) = raise type_error
check_string object = raise type_error

-- The keyword arguments of a call; `none` where the call has none, and `opts` stays nil.
abbrev pub Kwargs : Type 0
Kwargs = Option (List (String × Value))

-- rb_hash_aref on the keywords: nil for a missing key.
unfoldable pub keyword : String → List (String × Value) → Value
keyword k [] = nil
keyword k ((j, v) ∷ opts) = if str_eq j k then v else keyword k opts

-- The integer conversions of the C API: NUM2LONG and NUM2ULL.
pub record Numeric : Type 0 where
  pub num2long : Value → Result ℤ
  pub num2ull : Value → Result ℕ
