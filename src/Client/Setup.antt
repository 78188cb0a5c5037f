-- ===== src/Client/Setup.antt =====
-- What a call of quic_client_open of ext/quic/connection_client.c works on: the objects of the C
-- libraries, the keywords, the answers of the libraries, and steps that end in a value or raise.
use quic_ruby.Base.{ℕ, ℤ, Bool, false, Option, none, List, [], ◌∷◌, ◌++◌, if◌then◌else◌}
use quic_ruby.Ruby.{Value, Exception, Result, ok, raise}
use quic_ruby.Errors.{Codes}
use quic_ruby.Ngtcp2.{SocketPath}
use quic_ruby.Client.Config.{TransportParams, Settings, NativeSettings}
use quic_ruby.Client.Rand.{Cid}

-- The objects of the C libraries that a client owns.
pub data Handle : Type 0 where
  conn_handle ssl_handle ssl_ctx_handle : Handle

-- What `c->ssl` has been told: the host name of the SNI extension, and the wire format of ALPN.
pub record Tls : Type 0 where
  pub host_name : Option (List ℕ)
  pub alpn_protos : Option (List ℕ × ℕ)

-- Which pointers of `quic_client_t` are set, and the process-wide `quic_crypto_initialized`.
-- `acquired` are the objects that the libraries have handed out, the newest first.
pub record Setup : Type 0 where
  pub crypto_initialized : Bool
  pub conn : Bool
  pub ssl : Bool
  pub ssl_ctx : Bool
  pub acquired : List Handle
  pub tls : Tls

-- The keywords of a call; `none` for a Data object that is nil or missing.
pub record OpenKwargs : Type 0 where
  pub local_sockaddr : Value
  pub remote_sockaddr : Value
  pub server_name : Value
  pub transport_params : Option (TransportParams Value)
  pub settings : Option Settings

-- The keywords after their checks.
pub record OpenArgs : Type 0 where
  pub path : SocketPath
  pub server_name : List ℕ
  pub transport_params : TransportParams Value
  pub settings : Settings

-- What LibreSSL and ngtcp2 answer in the course of one call. RAND_bytes answers with its result and
-- the bytes it has written; ngtcp2_conn_client_new is given dcid, scid, path, settings, parameters.
pub record Libraries (Conn : Type 0) : Type 0 where
  pub codes : Codes
  pub crypto_quictls_init : ℤ
  pub ssl_ctx_new : Bool
  pub configure_client_context : ℤ
  pub ssl_new : Bool
  pub set_alpn_protos : List ℕ → ℕ → ℤ
  pub max_cidlen : ℕ
  pub rand_bytes_scid : ℤ × List ℕ
  pub rand_bytes_dcid : ℤ × List ℕ
  pub conn_client_new : Cid → Cid → SocketPath → NativeSettings → TransportParams ℕ → ℤ × Conn

-- What the pointers hold is released by quic_client_free, in this order.
unfoldable pub quic_client_free : Setup → List Handle
quic_client_free st =
    (if st.conn then conn_handle ∷ [] else [])
    ++ (if st.ssl then ssl_handle ∷ [] else [])
    ++ (if st.ssl_ctx then ssl_ctx_handle ∷ [] else [])

-- A step of quic_client_open: it goes on or raises, and keeps what it has acquired.
abbrev pub M {ℓ} : Type ℓ → Type ℓ
M A = Setup → Result A × Setup

-- What goes on behind a step that has run.
unfoldable pub resume {ℓ κ} :
    {A : Type ℓ} {B : Type κ} → (A → Setup → Result B × Setup) → Result A × Setup → Result B × Setup
resume f (ok a, st) = f a st
resume f (raise e, st) = (raise e, st)

infixl 5 ◌>>=◌ ◌>>◌
unfoldable pub ◌>>=◌ {ℓ κ} : {A : Type ℓ} {B : Type κ} → M A → (A → M B) → M B
◌>>=◌ m f st = resume f (m st)

unfoldable pub ◌>>◌ {ℓ} : {B : Type ℓ} → M (Unit {0}) → M B → M B
m >> k = m >>= λ _. k

unfoldable pub lift {ℓ} : {A : Type ℓ} → Result A → M A
lift r st = (r, st)

-- rb_raise unless the test holds.
unfoldable pub require : Bool → Exception → M (Unit {0})
require b e st = (if b then ok tt else raise e, st)

-- Before a call: quic_client_alloc zeroes the pointers.
abbrev pub before_open : Bool → Setup
before_open crypto_initialized = record {
  crypto_initialized = crypto_initialized;
  conn = false;
  ssl = false;
  ssl_ctx = false;
  acquired = [];
  tls = record { host_name = none; alpn_protos = none };
}
