-- ===== src/Client/Open.antt =====
-- quic_client_open, quic_client_alloc and quic_client_free of ext/quic/connection_client.c.
pub mod Balance
pub mod Sequence
pub mod Steps
pub mod Succeeds
pub mod Returns
use quic_ruby.Base.{
  ℕ, zero, suc, ℤ, pos, Bool, true, false, Option, none, some, List, [], ◌∷◌, ◌++◌, ◌||◌, length,
  if◌then◌else◌, is_zero, int_eq, ◌==◌, ◌%◌, ◌^◌,
}
use quic_ruby.Ruby
use quic_ruby.Ruby.{
  Value, Exception, Result, ok, raise, arg_error, type_error, runtime_error, check_string, is_nil,
  keyword, Numeric, Kwargs,
}
use quic_ruby.Errors.{Codes, raise_ngtcp2_error}
use quic_ruby.Ngtcp2.{SocketPath}
use quic_ruby.Stream.{stream_alloc}
use quic_ruby.Client.State.{Client}
use quic_ruby.Client.Packets.{require_binary}
use quic_ruby.Client.Alpn.{alpn_total, alpn_wire}
use quic_ruby.Client.Rand.{Cid, overwrite}
use quic_ruby.Client.Setup.{
  Handle, conn_handle, ssl_handle, ssl_ctx_handle, Setup, Tls, OpenKwargs, OpenArgs, Libraries, M,
  ◌>>=◌, ◌>>◌, lift, require,
}
use quic_ruby.Client.Config.{
  ArrayValue, check_array, TransportParams, Settings, NativeSettings, fill_transport_params,
  fill_settings,
}

-- The checks of the keywords.
unfoldable pub check_open : Option OpenKwargs → Result OpenArgs
unfolding require_binary
check_open none = raise arg_error
check_open (some k) = go k.transport_params k.settings
  where
    go : Option (TransportParams Value) → Option Settings → Result OpenArgs
    go none st = raise arg_error
    go (some tp) none = raise arg_error
    go (some tp) (some st) =
        if is_nil k.local_sockaddr || is_nil k.remote_sockaddr || is_nil k.server_name
        then raise arg_error
        else Ruby.◌>>=◌ (require_binary k.local_sockaddr) λ local_bytes.
          Ruby.◌>>=◌ (require_binary k.remote_sockaddr) λ remote_bytes.
            Ruby.◌>>=◌ (check_string k.server_name) λ name. ok (record {
              path = record { local_sockaddr = local_bytes; remote_sockaddr = remote_bytes };
              server_name = name;
              transport_params = tp;
              settings = st;
            })

-- The state of a client that was just opened.
unfoldable pub fresh_client : {Conn : Type 0} → Conn → Client Conn
unfolding stream_alloc
fresh_client conn = record {
  conn = conn;
  objects = record { cell = λ r. stream_alloc; next = 0; streams = []; accept_queue = [] };
  bound = false;
  sent = [];
}

-- RSTRING_PTR as a C string: it ends at the first NUL.
unfoldable pub c_string : List ℕ → List ℕ
c_string [] = []
c_string (zero ∷ rest) = []
c_string (suc b ∷ rest) = suc b ∷ c_string rest

unfoldable pub zeroed : ℕ → List ℕ
zeroed zero = []
zeroed (suc n) = 0 ∷ zeroed n

module _ {Conn : Type 0} (lib : Libraries Conn) where
  unfoldable pub init_crypto : M (Unit {0})
  init_crypto st =
      if st.crypto_initialized
      then (ok tt, st)
      else if is_zero lib.crypto_quictls_init
      then (ok tt, record st { crypto_initialized = true })
      else (raise runtime_error, st)

  unfoldable pub new_ssl_ctx : M (Unit {0})
  new_ssl_ctx st =
      if lib.ssl_ctx_new
      then (ok tt, record st { ssl_ctx = true; acquired = ssl_ctx_handle ∷ st.acquired })
      else (raise runtime_error, st)

  unfoldable pub new_ssl : M (Unit {0})
  new_ssl st =
      if lib.ssl_new
      then (ok tt, record st { ssl = true; acquired = ssl_handle ∷ st.acquired })
      else (raise runtime_error, st)

  -- SSL_set_tlsext_host_name, whose result is not looked at; it takes a C string.
  unfoldable pub set_host_name : List ℕ → M (Unit {0})
  set_host_name name st =
      (ok tt, record st { tls = record st.tls { host_name = some (c_string name) } })

  -- SSL_set_alpn_protos, told `len` bytes of `wire`.
  unfoldable pub set_alpn_protos : List ℕ → ℕ → M (Unit {0})
  set_alpn_protos wire len st =
      if is_zero (lib.set_alpn_protos wire len)
      then (ok tt, record st { tls = record st.tls { alpn_protos = some (wire, len) } })
      else (raise runtime_error, st)

  -- The entries of the Array, where it has one.
  unfoldable pub set_entries : List Value → M (Unit {0})
  set_entries entries = if length entries == 0 then lift (ok tt) else do
    total ← lift (alpn_total 0 entries)
    set_alpn_protos (alpn_wire entries) (total % 2 ^ 32)

  unfoldable pub set_alpn : ArrayValue → M (Unit {0})
  set_alpn alpn = lift (check_array alpn) >>= set_entries

  -- A connection id of 8 bytes in a zeroed `ngtcp2_cid`, of what RAND_bytes has answered.
  unfoldable pub draw_cid : ℤ × List ℕ → M Cid
  draw_cid drawn st =
      if int_eq drawn.0 (pos 1)
      then (ok (record { datalen = 8; bytes = overwrite (zeroed lib.max_cidlen) drawn.1 }), st)
      else (raise runtime_error, st)

  unfoldable pub new_conn : Cid → Cid → SocketPath → NativeSettings → TransportParams ℕ → M Conn
  unfolding raise_ngtcp2_error
  new_conn dcid scid path settings params st =
      let (rv, conn) = lib.conn_client_new dcid scid path settings params in
      if is_zero rv
      then (ok conn, record st { conn = true; acquired = conn_handle ∷ st.acquired })
      else (raise (raise_ngtcp2_error lib.codes rv), st)

  -- From the allocation of the client to its connection.
  unfoldable pub build : Numeric → OpenArgs → ℕ → M Conn
  build num args now = do
    new_ssl_ctx
    require (is_zero lib.configure_client_context) runtime_error
    new_ssl
    set_host_name args.server_name
    set_alpn args.settings.alpn
    scid ← draw_cid lib.rand_bytes_scid
    dcid ← draw_cid lib.rand_bytes_dcid
    settings ← lift (fill_settings num args.settings now)
    params ← lift (fill_transport_params num args.transport_params)
    new_conn dcid scid args.path settings params

  -- quic_client_open. `crypto_initialized` is the state before the call.
  unfoldable pub open_client : Numeric → Option OpenKwargs → ℕ → M (Client Conn)
  open_client num k now = do
    args ← lift (check_open k)
    init_crypto
    conn ← build num args now
    lift (ok (fresh_client conn))
