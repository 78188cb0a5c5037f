-- ===== src/Client/Open/Succeeds.antt =====
-- What a call of quic_client_open of ext/quic/connection_client.c that returns a client has passed.
use quic_ruby.Base.{
  ℕ, pos, ◌≡◌, subst₂, Bool, true, false, Option, none, some, List, [], ◌∷◌, ◌||◌, arith, length,
  int_eq, is_zero, ◌==◌, ◌%◌, ◌^◌, if◌then◌else◌,
}
use quic_ruby.Ruby.{Value, ok, Numeric}
use quic_ruby.Client.Alpn.{alpn_total, alpn_wire}
use quic_ruby.Client.Config.{
  NativeSettings, TransportParams, check_array, fill_settings, fill_transport_params,
}
use quic_ruby.Client.Rand.{Cid}
use quic_ruby.Client.Setup.{
  Setup, OpenKwargs, OpenArgs, Libraries, require, conn_handle, ssl_handle, ssl_ctx_handle,
}
use quic_ruby.Client.Open.Sequence.{bind-inv, then-inv, lift-inv}
use quic_ruby.Client.Open.Steps.{
  id_of, new_ssl_ctx-inv, new_ssl-inv, draw_cid-inv, new_conn-inv, set_alpn-inv, set_entries-inv,
}
use quic_ruby.Client.Open.{build, check_open, c_string}

module _ {Conn : Type 0} (lib : Libraries Conn) where
  module _ (num : Numeric) (k : Option OpenKwargs) (now : ℕ) (initialized : Bool) where
    -- The call passes its checks, each library call succeeds, and the fields of the Data objects
    -- convert.
    pub record Succeeds : Type 0 where
      pub args : OpenArgs
      pub settings : NativeSettings
      pub params : TransportParams ℕ
      pub alpn_entries : List Value
      pub alpn_len : ℕ
      pub checked : check_open k ≡ ok args
      pub crypto : (initialized || is_zero lib.crypto_quictls_init) ≡ true
      pub context : lib.ssl_ctx_new ≡ true
      pub configured : is_zero lib.configure_client_context ≡ true
      pub session : lib.ssl_new ≡ true
      pub alpn_array : check_array args.settings.alpn ≡ ok alpn_entries
      pub alpn_valid : alpn_total 0 alpn_entries ≡ ok alpn_len
      pub alpn_set :
          (length alpn_entries == 0) ≡ false
          → is_zero (lib.set_alpn_protos (alpn_wire alpn_entries) (alpn_len % 2 ^ 32)) ≡ true
      pub scid_drawn : int_eq lib.rand_bytes_scid.0 (pos 1) ≡ true
      pub dcid_drawn : int_eq lib.rand_bytes_dcid.0 (pos 1) ≡ true
      pub settings_filled : fill_settings num args.settings now ≡ ok settings
      pub params_filled : fill_transport_params num args.transport_params ≡ ok params
      pub connected :
          is_zero
            (lib.conn_client_new
              (id_of lib lib.rand_bytes_dcid)
              (id_of lib lib.rand_bytes_scid)
              args.path
              settings
              params).0
          ≡ true

    -- The connection that ngtcp2 has made.
    abbrev pub connection : Succeeds → Conn
    connection s =
        (lib.conn_client_new (id_of lib lib.rand_bytes_dcid) (id_of lib lib.rand_bytes_scid)
          s.args.path s.settings s.params).1

    -- The pointers and the TLS session of the client that is returned.
    abbrev pub ready : Succeeds → Setup
    ready s = record {
      crypto_initialized = true;
      conn = true;
      ssl = true;
      ssl_ctx = true;
      acquired = conn_handle ∷ ssl_handle ∷ ssl_ctx_handle ∷ [];
      tls = record {
        host_name = some (c_string s.args.server_name);
        alpn_protos =
            if length s.alpn_entries == 0
            then none
            else some (alpn_wire s.alpn_entries, s.alpn_len % 2 ^ 32);
      };
    }

  module _ (num : Numeric) (k : Option OpenKwargs) (now : ℕ) (b : Bool) where
    -- The end of the call, from what its steps have asked.
    gather :
        (args : OpenArgs) (settings : NativeSettings) (params : TransportParams ℕ)
        (entries : List Value) (len : ℕ) (conn : Conn) (dcid scid : Cid)
        → check_open k ≡ ok args
        → (b || is_zero lib.crypto_quictls_init) ≡ true
        → lib.ssl_ctx_new ≡ true
        → is_zero lib.configure_client_context ≡ true
        → lib.ssl_new ≡ true
        → check_array args.settings.alpn ≡ ok entries
        → alpn_total 0 entries ≡ ok len
        → ((length entries == 0) ≡ false
            → is_zero (lib.set_alpn_protos (alpn_wire entries) (len % 2 ^ 32)) ≡ true)
        → (int_eq lib.rand_bytes_scid.0 (pos 1) ≡ true) × (scid ≡ id_of lib lib.rand_bytes_scid)
        → (int_eq lib.rand_bytes_dcid.0 (pos 1) ≡ true) × (dcid ≡ id_of lib lib.rand_bytes_dcid)
        → fill_settings num args.settings now ≡ ok settings
        → fill_transport_params num args.transport_params ≡ ok params
        → (is_zero (lib.conn_client_new dcid scid args.path settings params).0 ≡ true)
          × (conn ≡ (lib.conn_client_new dcid scid args.path settings params).1)
        → (s : Succeeds num k now b) × (conn ≡ connection num k now b s)
    gather args settings params entries len conn dcid scid checked crypto context configured session
          array total set scid_drawn dcid_drawn settings_filled params_filled made =
        (
          record {
            args = args;
            settings = settings;
            params = params;
            alpn_entries = entries;
            alpn_len = len;
            checked = checked;
            crypto = crypto;
            context = context;
            configured = configured;
            session = session;
            alpn_array = array;
            alpn_valid = total;
            alpn_set = set;
            scid_drawn = scid_drawn.0;
            dcid_drawn = dcid_drawn.0;
            settings_filled = settings_filled;
            params_filled = params_filled;
            connected = with_ids.0;
          },
          with_ids.1,
        )
      where
        with_ids :
            (is_zero
                (lib.conn_client_new
                  (id_of lib lib.rand_bytes_dcid)
                  (id_of lib lib.rand_bytes_scid)
                  args.path
                  settings
                  params).0
              ≡ true)
            × (conn
                ≡ (lib.conn_client_new
                    (id_of lib lib.rand_bytes_dcid)
                    (id_of lib lib.rand_bytes_scid)
                    args.path
                    settings
                    params).1)
        with_ids =
            subst₂
              (λ (d s : Cid).
                (is_zero (lib.conn_client_new d s args.path settings params).0 ≡ true)
                × (conn ≡ (lib.conn_client_new d s args.path settings params).1))
              dcid_drawn.1 scid_drawn.1 made

    pub build-Succeeds :
        (args : OpenArgs) (st end : Setup) (conn : Conn)
        → check_open k ≡ ok args
        → (b || is_zero lib.crypto_quictls_init) ≡ true
        → build lib num args now st ≡ (ok conn, end)
        → (s : Succeeds num k now b) × (conn ≡ connection num k now b s)
    unfolding build require
    build-Succeeds args st end conn checked crypto e =
        let (st1, context, e1) = then-inv _ _ e in
        let (st2, configured, e2) = then-inv _ _ e1 in
        let (st3, session, e3) = then-inv _ _ e2 in
        let (st4, named, e4) = then-inv _ _ e3 in
        let (st5, alpn, e5) = then-inv _ _ e4 in
        let (scid, st6, scid_drawn, e6) = bind-inv _ _ e5 in
        let (dcid, st7, dcid_drawn, e7) = bind-inv _ _ e6 in
        let (settings, st8, settings_filled, e8) = bind-inv _ _ e7 in
        let (params, st9, params_filled, e9) = bind-inv _ _ e8 in
        let (entries, array, wired) = set_alpn-inv lib args.settings.alpn st4 st5 alpn in
        let (len, total, set) = set_entries-inv lib entries st4 st5 wired in
        gather args settings params entries len conn dcid scid checked crypto
          (new_ssl_ctx-inv lib st st1 context) (ground arith) (new_ssl-inv lib st2 st3 session)
          array total set (draw_cid-inv lib lib.rand_bytes_scid st5 st6 scid scid_drawn)
          (draw_cid-inv lib lib.rand_bytes_dcid st6 st7 dcid dcid_drawn)
          (lift-inv _ settings_filled).0 (lift-inv _ params_filled).0
          (new_conn-inv lib dcid scid args.path settings params st9 end conn e9)
