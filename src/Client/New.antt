-- ===== src/Client/New.antt =====
-- Client.new of lib/quic/connection.rb and the path that Client#pump_once gives #read_pkt, with the
-- defaults of lib/quic/transport_params.rb and lib/quic/settings.rb.
pub mod Path
use text.Mathlib.Text.{◌==◌ as str_eq}
use quic_ruby.Base.{ℕ, pos, Bool, false, Option, none, some, List, [], ◌∷◌, if◌then◌else◌}
use quic_ruby.Ruby
use quic_ruby.Ruby.{
  Value, nil, boolean, integer, symbol, string, ascii_8bit, other_encoding, Result, ok, raise,
  arg_error, no_method_error, Numeric,
}
use quic_ruby.Ngtcp2.{SocketPath}
use quic_ruby.Client.State.{Client}
use quic_ruby.Client.Config.{TransportParams, Settings, array}
use quic_ruby.Client.Setup.{OpenKwargs, Libraries, M, ◌>>=◌, lift}
use quic_ruby.Client.Open.{open_client}

-- Socket::AF_INET and Socket::AF_INET6.
pub data AddressFamily : Type 0 where
  inet inet6 : AddressFamily

-- `case address_family`; `none` leaves the choice to Addrinfo.udp.
unfoldable pub family_of : Value → Result (Option AddressFamily)
family_of nil = ok none
family_of (symbol s) =
    if str_eq s "inet"
    then ok (some AddressFamily.inet)
    else if str_eq s "inet6"
    then ok (some AddressFamily.inet6)
    else raise arg_error
family_of v = raise arg_error

-- Addrinfo of the socket library: two lookups of a host and a port, and the packed address.
pub record Resolver (Addrinfo : Type 0) : Type 0 where
  pub getaddrinfo : Value → Value → AddressFamily → Result (List Addrinfo)
  pub udp : Value → Value → Result Addrinfo
  pub to_sockaddr : Addrinfo → List ℕ

-- Array#first
unfoldable pub first : {A : Type 0} → List A → Option A
first [] = none
first (x ∷ rest) = some x

-- `"0.0.0.0"`
abbrev pub any_host : Value
any_host = string other_encoding (48 ∷ 46 ∷ 48 ∷ 46 ∷ 48 ∷ 46 ∷ 48 ∷ [])

-- TransportParams.default
unfoldable pub default_transport_params : TransportParams Value
default_transport_params = record {
  initial_max_stream_data_bidi_local = integer (pos 262_144);
  initial_max_stream_data_bidi_remote = integer (pos 262_144);
  initial_max_stream_data_uni = integer (pos 262_144);
  initial_max_data = integer (pos 1_048_576);
  initial_max_streams_bidi = integer (pos 100);
  initial_max_streams_uni = integer (pos 100);
  max_idle_timeout = integer (pos 30_000_000_000);
  active_connection_id_limit = integer (pos 7);
}

-- Settings.default
unfoldable pub default_settings : Settings
default_settings = record {
  cc_algo = symbol "cubic";
  initial_rtt = integer (pos 333_000_000);
  max_window = integer (pos 0);
  max_stream_window = integer (pos 0);
  handshake_timeout = integer (pos 10_000_000_000);
  no_pmtud = boolean false;
  alpn = array [];
}

-- `given || default`
unfoldable pub or_default : {A : Type 0} → Option A → A → A
or_default none default = default
or_default (some given) default = given

-- The keywords of Client.new; `none` for a Data object that is nil or missing.
pub record NewKwargs : Type 0 where
  pub host : Value
  pub port : Value
  pub address_family : Value
  pub transport_params : Option (TransportParams Value)
  pub settings : Option Settings

-- The client with @host, @port and @remote_address.
pub record NewClient (Conn Addrinfo : Type 0) : Type 0 where
  pub client : Client Conn
  pub host : Value
  pub port : Value
  pub remote_address : Addrinfo

-- @pump_local_sockaddr and @pump_remote_sockaddr, which the first turn sets.
pub record PumpPath : Type 0 where
  pub pump_local_sockaddr : Option (List ℕ)
  pub pump_remote_sockaddr : Option (List ℕ)

module _ {Addrinfo : Type 0} (res : Resolver Addrinfo) where
  -- The address of the peer; nil where the lookup finds none.
  unfoldable pub resolve : Value → Value → Option AddressFamily → Result (Option Addrinfo)
  resolve host port none = Ruby.◌>>=◌ (res.udp host port) λ address. ok (some address)
  resolve host port (some family) =
      Ruby.◌>>=◌ (res.getaddrinfo host port family) λ found. ok (first found)

  -- A method of nil is missing.
  unfoldable pub present : Option Addrinfo → Result Addrinfo
  present none = raise no_method_error
  present (some address) = ok address

  -- The keywords that are passed to `_open`.
  unfoldable pub open_kwargs : NewKwargs → Addrinfo → Addrinfo → OpenKwargs
  open_kwargs k remote any = record {
    local_sockaddr = string ascii_8bit (res.to_sockaddr any);
    remote_sockaddr = string ascii_8bit (res.to_sockaddr remote);
    server_name = k.host;
    transport_params = some (or_default k.transport_params default_transport_params);
    settings = some (or_default k.settings default_settings);
  }

  -- Client.new
  unfoldable pub new_client :
      {Conn : Type 0} → Libraries Conn → Numeric → NewKwargs → ℕ → M (NewClient Conn Addrinfo)
  new_client lib num k now = do
    family ← lift (family_of k.address_family)
    found ← lift (resolve k.host k.port family)
    remote ← lift (present found)
    any ← lift (res.udp any_host (integer (pos 0)))
    client ← open_client lib num (some (open_kwargs k remote any)) now
    lift (ok (record { client = client; host = k.host; port = k.port; remote_address = remote }))

  -- `@pump_local_sockaddr ||= ...`
  unfoldable pub pump_local_sockaddr : PumpPath → Result (List ℕ)
  pump_local_sockaddr p = elim p.pump_local_sockaddr [
    | some sockaddr ↦ ok sockaddr
    | none ↦ Ruby.◌>>=◌ (res.udp any_host (integer (pos 0))) λ any. ok (res.to_sockaddr any)
  ]

  -- `@pump_remote_sockaddr ||= ...`, of the address that the bound socket is connected to.
  unfoldable pub pump_remote_sockaddr : PumpPath → Addrinfo → List ℕ
  pump_remote_sockaddr p peer = elim p.pump_remote_sockaddr [
    | some sockaddr ↦ sockaddr
    | none ↦ res.to_sockaddr peer
  ]

  -- The path that a turn of Client#pump_once gives #read_pkt, and the two variables after it.
  unfoldable pub pump_path : PumpPath → Addrinfo → Result (SocketPath × PumpPath)
  pump_path p peer = Ruby.◌>>=◌ (pump_local_sockaddr p) λ local_bytes.
      let remote_bytes = pump_remote_sockaddr p peer in
      ok (
        record { local_sockaddr = local_bytes; remote_sockaddr = remote_bytes },
        record { pump_local_sockaddr = some local_bytes; pump_remote_sockaddr = some remote_bytes },
      )
