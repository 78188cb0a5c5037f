-- ===== src/Client/New/Path.antt =====
-- The path of the connection that Client.new opens, and the path of the datagrams that Client#pump_once
-- reads (lib/quic/connection.rb).
use quic_ruby.Base.{ℕ, ◌≡◌, Bool, none, some}
use quic_ruby.Ruby.{ok, check_string, Numeric}
use quic_ruby.Ngtcp2.{SocketPath}
use quic_ruby.Client.State.{Client}
use quic_ruby.Client.Setup.{Libraries, Setup}
use quic_ruby.Client.Open.{fresh_client}
use quic_ruby.Client.Open.Succeeds.{Succeeds, connection, ready}
use quic_ruby.Client.New.{
  Resolver, NewKwargs, NewClient, PumpPath, open_kwargs, pump_path, pump_local_sockaddr,
  pump_remote_sockaddr,
}

-- Before the first turn.
abbrev pub no_path : PumpPath
no_path = record { pump_local_sockaddr = none; pump_remote_sockaddr = none }

module _ {Conn Addrinfo : Type 0} (res : Resolver Addrinfo) (lib : Libraries Conn) (num : Numeric)
    (k : NewKwargs) (now : ℕ) (b : Bool) where
  -- How a client was made, and the paths of its datagrams: the path of the connection, at the first
  -- turn on a socket that is connected to @remote_address, and at each later turn on any socket.
  pub record IsPinned (nc : NewClient Conn Addrinfo) (end : Setup) : Type 0 where
    pub any : Addrinfo
    pub succeeds : Succeeds lib num (some (open_kwargs res k nc.remote_address any)) now b
    pub made :
        nc.client
        ≡ fresh_client
            (connection lib num (some (open_kwargs res k nc.remote_address any)) now b succeeds)
    pub left : end ≡ ready lib num (some (open_kwargs res k nc.remote_address any)) now b succeeds
    pub named : check_string k.host ≡ ok succeeds.args.server_name
    pub memo : PumpPath
    pub first_turn : pump_path res no_path nc.remote_address ≡ ok (succeeds.args.path, memo)
    pub later_turn : (peer : Addrinfo) → pump_path res memo peer ≡ ok (succeeds.args.path, memo)

  abbrev path_of : Addrinfo → Addrinfo → SocketPath
  path_of remote any = record {
    local_sockaddr = res.to_sockaddr any;
    remote_sockaddr = res.to_sockaddr remote;
  }

  abbrev memo_of : Addrinfo → Addrinfo → PumpPath
  memo_of remote any = record {
    pump_local_sockaddr = some (res.to_sockaddr any);
    pump_remote_sockaddr = some (res.to_sockaddr remote);
  }
