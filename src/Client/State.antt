-- ===== src/Client/State.antt =====
-- The state of a client.
use quic_ruby.Base.{Bool, ℕ, List}
use quic_ruby.Client.Objects.{Objects}

-- `quic_client_t` with its Ruby instance variables. `bound` says that @sock is set, and `sent` holds
-- the datagrams given to `@sock.send`, oldest first.
pub record Client (Conn : Type 0) : Type 0 where
  pub conn : Conn
  pub objects : Objects
  pub bound : Bool
  pub sent : List (List ℕ)

-- Client#bind of lib/quic/connection.rb, with a socket or with nil.
abbrev pub bind : {Conn : Type 0} → Client Conn → Bool → Client Conn
bind c is_socket = record c { bound = is_socket }
