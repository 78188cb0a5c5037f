-- ===== src/Client/Packets/Buffers.antt =====
-- The Strings that #write_pkt and #read_pkt share with their caller.
use quic_ruby.Base.{ℕ, ◌≡◌, Bool, Option, none, some, List, [], arith}
use quic_ruby.Ruby.{Value, string, ascii_8bit, Result, ok, raise, Kwargs}
use quic_ruby.Ngtcp2.{Ngtcp2}
use quic_ruby.Client.State.{Client}
use quic_ruby.Client.Packets.{write_into, write_pkt, check_buffer, require_binary, read_pkt}

-- The packet that a result holds; no byte where there is none.
abbrev pub packet_of : Result (Option (List ℕ)) → List ℕ
packet_of (ok none) = []
packet_of (ok (some packet)) = packet
packet_of (raise e) = []

module _ {Conn : Type 0} (n : Ngtcp2 Conn) (c : Client Conn) (now : ℕ) where
  -- A binary String given to #write_pkt holds afterwards the packet that the call returns, and is
  -- empty where the call returns nil or raises, whatever it held before.
  pub write_pkt-buffer :
      (old : List ℕ)
      → (write_pkt n c (string ascii_8bit old) now).buffer
        ≡ packet_of (write_pkt n c (string ascii_8bit old) now).result
  unfolding write_pkt write_into check_buffer require_binary
  write_pkt-buffer old = ground arith

  -- #read_pkt leaves the lock of the packet String as it was, on every way out.
  pub read_pkt-locked :
      (packet : Value) (opts : Kwargs) (locked : Bool)
      → (read_pkt n c packet opts locked now).locked ≡ locked
  unfolding read_pkt
  read_pkt-locked packet opts locked = ground arith
