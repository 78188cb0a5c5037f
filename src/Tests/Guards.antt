-- ===== src/Tests/Guards.antt =====
-- Arguments, repeated closes, retried calls and waits, at concrete inputs.
use quic_ruby.Base.{ℕ, pos, ◌≡◌, ◌⊎◌, refl, true, false, none, some, List, [], ◌∷◌, ◌++◌}
use quic_ruby.Ruby.{Value, integer, string, ascii_8bit, Kwargs}
use quic_ruby.Stream.{stream_new}
use quic_ruby.Client.State.{Client}
use quic_ruby.Client.Packets.{read_pkt}
use quic_ruby.Client.Packets.Arguments.{Admits, read_pkt-Admits}
use quic_ruby.Client.Close.Repeated.{closes, EntersClosing, closes-SendOnce}
use quic_ruby.Client.Io.Rescue.{RetriesWaits, nonblock-RetriesWaits}
use quic_ruby.Client.Pump.Timeout.{IsShortest, pump_timeout-IsShortest}
use quic_ruby.Tests.Peer.{peer, numeric}

abbrev client : Client ℕ
client = record {
  conn = 0;
  objects = record { cell = λ r. stream_new 0; next = 1; streams = (0, 0) ∷ []; accept_queue = [] };
  bound = true;
  sent = [];
}

abbrev addresses : Kwargs
addresses = some (
    ("local_sockaddr", string ascii_8bit (1 ∷ []))
    ∷ ("remote_sockaddr", string ascii_8bit (2 ∷ []))
    ∷ [])

abbrev packet : Value
packet = string ascii_8bit (9 ∷ [])

read_pkt-Admits_example :
    Admits peer client packet addresses false 7 (read_pkt peer client packet addresses false 7)
read_pkt-Admits_example = read_pkt-Admits peer client packet addresses false 7

-- The peer's connection is 101 after a CONNECTION_CLOSE, and closing above 100.
peer-EntersClosing : EntersClosing peer
peer-EntersClosing conn code reason now h = refl

abbrev calls : List (Kwargs × ℕ)
calls = (none, 7) ∷ (none, 8) ∷ []

closes-SendOnce_example :
    ((closes peer numeric client calls).sent ≡ [])
    ⊎ ((packet : List ℕ) × ((closes peer numeric client calls).sent ≡ [] ++ packet ∷ []))
closes-SendOnce_example = closes-SendOnce peer numeric peer-EntersClosing client calls

nonblock-RetriesWaits_example :
    RetriesWaits peer client 0 numeric (integer (pos 4)) ascii_8bit (1 ∷ []) none
nonblock-RetriesWaits_example =
    nonblock-RetriesWaits peer client 0 numeric (integer (pos 4)) 4 ascii_8bit (1 ∷ []) none refl

pump_timeout-IsShortest_example : IsShortest peer client (some 5) 7
pump_timeout-IsShortest_example = pump_timeout-IsShortest peer client (some 5) 7
