-- ===== src/Client/Pump.antt =====
-- The I/O loop that blocking calls drive, Client#pump_once of lib/quic/connection.rb, and the blocking
-- Stream#write of ext/quic/stream.c on top of it.
pub mod Waiting
pub mod Whole
pub mod Timeout
use quic_ruby.Base.{
  ℕ, zero, suc, Bool, true, false, Option, none, some, List, [], ◌∷◌, ◌++◌, not, length, ltb, ◌==◌,
  if◌then◌else◌,
}
use quic_ruby.Ruby.{Value, nil, Result, ok, raise, quic, ErrorClass, check_string, Kwargs}
use quic_ruby.Ngtcp2.{Ngtcp2, SocketPath}
use quic_ruby.Client.State.{Client}
use quic_ruby.Client.Packets.{write_pkt, read_pkt_body, handle_expiry, is_handshake_completed}
use quic_ruby.Client.Io.{stream, enqueue_on, fin_kwarg, window_left}

-- What happens round one turn of the loop: the time at its k-th reading of the clock, the datagram
-- that IO.select reports (none if the timer fires first), and the path.
pub record Turn : Type 0 where
  pub times : ℕ → ℕ
  pub received : Option (List ℕ)
  pub path : SocketPath

module _ {Conn : Type 0} (n : Ngtcp2 Conn) where
  -- `while (pkt = write_pkt) @sock.send(pkt, 0)`; `none` where the fuel runs out.
  unfoldable pub drain : ℕ → Client Conn → (ℕ → ℕ) → ℕ → Option (Result (Unit {0}) × Client Conn)
  drain zero c times k = none
  drain (suc fuel) c times k =
      let out = write_pkt n c nil (times k) in
      elim out.result [
        | raise e ↦ some (raise e, out.client)
        | ok none ↦ some (ok tt, out.client)
        | ok (some pkt) ↦
            drain fuel (record out.client { sent = out.client.sent ++ pkt ∷ [] }) times (suc k)
      ]

  -- The second half of a turn. A datagram from recvfrom is a fresh binary String, so #read_pkt's checks of its arguments pass.
  unfoldable pub take_input : Client Conn → Turn → Result (Unit {0}) × Client Conn
  take_input c turn = elim turn.received [
    | some packet ↦ read_pkt_body n c turn.path packet (turn.times 0)
    | none ↦ handle_expiry n c (turn.times 0)
  ]

  -- Client#pump_once
  unfoldable pub pump_once : ℕ → Client Conn → Turn → Option (Result (Unit {0}) × Client Conn)
  pump_once fuel c turn =
      if not c.bound
      then some (raise (quic ErrorClass.not_bound none), c)
      else elim (drain fuel c turn.times 1) [
        | none ↦ none
        | some (raise e, c') ↦ some (raise e, c')
        | some (ok u, c') ↦ some (take_input c' turn)
      ]

  -- The loop of quic_stream_write_m over the turns to come; `none` where it is still waiting when
  -- they are used up.
  unfoldable pub wait_window :
      ℕ → Client Conn → ℕ → ℕ → List Turn → Option (Result (Unit {0}) × Client Conn)
  wait_window fuel c r needed [] = if ltb (window_left n c r) needed then none else some (ok tt, c)
  wait_window fuel c r needed (turn ∷ turns) = elim (ltb (window_left n c r) needed) [
    | false ↦ some (ok tt, c)
    | true ↦ elim (pump_once fuel c turn) [
      | none ↦ none
      | some (raise e, c') ↦ some (raise e, c')
      | some (ok u, c') ↦ wait_window fuel c' r needed turns
    ]
  ]

  -- quic_stream_write_m
  unfoldable pub write :
      ℕ → Client Conn → ℕ → Value → Kwargs → List Turn → Option (Result ℕ × Client Conn)
  write fuel c r data_v opts turns =
      let fin = fin_kwarg opts in
      if not (stream c r).has_client
      then some (enqueue_on c r data_v fin)
      else elim (check_string data_v) [
        | raise e ↦ some (raise e, c)
        | ok bytes ↦
            if length bytes == 0
            then some (enqueue_on c r data_v fin)
            else elim (wait_window fuel c r (length bytes) turns) [
              | none ↦ none
              | some (raise e, c') ↦ some (raise e, c')
              | some (ok u, c') ↦ some (enqueue_on c' r data_v fin)
            ]
      ]

  -- Client#pump_until over the turns to come: `pump_once until pred.call`. `none` where the predicate
  -- does not hold when they are used up.
  unfoldable pub pump_until :
      ℕ → (Client Conn → Bool) → Client Conn → List Turn → Option (Result (Unit {0}) × Client Conn)
  pump_until fuel pred c [] = if pred c then some (ok tt, c) else none
  pump_until fuel pred c (turn ∷ turns) = elim (pred c) [
    | true ↦ some (ok tt, c)
    | false ↦ elim (pump_once fuel c turn) [
      | none ↦ none
      | some (raise e, c') ↦ some (raise e, c')
      | some (ok u, c') ↦ pump_until fuel pred c' turns
    ]
  ]

  -- Client#run
  unfoldable pub run : ℕ → Client Conn → List Turn → Option (Result (Unit {0}) × Client Conn)
  run fuel c turns =
      if not c.bound
      then some (raise (quic ErrorClass.not_bound none), c)
      else pump_until fuel (is_handshake_completed n) c turns
