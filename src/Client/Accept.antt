-- ===== src/Client/Accept.antt =====
-- Client#accept_stream_nonblock and #accept_stream of lib/quic/connection.rb, the consumers of
-- @accept_queue. Times are in nanoseconds.
use quic_ruby.Base.{ℕ, zero, suc, ◌+◌, Bool, true, false, Option, none, some, List, [], ◌∷◌, leb}
use quic_ruby.Ruby.{Result, ok, raise, quic, ErrorClass}
use quic_ruby.Ngtcp2.{Ngtcp2}
use quic_ruby.Client.Objects.{Objects}
use quic_ruby.Client.Pump.{Turn, pump_once}
use quic_ruby.Client.State.{Client}

-- `@accept_queue.shift`, on the queue.
unfoldable pub shift_queue : Objects → List ℕ → Result ℕ × Objects
shift_queue o [] = (raise (quic ErrorClass.wait_readable none), o)
shift_queue o (r ∷ rest) = (ok r, record o { accept_queue = rest })

unfoldable pub accept_stream_nonblock : Objects → Result ℕ × Objects
accept_stream_nonblock o = shift_queue o o.accept_queue

-- `timeout && now + timeout`
unfoldable pub deadline_of : Option ℕ → ℕ → Option ℕ
deadline_of none start = none
deadline_of (some timeout) start = some (start + timeout)

-- `deadline - now <= 0.0`
unfoldable pub is_past : Option ℕ → ℕ → Bool
is_past none now = false
is_past (some deadline) now = leb deadline now

module _ {Conn : Type 0} (n : Ngtcp2 Conn) where
  -- The loop of #accept_stream over the readings of its clock and the turns to come; `none` where it
  -- still waits when they are used up.
  unfoldable pub accept_loop :
      ℕ → Client Conn → Option ℕ → List (ℕ × Turn) → Option (Result (Option ℕ) × Client Conn)
  accept_loop fuel c deadline [] = none
  accept_loop fuel c deadline ((now, turn) ∷ rounds) = elim (is_past deadline now) [
    | true ↦ some (ok none, c)
    | false ↦ elim (pump_once n fuel c turn) [
      | none ↦ none
      | some (raise e, c') ↦ some (raise e, c')
      | some (ok u, c') ↦
          let (stream, o) = accept_stream_nonblock c'.objects in
          elim stream [
            | ok r ↦ some (ok (some r), record c' { objects = o })
            | raise e ↦ accept_loop fuel c' deadline rounds
          ]
    ]
  ]

  -- The part of #accept_stream behind its first look at the queue.
  unfoldable pub accept_wait :
      ℕ → Client Conn → Option ℕ → ℕ → List (ℕ × Turn) → Option (Result (Option ℕ) × Client Conn)
  accept_wait fuel c (some zero) start rounds = some (ok none, c)
  accept_wait fuel c (some (suc k)) start rounds =
      accept_loop fuel c (deadline_of (some (suc k)) start) rounds
  accept_wait fuel c none start rounds = accept_loop fuel c (deadline_of none start) rounds

  -- Client#accept_stream with a timeout, none for nil, called at the time `start`.
  unfoldable pub accept_stream :
      ℕ → Client Conn → Option ℕ → ℕ → List (ℕ × Turn) → Option (Result (Option ℕ) × Client Conn)
  accept_stream fuel c timeout start rounds =
      let (stream, o) = accept_stream_nonblock c.objects in
      elim stream [
        | ok r ↦ some (ok (some r), record c { objects = o })
        | raise e ↦ accept_wait fuel c timeout start rounds
      ]
