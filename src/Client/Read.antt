-- ===== src/Client/Read.antt =====
-- Stream#initiator and the blocking Stream#read of lib/quic/stream.rb.
use quic_ruby.Base.{
  ◌∷◌, ◌%◌, get_or, ℕ, zero, suc, Bool, true, false, Option, none, some, List, [], ◌++◌, ◌||◌, not,
  length, ltb, if◌then◌else◌,
}
use quic_ruby.Ruby.{
  symbol, nil, Value, Result, ok, raise, Exception, quic, ErrorClass, eof_error, no_method_error,
  Numeric,
}
use quic_ruby.Stream.{Stream, read_bytes, read_nonblock, is_eof}
use quic_ruby.Ngtcp2.{Ngtcp2}
use quic_ruby.Client.State.{Client}
use quic_ruby.Client.Io.{stream, set_stream}
use quic_ruby.Client.Pump.{Turn, pump_until}

-- INITIATORS and Stream#initiator: the two low bits of the id.
abbrev pub initiators : List Value
initiators =
    symbol "client_bidi" ∷ symbol "server_bidi" ∷ symbol "client_uni" ∷ symbol "server_uni" ∷ []

unfoldable pub initiator : Stream → Value
initiator s = get_or initiators (s.stream_id % 4) nil

-- `rescue EOFError; nil`
unfoldable pub rescue_eof : Result (List ℕ) → Result (Option (List ℕ))
rescue_eof (ok bytes) = ok (some bytes)
rescue_eof (raise eof_error) = ok none
rescue_eof (raise e) = raise e

-- The exceptions that end the second loop of #read.
unfoldable pub ends_reading : Exception → Bool
ends_reading (quic ErrorClass.wait_readable code) = true
ends_reading eof_error = true
ends_reading e = false

-- `until eof?; out << read_nonblock(4096); end`
unfoldable pub read_until_eof : ℕ → Stream → List ℕ → Option (Result (List ℕ) × Stream)
read_until_eof zero s out = none
read_until_eof (suc fuel) s out = elim (is_eof s) [
  | true ↦ some (ok out, s)
  | false ↦
      let (result, t) = read_bytes s 4096 in
      elim result [ raise e ↦ some (raise e, t) | ok bytes ↦ read_until_eof fuel t (out ++ bytes) ]
]

-- `loop do out << read_nonblock(4096) rescue … break end`
unfoldable pub read_rest : ℕ → Stream → List ℕ → Option (Result (List ℕ) × Stream)
read_rest zero s out = none
read_rest (suc fuel) s out =
    let (result, t) = read_bytes s 4096 in
    elim result [
      | raise e ↦ some (if ends_reading e then ok out else raise e, t)
      | ok bytes ↦ read_rest fuel t (out ++ bytes)
    ]

-- Both loops, one after the other.
unfoldable pub read_stream : ℕ → Stream → Option (Result (List ℕ) × Stream)
read_stream fuel s = elim (read_until_eof fuel s []) [
  | none ↦ none
  | some (raise e, t) ↦ some (raise e, t)
  | some (ok out, t) ↦ read_rest fuel t out
]

module _ {Conn : Type 0} where
  -- The predicates that #read waits for.
  unfoldable pub at_eof : ℕ → Client Conn → Bool
  at_eof r c = is_eof (stream c r)

  unfoldable pub read_ready : ℕ → Client Conn → Bool
  read_ready r c = ltb 0 (length (stream c r).recv_buffer) || (stream c r).fin_received

module _ {Conn : Type 0} (n : Ngtcp2 Conn) where
  -- #read without a length. Each loop over the buffer has one round more than there are bytes.
  unfoldable pub read_all : ℕ → Client Conn → ℕ → List Turn → Option (Result (List ℕ) × Client Conn)
  read_all fuel c r turns =
      if not (stream c r).has_client
      then some (raise no_method_error, c)
      else elim (pump_until n fuel (at_eof r) c turns) [
        | none ↦ none
        | some (raise e, c') ↦ some (raise e, c')
        | some (ok u, c') ↦
            elim (read_stream (suc (length (stream c' r).recv_buffer)) (stream c' r)) [
              | none ↦ none
              | some (result, s) ↦ some (result, set_stream c' r s)
            ]
      ]

  -- #read with a length.
  unfoldable pub read_length :
      Numeric
      → ℕ
      → Client Conn
      → ℕ
      → Value
      → List Turn
      → Option (Result (Option (List ℕ)) × Client Conn)
  read_length num fuel c r length_v turns =
      if not (stream c r).has_client
      then some (raise no_method_error, c)
      else elim (pump_until n fuel (read_ready r) c turns) [
        | none ↦ none
        | some (raise e, c') ↦ some (raise e, c')
        | some (ok u, c') ↦
            let (result, s) = read_nonblock num (stream c' r) length_v in
            some (rescue_eof result, set_stream c' r s)
      ]
