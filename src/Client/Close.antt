-- ===== src/Client/Close.antt =====
-- Client#close of ext/quic/connection_client.c.
pub mod Once
pub mod Repeated
use quic_ruby.Base.{
  ℕ, none, some, List, [], ◌∷◌, ◌++◌, ◌||◌, not, length, take, ltb, if◌then◌else◌, is_negative,
  is_zero, magnitude, int_eq,
}
use quic_ruby.Ruby.{
  Result, ok, raise, ◌>>=◌, quic, ErrorClass, check_string, is_nil, keyword, Kwargs, Numeric,
}
use quic_ruby.Errors.{raise_ngtcp2_error}
use quic_ruby.Ngtcp2.{Ngtcp2}
use quic_ruby.Client.State.{Client}

-- The error code and the reason among the keywords.
unfoldable pub close_keywords : Numeric → Kwargs → Result (ℕ × List ℕ)
close_keywords num none = ok (0, [])
close_keywords num (some opts) = do
  let error_code_v = keyword "error_code" opts
  let reason_v = keyword "reason" opts
  error_code ← if is_nil error_code_v then ok 0 else num.num2ull error_code_v
  reason ← if is_nil reason_v then ok [] else check_string reason_v
  ok (error_code, reason)

module _ {Conn : Type 0} (n : Ngtcp2 Conn) where
  -- The part behind the guards: one CONNECTION_CLOSE is written, and sent on the bound socket.
  unfoldable pub send_close : Client Conn → ℕ → List ℕ → ℕ → Result (Unit {0}) × Client Conn
  send_close c error_code reason now =
      let (conn, len, dest) =
        n.write_connection_close c.conn error_code
          (if ltb 0 (length reason) then some reason else none) now in
      let c' : Client Conn = record c { conn = conn } in
      if int_eq len n.codes.invalid_state
      then (ok tt, c')
      else if is_negative len
      then (raise (raise_ngtcp2_error n.codes len), c')
      else if is_zero len
      then (ok tt, c')
      else (ok tt, record c' { sent = c.sent ++ take (magnitude len) dest ∷ [] })

  -- quic_client_close_m
  unfoldable pub close : Numeric → Client Conn → Kwargs → ℕ → Result (Unit {0}) × Client Conn
  close num c opts now = elim (close_keywords num opts) [
    | raise e ↦ (raise e, c)
    | ok (error_code, reason) ↦
        if n.in_closing_period c.conn || n.in_draining_period c.conn
        then (ok tt, c)
        else if not c.bound
        then (raise (quic ErrorClass.not_bound none), c)
        else send_close c error_code reason now
  ]
