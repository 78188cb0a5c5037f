-- ===== src/Errors/Mapping.antt =====
-- Which exception class a result code of ngtcp2 is raised as.
use quic_ruby.Base.{
  ℤ, pos, negsuc, ◌≡◌, ◌≢◌, ◌↔◌, refl, true, false, some, List, [], ◌∷◌, arith, int_eq, All, sym,
  ==_iff,
}
use quic_ruby.Ruby.{ErrorClass, quic}
use quic_ruby.Errors.{Codes, raise_ngtcp2_error}

pub int_eq_iff : (a b : ℤ) → (int_eq a b ≡ true) ↔ (a ≡ b)
int_eq_iff (pos a) (pos b) = ground (arith, ==_iff a b)
int_eq_iff (negsuc a) (negsuc b) = ground (arith, ==_iff a b)
int_eq_iff (pos a) (negsuc b) = ground arith
int_eq_iff (negsuc a) (pos b) = ground arith

-- The C compiler refuses a `switch` with a label twice.
abbrev pub AreDistinct : List ℤ → Type 0
AreDistinct [] = Unit
AreDistinct (c ∷ cs) = All (λ d. c ≢ d) cs × AreDistinct cs

abbrev pub labels : Codes → List ℤ
labels c =
    c.proto ∷ c.drop_conn ∷ c.retry ∷ c.closing ∷ c.draining ∷ c.idle_close ∷ c.crypto
    ∷ c.handshake_timeout ∷ c.stream_data_blocked ∷ c.stream_shut_wr ∷ []

-- Each code is raised as its documented class
pub record IsDocumented (c : Codes) : Type 0 where
  pub on_proto : raise_ngtcp2_error c c.proto ≡ quic ErrorClass.proto (some c.proto)
  pub on_drop_conn : raise_ngtcp2_error c c.drop_conn ≡ quic ErrorClass.drop_conn (some c.drop_conn)
  pub on_retry : raise_ngtcp2_error c c.retry ≡ quic ErrorClass.retry (some c.retry)
  pub on_closing : raise_ngtcp2_error c c.closing ≡ quic ErrorClass.closed (some c.closing)
  pub on_draining : raise_ngtcp2_error c c.draining ≡ quic ErrorClass.closed (some c.draining)
  pub on_idle_close : raise_ngtcp2_error c c.idle_close ≡ quic ErrorClass.closed (some c.idle_close)
  pub on_crypto : raise_ngtcp2_error c c.crypto ≡ quic ErrorClass.crypto_error (some c.crypto)
  pub on_handshake_timeout :
      raise_ngtcp2_error c c.handshake_timeout
      ≡ quic ErrorClass.handshake_timeout (some c.handshake_timeout)
  pub on_blocked :
      raise_ngtcp2_error c c.stream_data_blocked
      ≡ quic ErrorClass.flow_control (some c.stream_data_blocked)
  pub on_shut_wr :
      raise_ngtcp2_error c c.stream_shut_wr ≡ quic ErrorClass.stream_closed (some c.stream_shut_wr)
  pub on_other :
      (rv : ℤ)
      → All (λ d. rv ≢ d) (labels c)
      → raise_ngtcp2_error c rv ≡ quic ErrorClass.unknown (some rv)

int_eq_self : (a : ℤ) → int_eq a a ≡ true
int_eq_self a = (int_eq_iff a a).1 refl

int_eq-ne : (a b : ℤ) → a ≢ b → int_eq a b ≡ false
int_eq-ne a b ne = ground (arith, int_eq_iff a b)

int_eq-ne' : (a b : ℤ) → b ≢ a → int_eq a b ≡ false
int_eq-ne' a b ne = int_eq-ne a b (λ e. ne (sym e))

module _ (c : Codes) (d : AreDistinct (labels c)) where
  on_proto : raise_ngtcp2_error c c.proto ≡ quic ErrorClass.proto (some c.proto)
  unfolding raise_ngtcp2_error
  on_proto = ground (arith, int_eq_self c.proto)

  on_drop_conn : raise_ngtcp2_error c c.drop_conn ≡ quic ErrorClass.drop_conn (some c.drop_conn)
  unfolding raise_ngtcp2_error
  on_drop_conn = ground (arith, int_eq-ne' c.drop_conn c.proto, int_eq_self c.drop_conn)

  on_retry : raise_ngtcp2_error c c.retry ≡ quic ErrorClass.retry (some c.retry)
  unfolding raise_ngtcp2_error
  on_retry =
      ground
        (arith, int_eq-ne' c.retry c.proto, int_eq-ne' c.retry c.drop_conn, int_eq_self c.retry)

  on_closing : raise_ngtcp2_error c c.closing ≡ quic ErrorClass.closed (some c.closing)
  unfolding raise_ngtcp2_error
  on_closing = ground (
    arith,
    int_eq-ne' c.closing c.proto,
    int_eq-ne' c.closing c.drop_conn,
    int_eq-ne' c.closing c.retry,
    int_eq_self c.closing,
  )

  on_draining : raise_ngtcp2_error c c.draining ≡ quic ErrorClass.closed (some c.draining)
  unfolding raise_ngtcp2_error
  on_draining = ground (
    arith,
    int_eq-ne' c.draining c.proto,
    int_eq-ne' c.draining c.drop_conn,
    int_eq-ne' c.draining c.retry,
    int_eq-ne' c.draining c.closing,
    int_eq_self c.draining,
  )

  on_idle_close : raise_ngtcp2_error c c.idle_close ≡ quic ErrorClass.closed (some c.idle_close)
  unfolding raise_ngtcp2_error
  on_idle_close = ground (
    arith,
    int_eq-ne' c.idle_close c.proto,
    int_eq-ne' c.idle_close c.drop_conn,
    int_eq-ne' c.idle_close c.retry,
    int_eq-ne' c.idle_close c.closing,
    int_eq-ne' c.idle_close c.draining,
    int_eq_self c.idle_close,
  )

  on_crypto : raise_ngtcp2_error c c.crypto ≡ quic ErrorClass.crypto_error (some c.crypto)
  unfolding raise_ngtcp2_error
  on_crypto = ground (
    arith,
    int_eq-ne' c.crypto c.proto,
    int_eq-ne' c.crypto c.drop_conn,
    int_eq-ne' c.crypto c.retry,
    int_eq-ne' c.crypto c.closing,
    int_eq-ne' c.crypto c.draining,
    int_eq-ne' c.crypto c.idle_close,
    int_eq_self c.crypto,
  )

  on_handshake_timeout :
      raise_ngtcp2_error c c.handshake_timeout
      ≡ quic ErrorClass.handshake_timeout (some c.handshake_timeout)
  unfolding raise_ngtcp2_error
  on_handshake_timeout = ground (
    arith,
    int_eq-ne' c.handshake_timeout c.proto,
    int_eq-ne' c.handshake_timeout c.drop_conn,
    int_eq-ne' c.handshake_timeout c.retry,
    int_eq-ne' c.handshake_timeout c.closing,
    int_eq-ne' c.handshake_timeout c.draining,
    int_eq-ne' c.handshake_timeout c.idle_close,
    int_eq-ne' c.handshake_timeout c.crypto,
    int_eq_self c.handshake_timeout,
  )

  on_stream_data_blocked :
      raise_ngtcp2_error c c.stream_data_blocked
      ≡ quic ErrorClass.flow_control (some c.stream_data_blocked)
  unfolding raise_ngtcp2_error
  on_stream_data_blocked = ground (
    arith,
    int_eq-ne' c.stream_data_blocked c.proto,
    int_eq-ne' c.stream_data_blocked c.drop_conn,
    int_eq-ne' c.stream_data_blocked c.retry,
    int_eq-ne' c.stream_data_blocked c.closing,
    int_eq-ne' c.stream_data_blocked c.draining,
    int_eq-ne' c.stream_data_blocked c.idle_close,
    int_eq-ne' c.stream_data_blocked c.crypto,
    int_eq-ne' c.stream_data_blocked c.handshake_timeout,
    int_eq_self c.stream_data_blocked,
  )

  on_stream_shut_wr :
      raise_ngtcp2_error c c.stream_shut_wr ≡ quic ErrorClass.stream_closed (some c.stream_shut_wr)
  unfolding raise_ngtcp2_error
  on_stream_shut_wr = ground (
    arith,
    int_eq-ne' c.stream_shut_wr c.proto,
    int_eq-ne' c.stream_shut_wr c.drop_conn,
    int_eq-ne' c.stream_shut_wr c.retry,
    int_eq-ne' c.stream_shut_wr c.closing,
    int_eq-ne' c.stream_shut_wr c.draining,
    int_eq-ne' c.stream_shut_wr c.idle_close,
    int_eq-ne' c.stream_shut_wr c.crypto,
    int_eq-ne' c.stream_shut_wr c.handshake_timeout,
    int_eq-ne' c.stream_shut_wr c.stream_data_blocked,
    int_eq_self c.stream_shut_wr,
  )

  on_other :
      (rv : ℤ)
      → All (λ l. rv ≢ l) (labels c)
      → raise_ngtcp2_error c rv ≡ quic ErrorClass.unknown (some rv)
  unfolding raise_ngtcp2_error
  on_other rv h = ground (
    arith,
    int_eq-ne rv c.proto,
    int_eq-ne rv c.drop_conn,
    int_eq-ne rv c.retry,
    int_eq-ne rv c.closing,
    int_eq-ne rv c.draining,
    int_eq-ne rv c.idle_close,
    int_eq-ne rv c.crypto,
    int_eq-ne rv c.handshake_timeout,
    int_eq-ne rv c.stream_data_blocked,
    int_eq-ne rv c.stream_shut_wr,
  )

  -- Where the codes of the switch are pairwise different, each is raised as the class of its name,
  -- both closing codes and the idle timeout as `closed`, and any other code as `unknown`.
  pub raise_ngtcp2_error-IsDocumented : IsDocumented c
  raise_ngtcp2_error-IsDocumented = record {
    on_proto = on_proto;
    on_drop_conn = on_drop_conn;
    on_retry = on_retry;
    on_closing = on_closing;
    on_draining = on_draining;
    on_idle_close = on_idle_close;
    on_crypto = on_crypto;
    on_handshake_timeout = on_handshake_timeout;
    on_blocked = on_stream_data_blocked;
    on_shut_wr = on_stream_shut_wr;
    on_other = on_other;
  }
