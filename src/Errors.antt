-- ===== src/Errors.antt =====
-- quic_raise_ngtcp2_error of ext/quic/quic.c, and the exception classes that Init_quic declares.
pub mod Mapping
use quic_ruby.Base.{ℕ, ℤ, Bool, true, false, Option, none, some, ◌||◌, int_eq, if◌then◌else◌}
use quic_ruby.Ruby.{ErrorClass, Exception, quic}

-- The NGTCP2_ERR_* constants of ngtcp2.h that the extension names.
pub record Codes : Type 0 where
  pub proto : ℤ
  pub drop_conn : ℤ
  pub retry : ℤ
  pub closing : ℤ
  pub draining : ℤ
  pub idle_close : ℤ
  pub crypto : ℤ
  pub handshake_timeout : ℤ
  pub stream_data_blocked : ℤ
  pub stream_shut_wr : ℤ
  pub invalid_state : ℤ

-- The `switch (rv)`.
unfoldable pub error_class : Codes → ℤ → ErrorClass
error_class c rv =
    if int_eq rv c.proto
    then ErrorClass.proto
    else if int_eq rv c.drop_conn
    then ErrorClass.drop_conn
    else if int_eq rv c.retry
    then ErrorClass.retry
    else if int_eq rv c.closing || int_eq rv c.draining
    then ErrorClass.closed
    else if int_eq rv c.idle_close
    then ErrorClass.closed
    else if int_eq rv c.crypto
    then ErrorClass.crypto_error
    else if int_eq rv c.handshake_timeout
    then ErrorClass.handshake_timeout
    else if int_eq rv c.stream_data_blocked
    then ErrorClass.flow_control
    else if int_eq rv c.stream_shut_wr
    then ErrorClass.stream_closed
    else ErrorClass.unknown

-- The exception that is raised, with its `@code`.
unfoldable pub raise_ngtcp2_error : Codes → ℤ → Exception
unfolding error_class
raise_ngtcp2_error c rv = quic (error_class c rv) (some rv)

pub data IoModule : Type 0 where
  io_wait_readable io_wait_writable : IoModule

-- The module of IO that a class includes.
unfoldable pub included_module : ErrorClass → Option IoModule
included_module ErrorClass.wait_readable = some IoModule.io_wait_readable
included_module ErrorClass.wait_writable = some IoModule.io_wait_writable
included_module ErrorClass.proto = none
included_module ErrorClass.drop_conn = none
included_module ErrorClass.retry = none
included_module ErrorClass.closed = none
included_module ErrorClass.crypto_error = none
included_module ErrorClass.handshake_timeout = none
included_module ErrorClass.flow_control = none
included_module ErrorClass.unknown = none
included_module ErrorClass.stream_closed = none
included_module ErrorClass.stream_reset = none
included_module ErrorClass.not_bound = none
