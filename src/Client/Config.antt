-- ===== src/Client/Config.antt =====
-- quic_fill_transport_params, quic_fill_settings and quic_cc_algo_from_sym of
-- ext/quic/connection_client.c, with the Ruby Data objects that they read.
pub mod Fields
use text.Mathlib.Text.{◌==◌ as str_eq}
use quic_ruby.Base.{ℕ, Bool, List, if◌then◌else◌}
use quic_ruby.Ruby.{Value, symbol, Result, ok, raise, ◌>>=◌, arg_error, type_error, rtest, Numeric}

-- Quic::TransportParams of lib/quic/transport_params.rb.
pub record TransportParams (A : Type 0) : Type 0 where
  pub initial_max_stream_data_bidi_local : A
  pub initial_max_stream_data_bidi_remote : A
  pub initial_max_stream_data_uni : A
  pub initial_max_data : A
  pub initial_max_streams_bidi : A
  pub initial_max_streams_uni : A
  pub max_idle_timeout : A
  pub active_connection_id_limit : A

pub data CcAlgo : Type 0 where
  reno cubic bbr : CcAlgo

-- The value given for `alpn:`, which may be an Array.
pub data ArrayValue : Type 0 where
  array : List Value → ArrayValue
  not_array : Value → ArrayValue

-- Check_Type(value, T_ARRAY), and the elements of the Array.
unfoldable pub check_array : ArrayValue → Result (List Value)
check_array (array entries) = ok entries
check_array (not_array v) = raise type_error

-- Quic::Settings of lib/quic/settings.rb.
pub record Settings : Type 0 where
  pub cc_algo : Value
  pub initial_rtt : Value
  pub max_window : Value
  pub max_stream_window : Value
  pub handshake_timeout : Value
  pub no_pmtud : Value
  pub alpn : ArrayValue

-- The fields of ngtcp2_settings that are set.
pub record NativeSettings : Type 0 where
  pub initial_ts : ℕ
  pub cc_algo : CcAlgo
  pub initial_rtt : ℕ
  pub max_window : ℕ
  pub max_stream_window : ℕ
  pub handshake_timeout : ℕ
  pub no_pmtud : Bool

-- quic_cc_algo_from_sym
unfoldable pub cc_algo_from_sym : Value → Result CcAlgo
cc_algo_from_sym (symbol s) =
    if str_eq s "reno"
    then ok CcAlgo.reno
    else if str_eq s "cubic"
    then ok CcAlgo.cubic
    else if str_eq s "bbr"
    then ok CcAlgo.bbr
    else raise arg_error
cc_algo_from_sym v = raise type_error

-- quic_fill_transport_params, with quic_get_uint64_field at each field.
unfoldable pub fill_transport_params : Numeric → TransportParams Value → Result (TransportParams ℕ)
fill_transport_params num tp = do
  bidi_local ← num.num2ull tp.initial_max_stream_data_bidi_local
  bidi_remote ← num.num2ull tp.initial_max_stream_data_bidi_remote
  uni ← num.num2ull tp.initial_max_stream_data_uni
  total ← num.num2ull tp.initial_max_data
  streams_bidi ← num.num2ull tp.initial_max_streams_bidi
  streams_uni ← num.num2ull tp.initial_max_streams_uni
  idle ← num.num2ull tp.max_idle_timeout
  cid_limit ← num.num2ull tp.active_connection_id_limit
  ok (record {
    initial_max_stream_data_bidi_local = bidi_local;
    initial_max_stream_data_bidi_remote = bidi_remote;
    initial_max_stream_data_uni = uni;
    initial_max_data = total;
    initial_max_streams_bidi = streams_bidi;
    initial_max_streams_uni = streams_uni;
    max_idle_timeout = idle;
    active_connection_id_limit = cid_limit;
  })

-- quic_fill_settings, at the time `now`.
unfoldable pub fill_settings : Numeric → Settings → ℕ → Result NativeSettings
unfolding cc_algo_from_sym
fill_settings num st now = do
  algo ← cc_algo_from_sym st.cc_algo
  rtt ← num.num2ull st.initial_rtt
  window ← num.num2ull st.max_window
  stream_window ← num.num2ull st.max_stream_window
  timeout ← num.num2ull st.handshake_timeout
  ok (record {
    initial_ts = now;
    cc_algo = algo;
    initial_rtt = rtt;
    max_window = window;
    max_stream_window = stream_window;
    handshake_timeout = timeout;
    no_pmtud = rtest st.no_pmtud;
  })
