-- ===== src/Client/Config/Fields.antt =====
-- What quic_fill_transport_params takes over from the Ruby object.
use quic_ruby.Base.{ℕ, ◌<◌, ◌≡◌, refl, pos, u64_mod}
use quic_ruby.Ruby.{Value, integer, ok, Numeric}
use quic_ruby.Client.Config.{TransportParams, fill_transport_params}

-- The Ruby object that holds the numbers of `p`.
abbrev pub to_ruby : TransportParams ℕ → TransportParams Value
to_ruby p = record {
  initial_max_stream_data_bidi_local = integer (pos p.initial_max_stream_data_bidi_local);
  initial_max_stream_data_bidi_remote = integer (pos p.initial_max_stream_data_bidi_remote);
  initial_max_stream_data_uni = integer (pos p.initial_max_stream_data_uni);
  initial_max_data = integer (pos p.initial_max_data);
  initial_max_streams_bidi = integer (pos p.initial_max_streams_bidi);
  initial_max_streams_uni = integer (pos p.initial_max_streams_uni);
  max_idle_timeout = integer (pos p.max_idle_timeout);
  active_connection_id_limit = integer (pos p.active_connection_id_limit);
}

-- Every parameter fits a uint64_t.
abbrev pub FitsU64 : TransportParams ℕ → Type 0
FitsU64 p =
    (p.initial_max_stream_data_bidi_local < u64_mod)
    × (p.initial_max_stream_data_bidi_remote < u64_mod)
    × (p.initial_max_stream_data_uni < u64_mod)
    × (p.initial_max_data < u64_mod)
    × (p.initial_max_streams_bidi < u64_mod)
    × (p.initial_max_streams_uni < u64_mod)
    × (p.max_idle_timeout < u64_mod)
    × (p.active_connection_id_limit < u64_mod)

-- Where NUM2ULL reads the natural numbers below 2^64 back, and each transport parameter of the Ruby
-- object is one of these, it arrives in the field of the same name.
pub fill_transport_params-to_ruby :
    (num : Numeric) (p : TransportParams ℕ)
    → ((k : ℕ) → k < u64_mod → num.num2ull (integer (pos k)) ≡ ok k)
    → FitsU64 p
    → fill_transport_params num (to_ruby p) ≡ ok p
unfolding fill_transport_params
fill_transport_params-to_ruby num p h (b0, b1, b2, b3, b4, b5, b6, b7) =
    rw
      (
        h p.initial_max_stream_data_bidi_local b0,
        h p.initial_max_stream_data_bidi_remote b1,
        h p.initial_max_stream_data_uni b2,
        h p.initial_max_data b3,
        h p.initial_max_streams_bidi b4,
        h p.initial_max_streams_uni b5,
        h p.max_idle_timeout b6,
        h p.active_connection_id_limit b7,
      )
      refl
