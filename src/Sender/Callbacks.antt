-- ===== src/Sender/Callbacks.antt =====
-- The callbacks of ngtcp2 keep every stream's sending invariant.
use quic_ruby.Base.{ℕ, ◌+◌, ◌≤◌, ◌≡◌, refl, Bool, some, List, [], ◌∷◌, Option-cases, inl, inr}
use quic_ruby.Stream.{Stream}
use quic_ruby.Ngtcp2.{
  Event, stream_open, recv_stream_data, acked_stream_data_offset, stream_close, stream_reset,
}
use quic_ruby.Client.Objects.{Objects, lookup_stream}
use quic_ruby.Client.Callbacks.{
  stream_open_cb, recv_stream_data_cb, acked_stream_data_offset_cb, stream_close_cb,
  stream_reset_cb, receive, acknowledge, mark_closed, mark_reset, callback, callbacks,
}
use quic_ruby.Sender.Invariant.{IsSending}
use quic_ruby.Sender.Ack.{acknowledge-IsSending}
use quic_ruby.Sender.Tracks.{Tracks, store-Tracks, register-Tracks, delete-Tracks, queue-Tracks}

-- What ngtcp2 promises of a callback: it acknowledges no byte that it was not given.
abbrev pub IsPermitted : Objects → Event → Type 0
IsPermitted o (acked_stream_data_offset id datalen) =
    (r : ℕ)
    → lookup_stream o id ≡ some r
    → (o.cell r).acked_offset + datalen ≤ (o.cell r).sent_offset
IsPermitted o (stream_open id) = Unit
IsPermitted o (recv_stream_data fin id bytes) = Unit
IsPermitted o (stream_close has_code id code) = Unit
IsPermitted o (stream_reset id code) = Unit

abbrev pub ArePermitted : Objects → List Event → Type 0
ArePermitted o [] = Unit
ArePermitted o (e ∷ es) = IsPermitted o e × ArePermitted (callback o e) es

module _ {a f : List ℕ} {s : Stream} (v : IsSending a f s) where
  receive-IsSending :
      (surfaced fin : Bool) (bytes : List ℕ) → IsSending a f (receive s surfaced fin bytes)
  unfolding receive
  receive-IsSending surfaced fin bytes = record {
    queued = v.queued;
    filled = v.filled;
    shifted_le = v.shifted_le;
    acked_le = v.acked_le;
    sent_le = v.sent_le;
    in_order = v.in_order;
    flushed = v.flushed;
    small = v.small;
  }

  mark_closed-IsSending : (has_code : Bool) (code : ℕ) → IsSending a f (mark_closed s has_code code)
  unfolding mark_closed
  mark_closed-IsSending has_code code = record {
    queued = v.queued;
    filled = v.filled;
    shifted_le = v.shifted_le;
    acked_le = v.acked_le;
    sent_le = v.sent_le;
    in_order = v.in_order;
    flushed = v.flushed;
    small = v.small;
  }

  mark_reset-IsSending : (code : ℕ) → IsSending a f (mark_reset s code)
  unfolding mark_reset
  mark_reset-IsSending code = record {
    queued = v.queued;
    filled = v.filled;
    shifted_le = v.shifted_le;
    acked_le = v.acked_le;
    sent_le = v.sent_le;
    in_order = v.in_order;
    flushed = v.flushed;
    small = v.small;
  }

module _ {accepted framed : ℕ → List ℕ} (o : Objects) (id : ℕ) (t : Tracks accepted framed o) where
  stream_open_cb-Tracks : Tracks accepted framed (stream_open_cb o id)
  unfolding stream_open_cb
  stream_open_cb-Tracks = elim (Option-cases (lookup_stream o id)) [
    | inl e ↦ rw (stream_open_cb, e) (register-Tracks t id)
    | inr (r, e) ↦ rw (stream_open_cb, e) t
  ]

  recv_stream_data_cb-Tracks :
      (fin : Bool) (bytes : List ℕ) → Tracks accepted framed (recv_stream_data_cb o fin id bytes)
  unfolding recv_stream_data_cb receive
  recv_stream_data_cb-Tracks fin bytes = elim (Option-cases (lookup_stream o id)) [
    | inl e ↦ rw (recv_stream_data_cb, e) t
    | inr (r, e) ↦
        rw (recv_stream_data_cb, e)
          (queue-Tracks (store-Tracks t r _ (receive-IsSending (t.sending r) _ fin bytes) refl) _)
  ]

  acked_stream_data_offset_cb-Tracks :
      (datalen : ℕ)
      → IsPermitted o (acked_stream_data_offset id datalen)
      → Tracks accepted framed (acked_stream_data_offset_cb o id datalen)
  unfolding acked_stream_data_offset_cb acknowledge
  acked_stream_data_offset_cb-Tracks datalen h = elim (Option-cases (lookup_stream o id)) [
    | inl e ↦ rw (acked_stream_data_offset_cb, e) t
    | inr (r, e) ↦
        rw (acked_stream_data_offset_cb, e)
          (store-Tracks t r _ (acknowledge-IsSending (t.sending r) datalen (h r e)) refl)
  ]

  stream_close_cb-Tracks :
      (has_code : Bool) (code : ℕ) → Tracks accepted framed (stream_close_cb o has_code id code)
  unfolding stream_close_cb mark_closed
  stream_close_cb-Tracks has_code code = elim (Option-cases (lookup_stream o id)) [
    | inl e ↦ rw (stream_close_cb, e) t
    | inr (r, e) ↦
        rw (stream_close_cb, e)
          (delete-Tracks
            (store-Tracks t r _ (mark_closed-IsSending (t.sending r) has_code code) refl) id)
  ]

  stream_reset_cb-Tracks : (code : ℕ) → Tracks accepted framed (stream_reset_cb o id code)
  unfolding stream_reset_cb mark_reset
  stream_reset_cb-Tracks code = elim (Option-cases (lookup_stream o id)) [
    | inl e ↦ rw (stream_reset_cb, e) t
    | inr (r, e) ↦
        rw (stream_reset_cb, e) (store-Tracks t r _ (mark_reset-IsSending (t.sending r) code) refl)
  ]

module _ {accepted framed : ℕ → List ℕ} where
  callback-Tracks :
      (o : Objects) (e : Event)
      → IsPermitted o e
      → Tracks accepted framed o
      → Tracks accepted framed (callback o e)
  unfolding callback
  callback-Tracks o (stream_open id) h t = stream_open_cb-Tracks o id t
  callback-Tracks o (recv_stream_data fin id bytes) h t =
      recv_stream_data_cb-Tracks o id t fin bytes
  callback-Tracks o (acked_stream_data_offset id datalen) h t =
      acked_stream_data_offset_cb-Tracks o id t datalen h
  callback-Tracks o (stream_close has_code id code) h t =
      stream_close_cb-Tracks o id t has_code code
  callback-Tracks o (stream_reset id code) h t = stream_reset_cb-Tracks o id t code

  -- Whatever callbacks a call of ngtcp2 makes, every stream keeps the sending invariant, as long
  -- as ngtcp2 acknowledges only bytes that it was given.
  pub callbacks-Tracks :
      (o : Objects) (es : List Event)
      → ArePermitted o es
      → Tracks accepted framed o
      → Tracks accepted framed (callbacks o es)
  unfolding callbacks
  callbacks-Tracks o [] h t = t
  callbacks-Tracks o (e ∷ es) h t =
      callbacks-Tracks (callback o e) es h.1 (callback-Tracks o e h.0 t)
