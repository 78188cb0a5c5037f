-- ===== src/Receiver/Accept.antt =====
-- Streams of the server reach the application once, in the order of their first data.
use quic_ruby.Base.{
  ℕ, ◌≡◌, refl, sym, ap, ◌∙◌, Bool, true, false, none, some, List, [], ◌∷◌, ◌++◌, arith, inl, inr,
  Option-cases, if◌then◌else◌, append_assoc, append-nil, ◌&&◌, not,
}
use quic_ruby.Ruby.{ok}
use quic_ruby.Ngtcp2.{
  Event, stream_open, recv_stream_data, acked_stream_data_offset, stream_close, stream_reset,
}
use quic_ruby.Client.Objects.{Objects, store, lookup_stream}
use quic_ruby.Client.Callbacks.{
  stream_open_cb, recv_stream_data_cb, acked_stream_data_offset_cb, stream_close_cb,
  stream_reset_cb, receive, acknowledge, mark_closed, mark_reset, callback, is_server,
}
use quic_ruby.Client.Accept.{accept_stream_nonblock, shift_queue}
use quic_ruby.Receiver.Surfaces.{
  mem, Surfaces, store-Surfaces, register-Surfaces, delete-Surfaces, enqueue-Surfaces,
}

-- The stream that an event surfaces: data for a stream of the server that is not among those that were
-- ever queued.
unfoldable pub arrivals : List ℕ → Objects → Event → List ℕ
arrivals surfaced o (recv_stream_data fin id bytes) = elim (lookup_stream o id) [
  | none ↦ []
  | some r ↦ if not (mem r surfaced) && is_server id then r ∷ [] else []
]
arrivals surfaced o (stream_open id) = []
arrivals surfaced o (acked_stream_data_offset id datalen) = []
arrivals surfaced o (stream_close has_code id code) = []
arrivals surfaced o (stream_reset id code) = []

module _ {taken surfaced : List ℕ} (o : Objects) (id : ℕ) (v : Surfaces taken surfaced o) where
  none-arrive : {p : Objects} → Surfaces taken surfaced p → Surfaces taken (surfaced ++ []) p
  none-arrive w = rw append-nil w

  received : ℕ → Bool → Bool → List ℕ → Objects
  received r surfaces fin bytes = record (store o r (receive (o.cell r) surfaces fin bytes)) {
    accept_queue = if surfaces then o.accept_queue ++ r ∷ [] else o.accept_queue;
  }

  received-Surfaces :
      (r : ℕ) (b fin : Bool) (bytes : List ℕ)
      → lookup_stream o id ≡ some r
      → b ≡ (not (o.cell r).accept_queued && is_server id)
      → Surfaces taken (surfaced ++ (if b then r ∷ [] else [])) (received r b fin bytes)
  unfolding receive received lookup_stream
  received-Surfaces r false fin bytes e test = none-arrive (store-Surfaces v r _ (refl, refl))
  received-Surfaces r true fin bytes e test =
      let entry = v.known id r e in
      enqueue-Surfaces v r _ (ground arith) refl refl (rw entry.1 (ground arith)) entry.0

  recv_stream_data_cb-Surfaces :
      (fin : Bool) (bytes : List ℕ)
      → Surfaces taken
          (surfaced ++ arrivals surfaced o (recv_stream_data fin id bytes))
          (recv_stream_data_cb o fin id bytes)
  unfolding recv_stream_data_cb arrivals received
  recv_stream_data_cb-Surfaces fin bytes = elim (Option-cases (lookup_stream o id)) [
    | inl e ↦ rw (e, recv_stream_data_cb, arrivals) (none-arrive v)
    | inr (r, e) ↦
        rw
          (
            recv_stream_data_cb,
            arrivals,
            e,
            sym (v.exact r (v.known id r (unfold lookup_stream in e)).0),
          )
          (received-Surfaces r _ fin bytes e refl)
  ]

  stream_open_cb-Surfaces : Surfaces taken surfaced (stream_open_cb o id)
  unfolding stream_open_cb
  stream_open_cb-Surfaces = elim (Option-cases (lookup_stream o id)) [
    | inl e ↦ rw (stream_open_cb, e) (register-Surfaces v id)
    | inr (r, e) ↦ rw (stream_open_cb, e) v
  ]

  acked_stream_data_offset_cb-Surfaces :
      (datalen : ℕ) → Surfaces taken surfaced (acked_stream_data_offset_cb o id datalen)
  unfolding acked_stream_data_offset_cb acknowledge
  acked_stream_data_offset_cb-Surfaces datalen = elim (Option-cases (lookup_stream o id)) [
    | inl e ↦ rw (acked_stream_data_offset_cb, e) v
    | inr (r, e) ↦ rw (acked_stream_data_offset_cb, e) (store-Surfaces v r _ (refl, refl))
  ]

  stream_close_cb-Surfaces :
      (has_code : Bool) (code : ℕ) → Surfaces taken surfaced (stream_close_cb o has_code id code)
  unfolding stream_close_cb mark_closed
  stream_close_cb-Surfaces has_code code = elim (Option-cases (lookup_stream o id)) [
    | inl e ↦ rw (stream_close_cb, e) v
    | inr (r, e) ↦ rw (stream_close_cb, e) (delete-Surfaces (store-Surfaces v r _ (refl, refl)) id)
  ]

  stream_reset_cb-Surfaces : (code : ℕ) → Surfaces taken surfaced (stream_reset_cb o id code)
  unfolding stream_reset_cb mark_reset
  stream_reset_cb-Surfaces code = elim (Option-cases (lookup_stream o id)) [
    | inl e ↦ rw (stream_reset_cb, e) v
    | inr (r, e) ↦ rw (stream_reset_cb, e) (store-Surfaces v r _ (refl, refl))
  ]

-- A stream of the server that is not among those ever queued enters @accept_queue with its next data,
-- behind those before it, and never again; no other callback and no stream of the client ever enters
-- it.
pub callback-Surfaces :
    {taken surfaced : List ℕ} (o : Objects) (e : Event)
    → Surfaces taken surfaced o
    → Surfaces taken (surfaced ++ arrivals surfaced o e) (callback o e)
unfolding callback arrivals
callback-Surfaces o (recv_stream_data fin id bytes) v =
    recv_stream_data_cb-Surfaces o id v fin bytes
callback-Surfaces o (stream_open id) v = rw append-nil (stream_open_cb-Surfaces o id v)
callback-Surfaces o (acked_stream_data_offset id datalen) v =
    rw append-nil (acked_stream_data_offset_cb-Surfaces o id v datalen)
callback-Surfaces o (stream_close has_code id code) v =
    rw append-nil (stream_close_cb-Surfaces o id v has_code code)
callback-Surfaces o (stream_reset id code) v = rw append-nil (stream_reset_cb-Surfaces o id v code)

-- Where the queue is not empty, accepting takes the oldest stream off it and keeps what is known
-- of all that were queued, so that none of them can be queued again; that stream is the next of those
-- accepted.
pub accept_stream_nonblock-Surfaces :
    {taken surfaced : List ℕ} (o : Objects) (r : ℕ) (rest : List ℕ)
    → Surfaces taken surfaced o
    → o.accept_queue ≡ r ∷ rest
    → (accept_stream_nonblock o ≡ (ok r, record o { accept_queue = rest }))
      × Surfaces (taken ++ r ∷ []) surfaced (record o { accept_queue = rest })
unfolding accept_stream_nonblock shift_queue
accept_stream_nonblock-Surfaces {taken} o r rest v e = (
  rw (accept_stream_nonblock, e),
  record {
    queued = v.queued ∙ ap (λ q. taken ++ q) e ∙ sym (append_assoc taken (r ∷ []) rest);
    unique = v.unique;
    marked = v.marked;
    exact = v.exact;
    known = v.known;
    distinct = v.distinct;
  },
)
