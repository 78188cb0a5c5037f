-- ===== src/Receiver/Collects.antt =====
-- The receiving sides of all streams of a client under the callbacks of ngtcp2
-- (ext/quic/connection_client.c).
use quic_ruby.Base.{
  ℕ, ◌≤◌, ◌<◌, ◌≡◌, refl, sym, ap, ◌∙◌, subst, inl, inr, Bool, false, none, some, List, [], ◌∷◌,
  ◌++◌, arith, ◌==◌, ==_iff, Bool-cases, Option-cases, if◌then◌else◌,
}
use quic_ruby.Ruby.Hash.{
  aref, delete, aref-aset, aref-delete, Distinct, aset-Distinct, delete-Distinct,
}
use quic_ruby.Stream.{Stream, stream_new, stream_alloc}
use quic_ruby.Ngtcp2.{
  Event, stream_open, recv_stream_data, acked_stream_data_offset, stream_close, stream_reset,
}
use quic_ruby.Client.Objects.{Objects, update, store, lookup_stream, register}
use quic_ruby.Client.Callbacks.{
  stream_open_cb, recv_stream_data_cb, acked_stream_data_offset_cb, stream_close_cb,
  stream_reset_cb, receive, acknowledge, mark_closed, mark_reset, callback, callbacks,
}
use quic_ruby.Client.Frame.{update-all}
use quic_ruby.Receiver.Read.{receive-IsReceiving}

-- One stream's bytes grow, and no other stream's.
unfoldable pub grow : (ℕ → List ℕ) → ℕ → List ℕ → ℕ → List ℕ
grow bytes_of r bytes q = if r == q then bytes_of q ++ bytes else bytes_of q

-- The data of a callback belongs to the stream that is registered under its id.
unfoldable pub delivered_by : Objects → Event → (ℕ → List ℕ) → ℕ → List ℕ
delivered_by o (recv_stream_data fin id bytes) received = elim (lookup_stream o id) [
  | none ↦ received
  | some r ↦ grow received r bytes
]
delivered_by o (stream_open id) received = received
delivered_by o (acked_stream_data_offset id datalen) received = received
delivered_by o (stream_close has_code id code) received = received
delivered_by o (stream_reset id code) received = received

unfoldable pub all_delivered : Objects → List Event → (ℕ → List ℕ) → ℕ → List ℕ
all_delivered o [] received = received
all_delivered o (e ∷ es) received = all_delivered (callback o e) es (delivered_by o e received)

-- What each stream has received was read, or waits in its buffer, in order; a stream that does not
-- exist has received nothing, and only streams that exist are registered.
pub record Collects (received consumed : ℕ → List ℕ) (o : Objects) : Type 0 where
  pub buffered : (r : ℕ) → received r ≡ consumed r ++ (o.cell r).recv_buffer
  pub fresh : (r : ℕ) → o.next ≤ r → (received r ≡ []) × (consumed r ≡ [])
  pub known : (id r : ℕ) → aref id o.streams ≡ some r → r < o.next
  pub distinct : Distinct o.streams

apart : (a b : ℕ) → a < b → (a == b) ≡ false
apart a b h = ground arith

module _ {received consumed : ℕ → List ℕ} {o : Objects} (t : Collects received consumed o) where
  -- Writing a stream with its buffer as it is.
  pub store-Collects :
      (r : ℕ) (s : Stream)
      → s.recv_buffer ≡ (o.cell r).recv_buffer
      → Collects received consumed (store o r s)
  store-Collects r s e = record {
    buffered = λ q.
        t.buffered q
        ∙ ap (λ b. consumed q ++ b)
            (update-all (λ x y. (o.cell x).recv_buffer ≡ y.recv_buffer) o.cell r s (sym e)
              (λ x. refl) q);
    fresh = t.fresh;
    known = t.known;
    distinct = t.distinct;
  }

  -- Writing a stream whose bytes change with it, and no other stream's.
  pub change-Collects :
      {received' consumed' : ℕ → List ℕ} (r : ℕ) (s : Stream)
      → r < o.next
      → received' r ≡ consumed' r ++ s.recv_buffer
      → ((q : ℕ) → (r == q) ≡ false → (received' q ≡ received q) × (consumed' q ≡ consumed q))
      → Collects received' consumed' (store o r s)
  change-Collects {received'} {consumed'} r s below v same = record {
    buffered = λ q. elim (Bool-cases (r == q)) [
      | inl e ↦
          subst (λ x. received' x ≡ consumed' x ++ (update o.cell r s x).recv_buffer)
            ((==_iff r q).0 e) (rw ((==_iff r r).1 refl) v)
      | inr e ↦ rw (e, (same q e).0, (same q e).1) (t.buffered q)
    ];
    fresh = λ q h.
        let others = same q (apart r q (omega arith)) in
        (others.0 ∙ (t.fresh q h).0, others.1 ∙ (t.fresh q h).1);
    known = t.known;
    distinct = t.distinct;
  }

  pub register-Collects : (k : ℕ) → Collects received consumed (register o k)
  unfolding register stream_new stream_alloc
  register-Collects k = record {
    buffered =
        update-all (λ q x. received q ≡ consumed q ++ x.recv_buffer) o.cell o.next (stream_new k)
          (let none_yet = t.fresh o.next (omega arith) in rw (none_yet.0, none_yet.1) refl)
          t.buffered;
    fresh = λ r h. t.fresh r (omega arith);
    known = λ id q h. ground (arith, aref-aset k id o.next o.streams, t.known id q);
    distinct = aset-Distinct k o.next o.streams t.distinct;
  }

  delete-Collects : (k : ℕ) → Collects received consumed (record o { streams = delete k o.streams })
  delete-Collects k = record {
    buffered = t.buffered;
    fresh = t.fresh;
    known = λ id q h. t.known id q (aref-delete k id q o.streams t.distinct h);
    distinct = delete-Distinct k o.streams t.distinct;
  }

  pub queue-Collects :
      (queue : List ℕ) → Collects received consumed (record o { accept_queue = queue })
  queue-Collects queue = record {
    buffered = t.buffered;
    fresh = t.fresh;
    known = t.known;
    distinct = t.distinct;
  }

  -- Data for the stream `r`.
  arrived-Collects :
      (r : ℕ) (surfaced fin : Bool) (bytes : List ℕ)
      → r < o.next
      → Collects
          (grow received r bytes)
          consumed
          (store o r (receive (o.cell r) surfaced fin bytes))
  unfolding grow
  arrived-Collects r surfaced fin bytes below =
      change-Collects r (receive (o.cell r) surfaced fin bytes) below
        (rw (grow, (==_iff r r).1 refl)
          (receive-IsReceiving (received r) (consumed r) bytes (o.cell r) surfaced fin
            (t.buffered r)))
        (λ q h. (rw (grow, h) refl, refl))

module _ {received consumed : ℕ → List ℕ} {o : Objects} (t : Collects received consumed o) where
  -- One callback adds its data to the stream it names, behind what waits there, and nothing else.
  pub callback-Collects : (e : Event) → Collects (delivered_by o e received) consumed (callback o e)
  unfolding callback delivered_by lookup_stream stream_open_cb recv_stream_data_cb
      acked_stream_data_offset_cb stream_close_cb stream_reset_cb acknowledge mark_closed mark_reset
  callback-Collects (recv_stream_data fin id bytes) = elim (Option-cases (lookup_stream o id)) [
    | inl e ↦ rw (recv_stream_data_cb, delivered_by, e) t
    | inr (r, e) ↦
        rw (recv_stream_data_cb, delivered_by, e)
          (queue-Collects (arrived-Collects t r _ fin bytes (t.known id r e)) _)
  ]
  callback-Collects (stream_open id) = elim (Option-cases (lookup_stream o id)) [
    | inl e ↦ rw (stream_open_cb, e) (register-Collects t id)
    | inr (r, e) ↦ rw (stream_open_cb, e) t
  ]
  callback-Collects (acked_stream_data_offset id datalen) =
      elim (Option-cases (lookup_stream o id)) [
        | inl e ↦ rw (acked_stream_data_offset_cb, e) t
        | inr (r, e) ↦ rw (acked_stream_data_offset_cb, e) (store-Collects t r _ refl)
      ]
  callback-Collects (stream_close has_code id code) = elim (Option-cases (lookup_stream o id)) [
    | inl e ↦ rw (stream_close_cb, e) t
    | inr (r, e) ↦ rw (stream_close_cb, e) (delete-Collects (store-Collects t r _ refl) id)
  ]
  callback-Collects (stream_reset id code) = elim (Option-cases (lookup_stream o id)) [
    | inl e ↦ rw (stream_reset_cb, e) t
    | inr (r, e) ↦ rw (stream_reset_cb, e) (store-Collects t r _ refl)
  ]

pub callbacks-Collects :
    (o : Objects) (es : List Event) {received consumed : ℕ → List ℕ}
    → Collects received consumed o
    → Collects (all_delivered o es received) consumed (callbacks o es)
unfolding callbacks all_delivered
callbacks-Collects o [] t = t
callbacks-Collects o (e ∷ es) t = callbacks-Collects (callback o e) es (callback-Collects t e)
