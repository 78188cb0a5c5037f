-- ===== src/Client/Frame.antt =====
-- What a call of ngtcp2 leaves true of every stream object, whichever callbacks it makes
-- (ext/quic/connection_client.c), and what a turn of the I/O loop does (lib/quic/connection.rb).
pub mod Turn
pub mod Pump
pub mod Until
use quic_ruby.Base.{
  ℕ, ◌≤◌, ◌<◌, ◌≡◌, ap, Bool, List, [], ◌∷◌, arith, Option-cases, inl, inr, subst, Bool-cases, ◌==◌,
  ==_iff, if◌then◌else◌, false, true, dec_lt,
}
use quic_ruby.Stream.{Stream, stream_new}
use quic_ruby.Ngtcp2.{
  Event, stream_open, recv_stream_data, acked_stream_data_offset, stream_close, stream_reset,
}
use quic_ruby.Client.Objects.{Objects, update, store, lookup_stream, register}
use quic_ruby.Client.Callbacks.{
  stream_open_cb, recv_stream_data_cb, acked_stream_data_offset_cb, stream_close_cb,
  stream_reset_cb, receive, acknowledge, mark_closed, mark_reset, callback, callbacks,
}

-- A property of every cell, where one cell is written.
pub update-all :
    (P : ℕ → Stream → Type 0) (cell : ℕ → Stream) (r : ℕ) (s : Stream)
    → P r s
    → ((q : ℕ) → P q (cell q))
    → (q : ℕ) → P q (update cell r s q)
update-all P cell r s h k q = elim (Bool-cases (r == q)) [
  | inl e ↦ rw e (subst (λ x. P x s) ((==_iff r q).0 e) h)
  | inr e ↦ rw e (k q)
]

-- A relation between a stream before and after, which the callbacks keep.
pub record IsFrame (R : Stream → Stream → Type 0) : Type 0 where
  pub stays : (s : Stream) → R s s
  pub joins : (s t u : Stream) → R s t → R t u → R s u
  pub receives :
      (s : Stream) (surfaced fin : Bool) (bytes : List ℕ) → R s (receive s surfaced fin bytes)
  pub acknowledges : (s : Stream) (datalen : ℕ) → R s (acknowledge s datalen)
  pub closes : (s : Stream) (has_code : Bool) (code : ℕ) → R s (mark_closed s has_code code)
  pub resets : (s : Stream) (code : ℕ) → R s (mark_reset s code)

-- The streams of `o` go on in `o'`, each related to what it was, and the others to a new stream.
pub record Carries (R : Stream → Stream → Type 0) (o o' : Objects) : Type 0 where
  pub grows : o.next ≤ o'.next
  pub same : (r : ℕ) → r < o.next → R (o.cell r) (o'.cell r)
  pub born : (r : ℕ) → o.next ≤ r → r < o'.next → (id : ℕ) × R (stream_new id) (o'.cell r)

module _ (R : Stream → Stream → Type 0) (f : IsFrame R) where
  pub Carries-refl : (o : Objects) → Carries R o o
  Carries-refl o = record {
    grows = omega arith;
    same = λ r h. f.stays (o.cell r);
    born = λ r h k. absurd (omega arith);
  }

  pub Carries-trans : (o p q : Objects) → Carries R o p → Carries R p q → Carries R o q
  Carries-trans o p q k l = record {
    grows = omega (arith, k.grows, l.grows);
    same = λ r h.
        f.joins (o.cell r) (p.cell r) (q.cell r) (k.same r h) (l.same r (omega (arith, k.grows)));
    born = λ r h below. elim (dec_lt r p.next) [
      | no late ↦ l.born r (omega arith) below
      | yes early ↦
          let (id, first) = k.born r h early in
          (id, f.joins (stream_new id) (p.cell r) (q.cell r) first (l.same r early))
    ];
  }

  pub store-Carries :
      (o : Objects) (r : ℕ) (s : Stream) → R (o.cell r) s → Carries R o (store o r s)
  store-Carries o r s h = record {
    grows = omega arith;
    same = λ q _. update-all (λ q x. R (o.cell q) x) o.cell r s h (λ q. f.stays (o.cell q)) q;
    born = λ q early late. absurd (omega arith);
  }

  pub register-Carries : (o : Objects) (id : ℕ) → Carries R o (register o id)
  unfolding register
  register-Carries o id = record {
    grows = omega arith;
    same = λ q h. rw (apart q h) (f.stays (o.cell q));
    born = λ q h k. (id, rw (own q (omega arith)) (f.stays (stream_new id)));
  }
    where
      own : (q : ℕ) → o.next ≡ q → (o.next == q) ≡ true
      own q e = (==_iff o.next q).1 e

      apart : (q : ℕ) → q < o.next → (o.next == q) ≡ false
      apart q h = ground arith

  -- The registry and the queue play no part.
  pub same_cells :
      (o p : Objects) (streams : List (ℕ × ℕ)) (queue : List ℕ)
      → Carries R o p
      → Carries R o (record p { streams = streams; accept_queue = queue })
  same_cells o p streams queue k = record { grows = k.grows; same = k.same; born = k.born }

  stream_open_cb-Carries : (o : Objects) (id : ℕ) → Carries R o (stream_open_cb o id)
  unfolding stream_open_cb
  stream_open_cb-Carries o id = elim (Option-cases (lookup_stream o id)) [
    | inl e ↦ rw (stream_open_cb, e) (register-Carries o id)
    | inr (r, e) ↦ rw (stream_open_cb, e) (Carries-refl o)
  ]

  recv_stream_data_cb-Carries :
      (o : Objects) (fin : Bool) (id : ℕ) (bytes : List ℕ)
      → Carries R o (recv_stream_data_cb o fin id bytes)
  unfolding recv_stream_data_cb
  recv_stream_data_cb-Carries o fin id bytes = elim (Option-cases (lookup_stream o id)) [
    | inl e ↦ rw (recv_stream_data_cb, e) (Carries-refl o)
    | inr (r, e) ↦
        rw (recv_stream_data_cb, e)
          (same_cells o _ _ _ (store-Carries o r _ (f.receives (o.cell r) _ fin bytes)))
  ]

  acked_stream_data_offset_cb-Carries :
      (o : Objects) (id datalen : ℕ) → Carries R o (acked_stream_data_offset_cb o id datalen)
  unfolding acked_stream_data_offset_cb
  acked_stream_data_offset_cb-Carries o id datalen = elim (Option-cases (lookup_stream o id)) [
    | inl e ↦ rw (acked_stream_data_offset_cb, e) (Carries-refl o)
    | inr (r, e) ↦
        rw (acked_stream_data_offset_cb, e)
          (store-Carries o r _ (f.acknowledges (o.cell r) datalen))
  ]

  stream_close_cb-Carries :
      (o : Objects) (has_code : Bool) (id code : ℕ)
      → Carries R o (stream_close_cb o has_code id code)
  unfolding stream_close_cb
  stream_close_cb-Carries o has_code id code = elim (Option-cases (lookup_stream o id)) [
    | inl e ↦ rw (stream_close_cb, e) (Carries-refl o)
    | inr (r, e) ↦
        rw (stream_close_cb, e)
          (same_cells o _ _ _ (store-Carries o r _ (f.closes (o.cell r) has_code code)))
  ]

  stream_reset_cb-Carries : (o : Objects) (id code : ℕ) → Carries R o (stream_reset_cb o id code)
  unfolding stream_reset_cb
  stream_reset_cb-Carries o id code = elim (Option-cases (lookup_stream o id)) [
    | inl e ↦ rw (stream_reset_cb, e) (Carries-refl o)
    | inr (r, e) ↦ rw (stream_reset_cb, e) (store-Carries o r _ (f.resets (o.cell r) code))
  ]

  pub callback-Carries : (o : Objects) (e : Event) → Carries R o (callback o e)
  unfolding callback
  callback-Carries o (stream_open id) = stream_open_cb-Carries o id
  callback-Carries o (recv_stream_data fin id bytes) = recv_stream_data_cb-Carries o fin id bytes
  callback-Carries o (acked_stream_data_offset id datalen) =
      acked_stream_data_offset_cb-Carries o id datalen
  callback-Carries o (stream_close has_code id code) = stream_close_cb-Carries o has_code id code
  callback-Carries o (stream_reset id code) = stream_reset_cb-Carries o id code

  pub callbacks-Carries : (o : Objects) (es : List Event) → Carries R o (callbacks o es)
  unfolding callbacks
  callbacks-Carries o [] = Carries-refl o
  callbacks-Carries o (e ∷ es) =
      Carries-trans o (callback o e) (callbacks (callback o e) es) (callback-Carries o e)
        (callbacks-Carries (callback o e) es)
