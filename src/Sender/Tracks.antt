-- ===== src/Sender/Tracks.antt =====
-- The invariant of all streams of a client, and the callbacks of ngtcp2.
use quic_ruby.Base.{
  ℕ, ◌≤◌, ◌<◌, ◌≡◌, ◌≢◌, refl, sym, ◌∙◌, subst, subst₂, ◌⊎◌, inl, inr, false, some, List, [], arith,
  ◌==◌, ==_iff, Bool-cases,
}
use quic_ruby.Ruby.Hash.{
  aref, aset, delete, aref-aset, aref-delete, Distinct, aset-Distinct, delete-Distinct,
}
use quic_ruby.Stream.{Stream, stream_new}
use quic_ruby.Client.Objects.{Objects, update, store, register}
use quic_ruby.Client.Frame.{update-all}
use quic_ruby.Sender.Invariant.{IsSending}

-- Every stream object keeps the sending invariant, with the bytes accepted and framed for it; a
-- registered stream exists and carries the id under which it is registered.
pub record Tracks (accepted framed : ℕ → List ℕ) (o : Objects) : Type 0 where
  pub sending : (r : ℕ) → IsSending (accepted r) (framed r) (o.cell r)
  pub fresh : (r : ℕ) → o.next ≤ r → (accepted r ≡ []) × (framed r ≡ [])
  pub known : (id r : ℕ) → aref id o.streams ≡ some r → (r < o.next) × ((o.cell r).stream_id ≡ id)
  pub distinct : Distinct o.streams

stream_new-IsSending : (id : ℕ) → IsSending [] [] (stream_new id)
unfolding stream_new
stream_new-IsSending id = record {
  queued = refl;
  filled = tt;
  shifted_le = omega arith;
  acked_le = omega arith;
  sent_le = omega arith;
  in_order = refl;
  flushed = λ e. cc;
  small = omega arith;
}

ne→== : (a b : ℕ) → a ≢ b → (a == b) ≡ false
ne→== a b h = ground arith

module _ {accepted framed : ℕ → List ℕ} {o : Objects} (t : Tracks accepted framed o) where
  -- Writing a stream that keeps its id and its part of the invariant.
  pub store-Tracks :
      (r : ℕ) (s : Stream)
      → IsSending (accepted r) (framed r) s
      → s.stream_id ≡ (o.cell r).stream_id
      → Tracks accepted framed (store o r s)
  store-Tracks r s v e = record {
    sending = update-all (λ q x. IsSending (accepted q) (framed q) x) o.cell r s v t.sending;
    fresh = t.fresh;
    known = λ id q h. (
      (t.known id q h).0,
      update-all (λ x y. y.stream_id ≡ (o.cell x).stream_id) o.cell r s e (λ x. refl) q
          ∙ (t.known id q h).1,
    );
    distinct = t.distinct;
  }

  aref-aset-known :
      (k id q : ℕ)
      → aref id (aset k o.next o.streams) ≡ some q
      → ((q ≡ o.next) × (k ≡ id)) ⊎ ((q < o.next) × ((o.cell q).stream_id ≡ id))
  aref-aset-known k id q h =
      ground (arith, aref-aset k id o.next o.streams, t.known id q, ==_iff k id)

  -- A new stream has no byte behind it.
  pub register-Tracks : (k : ℕ) → Tracks accepted framed (register o k)
  unfolding register stream_new
  register-Tracks k = record {
    sending =
        update-all (λ q x. IsSending (accepted q) (framed q) x) o.cell o.next (stream_new k)
          new_stream t.sending;
    fresh = λ r h. t.fresh r (omega arith);
    known = λ id q h. ground (arith, aref-aset-known k id q h);
    distinct = aset-Distinct k o.next o.streams t.distinct;
  }
    where
      new_stream : IsSending (accepted o.next) (framed o.next) (stream_new k)
      new_stream =
          let none_yet = t.fresh o.next (omega arith) in
          subst₂ (λ a f. IsSending a f (stream_new k)) (sym none_yet.0) (sym none_yet.1)
            (stream_new-IsSending k)

  -- Dropping an entry of the registry; the stream object stays.
  pub delete-Tracks : (k : ℕ) → Tracks accepted framed (record o { streams = delete k o.streams })
  delete-Tracks k = record {
    sending = t.sending;
    fresh = t.fresh;
    known = λ id q h. t.known id q (aref-delete k id q o.streams t.distinct h);
    distinct = delete-Distinct k o.streams t.distinct;
  }

  -- The queue of streams to accept plays no part.
  pub queue-Tracks : (queue : List ℕ) → Tracks accepted framed (record o { accept_queue = queue })
  queue-Tracks queue = record {
    sending = t.sending;
    fresh = t.fresh;
    known = t.known;
    distinct = t.distinct;
  }

  -- Writing a stream whose bytes change with it, and no other stream's.
  pub change-Tracks :
      {accepted' framed' : ℕ → List ℕ} (r : ℕ) (s : Stream)
      → r < o.next
      → IsSending (accepted' r) (framed' r) s
      → s.stream_id ≡ (o.cell r).stream_id
      → ((q : ℕ) → (r == q) ≡ false → (accepted q ≡ accepted' q) × (framed q ≡ framed' q))
      → Tracks accepted' framed' (store o r s)
  change-Tracks {accepted'} {framed'} r s below v id same = record {
    sending = λ q. elim (Bool-cases (r == q)) [
      | inl e ↦
          subst (λ x. IsSending (accepted' x) (framed' x) (update o.cell r s x)) ((==_iff r q).0 e)
            (rw ((==_iff r r).1 refl) v)
      | inr e ↦
          rw e (subst₂ (λ a f. IsSending a f (o.cell q)) (same q e).0 (same q e).1 (t.sending q))
    ];
    fresh = λ q h.
        let apart = same q (ne→== r q (omega arith)) in
        (sym apart.0 ∙ (t.fresh q h).0, sym apart.1 ∙ (t.fresh q h).1);
    known = λ id' q h. (
      (t.known id' q h).0,
      update-all (λ x y. y.stream_id ≡ (o.cell x).stream_id) o.cell r s id (λ x. refl) q
          ∙ (t.known id' q h).1,
    );
    distinct = t.distinct;
  }
