-- ===== src/Sender/Retain/Pushed.antt =====
-- A write pushes a chunk to `@pending_chunks` (quic_stream_enqueue of ext/quic/stream.c).
use quic_ruby.Base.{
  ℕ, ◌+◌, ◌≤◌, ◌<◌, ◌≡◌, refl, sym, ap, ◌∙◌, subst, inl, inr, Bool, false, List, [], ◌∷◌, ◌++◌,
  arith, length, flatten, flatten-snoc, long_limit, ltb, append_assoc, append-nil, Bool-cases,
  if◌then◌else◌, ◌==◌, ==_iff, dec_lt, nil_of_length, length-append,
}
use quic_ruby.Ruby.{Value, Result, ok, raise, check_string}
use quic_ruby.Stream.{Stream, stream_alloc, stream_new, append_chunk}
use quic_ruby.Client.Objects.{Objects, store}
use quic_ruby.Client.State.{Client}
use quic_ruby.Client.Io.{enqueue_on, stream}
use quic_ruby.Client.Frame.{Carries}
use quic_ruby.Sender.Accepted.{accepted_by, enqueue-Enqueues}
use quic_ruby.Sender.Retain.{Holds, GoesOn}

-- The chunks pushed to each stream after a write: one more, unless it raised or had no bytes.
unfoldable pub pushed_by : (ℕ → List (List ℕ)) → ℕ → List ℕ → Result ℕ → ℕ → List (List ℕ)
pushed_by written r bytes (raise e) q = written q
pushed_by written r bytes (ok n) q =
    if r == q
    then (if ltb 0 (length bytes) then written q ++ bytes ∷ [] else written q)
    else written q

-- Every stream holds the tail of what was pushed to it, all of which are the accepted bytes.
pub record Retains (written : ℕ → List (List ℕ)) (accepted : ℕ → List ℕ) (o : Objects)
    : Type 0 where
  pub holds : (r : ℕ) → r < o.next → Holds (written r) (o.cell r)
  pub fresh : (r : ℕ) → o.next ≤ r → written r ≡ []
  pub joined : (r : ℕ) → flatten (written r) ≡ accepted r

stream_new-Holds : (id : ℕ) → Holds [] (stream_new id)
unfolding stream_new stream_alloc
stream_new-Holds id = record {
  tail = record { dropped = []; splits = refl; counts = refl };
  small = omega arith;
}

-- A step that pushes nothing.
pub Carries-Retains :
    {written : ℕ → List (List ℕ)} {accepted : ℕ → List ℕ} (o p : Objects)
    → Carries GoesOn o p
    → Retains written accepted o
    → Retains written accepted p
Carries-Retains {written} o p k v = record {
  holds = λ r below. elim (dec_lt r o.next) [
    | yes early ↦ k.same r early (written r) (v.holds r early)
    | no late ↦
        let (id, first) = k.born r (omega arith) below in
        subst (λ w. Holds w (p.cell r)) (sym (v.fresh r (omega arith)))
          (first [] (stream_new-Holds id))
  ];
  fresh = λ r h. v.fresh r (omega (arith, k.grows));
  joined = v.joined;
}

-- Pushing a chunk.
append_chunk-Holds :
    (written : List (List ℕ)) (s : Stream) (bytes : List ℕ) (fin : Bool)
    → length (flatten written) + length bytes < long_limit
    → Holds written s
    → Holds
        (if ltb 0 (length bytes) then written ++ bytes ∷ [] else written)
        (append_chunk s bytes fin)
unfolding append_chunk
append_chunk-Holds written s bytes fin small h = elim (Bool-cases (ltb 0 (length bytes))) [
  | inl full ↦
      rw (append_chunk, full)
        (record {
          tail = record {
            dropped = h.tail.dropped;
            splits =
                ap (λ w. w ++ bytes ∷ []) h.tail.splits
                ∙ append_assoc h.tail.dropped s.pending_chunks (bytes ∷ []);
            counts = h.tail.counts;
          };
          small = omega (
            arith,
            ap length (flatten-snoc written bytes),
            length-append (flatten written) bytes,
          );
        })
  | inr empty ↦ rw (append_chunk, empty) (record { tail = h.tail; small = h.small })
]

pushed-joined :
    (written : List (List ℕ)) (accepted bytes : List ℕ)
    → flatten written ≡ accepted
    → flatten (if ltb 0 (length bytes) then written ++ bytes ∷ [] else written) ≡ accepted ++ bytes
pushed-joined written accepted bytes e = elim (Bool-cases (ltb 0 (length bytes))) [
  | inl full ↦ rw full (flatten-snoc written bytes ∙ ap (λ w. w ++ bytes) e)
  | inr empty ↦ rw empty (
      e
      ∙ sym (append-nil accepted)
      ∙ ap (λ b. accepted ++ b) (sym (nil_of_length bytes (ground arith))))
]

module _ {Conn : Type 0} {written : ℕ → List (List ℕ)} {accepted : ℕ → List ℕ} (c : Client Conn)
    (r : ℕ) (v : Value) (bytes : List ℕ) (fin : Bool) (k : Retains written accepted c.objects)
    (below : r < c.objects.next) (text : check_string v ≡ ok bytes)
    (small : length (accepted r) + length bytes < long_limit) where
  pushed :
      (written' : ℕ → List (List ℕ)) (accepted' : ℕ → List ℕ) (s : Stream)
      → Holds (written' r) s
      → flatten (written' r) ≡ accepted' r
      → ((q : ℕ) → (r == q) ≡ false → (written q ≡ written' q) × (accepted q ≡ accepted' q))
      → Retains written' accepted' (store c.objects r s)
  pushed written' accepted' s h e apart = record {
    holds = λ q in_range. elim (Bool-cases (r == q)) [
      | inl here ↦ rw here (subst (λ x. Holds (written' x) s) ((==_iff r q).0 here) h)
      | inr there ↦
          rw there (subst (λ w. Holds w (c.objects.cell q)) (apart q there).0 (k.holds q in_range))
    ];
    fresh = λ q h. sym (apart q (ground arith)).0 ∙ k.fresh q h;
    joined = λ q. elim (Bool-cases (r == q)) [
      | inl here ↦ subst (λ x. flatten (written' x) ≡ accepted' x) ((==_iff r q).0 here) e
      | inr there ↦ ap flatten (sym (apart q there).0) ∙ k.joined q ∙ (apart q there).1
    ];
  }

  pub enqueue_on-Retains :
      Retains
        (pushed_by written r bytes (enqueue_on c r v fin).0)
        (accepted_by accepted r bytes (enqueue_on c r v fin).0)
        (enqueue_on c r v fin).1.objects
  unfolding enqueue_on accepted_by pushed_by
  enqueue_on-Retains = elim (enqueue-Enqueues (stream c r) v bytes fin text) [
    | inl (e, writing) ↦
        rw (enqueue_on, e, accepted_by, pushed_by)
          (pushed _ _ (append_chunk (stream c r) bytes fin)
            (rw ((==_iff r r).1 refl) (
              append_chunk-Holds (written r) (stream c r) bytes fin
                (omega (arith, ap length (k.joined r), small)) (k.holds r below)))
            (rw ((==_iff r r).1 refl) (pushed-joined (written r) (accepted r) bytes (k.joined r)))
            (λ q h. rw h (refl, refl)))
    | inr (x, e) ↦
        rw (enqueue_on, e, accepted_by, pushed_by)
          (pushed written accepted (stream c r) (k.holds r below) (k.joined r)
            (λ q h. (refl, refl)))
  ]
