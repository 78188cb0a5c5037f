-- ===== src/Client/Picker/Offers.antt =====
-- What the outer loop of quic_client_pick_send_stream of ext/quic/connection_client.c returns, and what
-- it does not depend on.
use quic_ruby.Base.{
  ℕ, ◌≡◌, refl, ap, ◌∙◌, true, some, List, [], ◌∷◌, inl, inr, arith, Bool-cases, Option-cases, ◌==◌,
  ==_iff,
}
use quic_ruby.Stream.{Stream}
use quic_ruby.Client.Objects.{Objects, update, store}
use quic_ruby.Client.Picker.{Candidate, candidate, pick_from, pick_send_stream}

-- The picker does not look at `reset`.
candidate-reset : (s : Stream) → candidate (record s { reset = true }) ≡ candidate s
unfolding candidate
candidate-reset s = refl

pick_from-turn :
    (cell cell' : ℕ → Stream) (q : ℕ) (refs : List ℕ) (r : ℕ) (p : Candidate)
    → candidate (cell' q) ≡ candidate (cell q)
    → (pick_from cell refs ≡ some (r, p) → pick_from cell' refs ≡ some (r, p))
    → pick_from cell (q ∷ refs) ≡ some (r, p)
    → pick_from cell' (q ∷ refs) ≡ some (r, p)
unfolding pick_from
pick_from-turn cell cell' q refs r p same later e = elim (Option-cases (candidate (cell q))) [
  | inl nothing ↦ ground (arith, later)
  | inr (x, offer) ↦ ground arith
]

pick_from-same :
    (cell cell' : ℕ → Stream) (refs : List ℕ) (r : ℕ) (p : Candidate)
    → ((q : ℕ) → candidate (cell' q) ≡ candidate (cell q))
    → pick_from cell refs ≡ some (r, p)
    → pick_from cell' refs ≡ some (r, p)
pick_from-same cell cell' [] r p same e = unfold pick_from in cc
pick_from-same cell cell' (q ∷ refs) r p same e =
    pick_from-turn cell cell' q refs r p (same q) (pick_from-same cell cell' refs r p same) e

offers-turn :
    (cell : ℕ → Stream) (q : ℕ) (refs : List ℕ) (r : ℕ) (p : Candidate)
    → (pick_from cell refs ≡ some (r, p) → candidate (cell r) ≡ some p)
    → pick_from cell (q ∷ refs) ≡ some (r, p)
    → candidate (cell r) ≡ some p
unfolding pick_from
offers-turn cell q refs r p later e = elim (Option-cases (candidate (cell q))) [
  | inl nothing ↦ ground (arith, later)
  | inr (x, offer) ↦ ground arith
]

pick_from-offers :
    (cell : ℕ → Stream) (refs : List ℕ) (r : ℕ) (p : Candidate)
    → pick_from cell refs ≡ some (r, p)
    → candidate (cell r) ≡ some p
pick_from-offers cell [] r p e = unfold pick_from in cc
pick_from-offers cell (q ∷ refs) r p e =
    offers-turn cell q refs r p (pick_from-offers cell refs r p) e

candidate-id : (s : Stream) (p : Candidate) → candidate s ≡ some p → p.stream_id ≡ s.stream_id
unfolding candidate
candidate-id s p e = ground arith

pub picked-id :
    (o : Objects) (r : ℕ) (p : Candidate)
    → pick_send_stream o ≡ some (r, p)
    → p.stream_id ≡ (o.cell r).stream_id
unfolding pick_send_stream
picked-id o r p e = candidate-id (o.cell r) p (pick_from-offers o.cell _ r p e)

pub reset-picks :
    (o : Objects) (r : ℕ) (p : Candidate)
    → pick_send_stream o ≡ some (r, p)
    → pick_send_stream (store o r (record (o.cell r) { reset = true })) ≡ some (r, p)
unfolding pick_send_stream
reset-picks o r p e = pick_from-same o.cell _ _ r p same e
  where
    same :
        (q : ℕ)
        → candidate (update o.cell r (record (o.cell r) { reset = true }) q) ≡ candidate (o.cell q)
    same q = elim (Bool-cases (r == q)) [
      | inl here ↦
          rw here
            (candidate-reset (o.cell r) ∙ ap (λ x. candidate (o.cell x)) ((==_iff r q).0 here))
      | inr there ↦ rw there
    ]
