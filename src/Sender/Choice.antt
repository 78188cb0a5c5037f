-- ===== src/Sender/Choice.antt =====
-- Which registered stream the picker chooses.
use quic_ruby.Base.{
  ℕ, ◌≡◌, refl, ap, subst₂, none, some, List, [], ◌∷◌, arith, Option-cases, inl, inr, ◌==◌, ==_iff,
  Bool-cases,
}
use quic_ruby.Ruby.Hash.{aref, values, Distinct}
use quic_ruby.Stream.{Stream}
use quic_ruby.Client.Picker.{Candidate, candidate, pick_from}

-- `id` is registered for the stream `r`, which has `p` to send.
pub record IsChoice (cell : ℕ → Stream) (h : List (ℕ × ℕ)) (r : ℕ) (p : Candidate) : Type 0 where
  pub id : ℕ
  pub registered : aref id h ≡ some r
  pub offers : candidate (cell r) ≡ some p

IsChoice-later :
    (cell : ℕ → Stream) (j q : ℕ) (h : List (ℕ × ℕ)) (r : ℕ) (p : Candidate)
    → aref j h ≡ none
    → IsChoice cell h r p
    → IsChoice cell ((j, q) ∷ h) r p
unfolding aref
IsChoice-later cell j q h r p new c = elim (Bool-cases (j == c.id)) [
  | inl e ↦ absurd (clash ((==_iff j c.id).0 e))
  | inr e ↦ record { id = c.id; registered = rw e c.registered; offers = c.offers }
]
  where
    clash : j ≡ c.id → ⊥
    clash e = cc (ap (λ k. aref k h) e, c.registered)

pub aref-here : (j q : ℕ) (h : List (ℕ × ℕ)) → aref j ((j, q) ∷ h) ≡ some q
unfolding aref
aref-here j q h = rw ((==_iff j j).1 refl)

pub pick_from-IsChoice :
    (cell : ℕ → Stream) (h : List (ℕ × ℕ)) (r : ℕ) (p : Candidate)
    → Distinct h
    → pick_from cell (values h) ≡ some (r, p)
    → IsChoice cell h r p
unfolding pick_from values
pick_from-IsChoice cell [] r p d e = cc
pick_from-IsChoice cell ((j, q) ∷ h) r p d e = elim (Option-cases (candidate (cell q))) [
  | inl idle ↦ IsChoice-later cell j q h r p d.0 (pick_from-IsChoice cell h r p d.1 (ground arith))
  | inr (x, found) ↦
      subst₂ (λ r p. IsChoice cell ((j, q) ∷ h) r p) (cc (found)) (cc (found))
        (record { id = j; registered = aref-here j q h; offers = found })
]

-- Where the picker finds nothing, no registered stream has anything to send.
pub pick_from-none :
    (cell : ℕ → Stream) (h : List (ℕ × ℕ))
    → pick_from cell (values h) ≡ none
    → (id r : ℕ) → aref id h ≡ some r
    → candidate (cell r) ≡ none
unfolding pick_from values aref
pick_from-none cell [] e id r a = cc
pick_from-none cell ((j, q) ∷ h) e id r a =
    ground (arith, λ (i : pick_from cell (values h) ≡ none). pick_from-none cell h i id r)
