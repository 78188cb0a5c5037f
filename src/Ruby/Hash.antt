-- ===== src/Ruby/Hash.antt =====
-- A Ruby Hash with Integer keys, in insertion order: the `@streams` registry is one.
use quic_ruby.Base.{
  ℕ, ◌≡◌, ◌≢◌, refl, Option, none, some, List, [], ◌∷◌, arith, ◌==◌, ==_iff, Bool-cases, inl, inr,
  if◌then◌else◌,
}

module _ {V : Type 0} where
  -- rb_hash_aref
  unfoldable pub aref : ℕ → List (ℕ × V) → Option V
  aref k [] = none
  aref k ((j, v) ∷ h) = if j == k then some v else aref k h

  -- rb_hash_aset: a new key goes to the end, a known one keeps its place.
  unfoldable pub aset : ℕ → V → List (ℕ × V) → List (ℕ × V)
  aset k v [] = (k, v) ∷ []
  aset k v ((j, w) ∷ h) = if j == k then (j, v) ∷ h else (j, w) ∷ aset k v h

  -- rb_hash_delete
  unfoldable pub delete : ℕ → List (ℕ × V) → List (ℕ × V)
  delete k [] = []
  delete k ((j, w) ∷ h) = if j == k then h else (j, w) ∷ delete k h

  -- Hash#values
  unfoldable pub values : List (ℕ × V) → List V
  values [] = []
  values ((j, v) ∷ h) = v ∷ values h

  pub aref-aset :
      (k j : ℕ) (v : V) (h : List (ℕ × V))
      → aref j (aset k v h) ≡ (if k == j then some v else aref j h)
  unfolding aref aset
  aref-aset k j v [] = refl
  aref-aset k j v ((i, w) ∷ h) = ground (arith, aref-aset k j v h)

  -- No key stands twice.
  abbrev pub Distinct : List (ℕ × V) → Type 0
  Distinct [] = Unit
  Distinct ((j, v) ∷ h) = (aref j h ≡ none) × Distinct h

  pub aref-delete_ne : (k j : ℕ) (h : List (ℕ × V)) → k ≢ j → aref j (delete k h) ≡ aref j h
  unfolding aref delete
  aref-delete_ne k j [] ne = refl
  aref-delete_ne k j ((i, w) ∷ h) ne = ground (arith, aref-delete_ne k j h ne)

  pub aref-delete_self : (k : ℕ) (h : List (ℕ × V)) → Distinct h → aref k (delete k h) ≡ none
  unfolding aref delete
  aref-delete_self k [] d = refl
  aref-delete_self k ((i, w) ∷ h) d = ground (arith, aref-delete_self k h d.1)

  pub aset-Distinct : (k : ℕ) (v : V) (h : List (ℕ × V)) → Distinct h → Distinct (aset k v h)
  unfolding aref aset
  aset-Distinct k v [] d = (refl, tt)
  aset-Distinct k v ((i, w) ∷ h) d = ground (arith, aref-aset k i v h, aset-Distinct k v h d.1)

  pub delete-Distinct : (k : ℕ) (h : List (ℕ × V)) → Distinct h → Distinct (delete k h)
  unfolding aref delete
  delete-Distinct k [] d = tt
  delete-Distinct k ((i, w) ∷ h) d = ground (arith, aref-delete_ne k i h, delete-Distinct k h d.1)

  pub aref-delete :
      (k j : ℕ) (v : V) (h : List (ℕ × V))
      → Distinct h
      → aref j (delete k h) ≡ some v
      → aref j h ≡ some v
  aref-delete k j v h d e = elim (Bool-cases (k == j)) [
    | inl q ↦ ground (arith, aref-delete_self k h d, ==_iff k j)
    | inr q ↦ ground (arith, aref-delete_ne k j h, ==_iff k j)
  ]
