-- ===== src/Sender/Chunks.antt =====
-- The inner loop of the picker over the chunks of a stream.
use quic_ruby.Base.{
  ℕ, suc, ◌+◌, ◌-◌, ◌≤◌, ◌<◌, ◌≡◌, sym, ◌∙◌, Option, none, some, List, [], ◌∷◌, ◌++◌, arith, length,
  drop, get_or, flatten, u64_mod, sub64, drop-append_le, drop-append_ge, length-append, lt→ltb,
  dec_lt, subst₂,
}
use quic_ruby.Client.Picker.{find_chunk}

-- `i` and `offset` name the byte at `position` of the joined chunks.
pub record Finds (chunks : List (List ℕ)) (position j i offset : ℕ) : Type 0 where
  pub index : ℕ
  pub counted : i ≡ j + index
  pub inside : index < length chunks
  pub within : offset < length (get_or chunks index [])
  pub splits :
      drop offset (get_or chunks index []) ++ flatten (drop (suc index) chunks)
      ≡ drop position (flatten chunks)

sub64-lem : (a b : ℕ) → b ≤ a → a < u64_mod → sub64 a b ≡ a - b
sub64-lem a b h k = omega arith

Finds-later :
    (c : List ℕ) (rest : List (List ℕ)) (position j i offset : ℕ)
    → length c ≤ position
    → Finds rest (position - length c) (suc j) i offset
    → Finds (c ∷ rest) position j i offset
Finds-later c rest position j i offset h f = record {
  index = suc f.index;
  counted = omega (arith, f.counted);
  inside = omega (arith, f.inside);
  within = f.within;
  splits = f.splits ∙ sym (drop-append_ge position c (flatten rest) h);
}

Finds-here :
    (c : List ℕ) (rest : List (List ℕ)) (position j : ℕ)
    → position < length c
    → Finds (c ∷ rest) position j j position
Finds-here c rest position j h = record {
  index = 0;
  counted = omega arith;
  inside = omega arith;
  within = h;
  splits = sym (drop-append_le position c (flatten rest) (omega arith));
}

find_chunk-here :
    (c : List ℕ) (rest : List (List ℕ)) (position j : ℕ)
    → position < length c
    → find_chunk position (c ∷ rest) j ≡ some (j, position)
unfolding find_chunk
find_chunk-here c rest position j h = rw (lt→ltb _ _ h)

find_chunk-there :
    (c : List ℕ) (rest : List (List ℕ)) (position j : ℕ)
    → length c ≤ position
    → position < u64_mod
    → find_chunk position (c ∷ rest) j ≡ find_chunk (position - length c) rest (suc j)
unfolding find_chunk
find_chunk-there c rest position j h k = ground (arith, sub64-lem position (length c))

-- What it finds is the byte at `position`, with all that follows it.
pub find_chunk-some :
    (position : ℕ) (chunks : List (List ℕ)) (j i offset : ℕ)
    → position < u64_mod
    → find_chunk position chunks j ≡ some (i, offset)
    → Finds chunks position j i offset
find_chunk-some position [] j i offset h e = unfold find_chunk in cc
find_chunk-some position (c ∷ rest) j i offset h e = elim (dec_lt position (length c)) [
  | yes here ↦
      let found : ◌≡◌ {A = Option (ℕ × ℕ)} (some (j, position)) (some (i, offset)) =
        sym (find_chunk-here c rest position j here) ∙ e in
      subst₂ (λ a b. Finds (c ∷ rest) position j a b) (cc) (cc) (Finds-here c rest position j here)
  | no there ↦ Finds-later c rest position j i offset (omega arith) (
      find_chunk-some (position - length c) rest (suc j) i offset (omega arith)
        (sym (find_chunk-there c rest position j (omega arith) h) ∙ e))
]

-- It finds nothing only where no byte is left.
pub find_chunk-none :
    (position : ℕ) (chunks : List (List ℕ)) (j : ℕ)
    → position < u64_mod
    → find_chunk position chunks j ≡ none
    → length (flatten chunks) ≤ position
find_chunk-none position [] j h e = omega arith
find_chunk-none position (c ∷ rest) j h e = elim (dec_lt position (length c)) [
  | yes here ↦ cc (find_chunk-here c rest position j here)
  | no there ↦ omega (
    arith,
    length-append c (flatten rest),
    find_chunk-none (position - length c) rest (suc j) (omega arith)
        (sym (find_chunk-there c rest position j (omega arith) h) ∙ e),
  )
]
