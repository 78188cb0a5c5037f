-- ===== src/Sender/Pick.antt =====
-- What quic_client_pick_send_stream chooses to send for a stream.
use quic_ruby.Base.{
  ℕ, zero, suc, ◌-◌, ◌<◌, ◌≡◌, ◌≢◌, ◌↔◌, refl, sym, ap, ◌∙◌, ◌⊎◌, inl, inr, true, false, Option,
  none, some, List, [], ◌∷◌, ◌++◌, ◌&&◌, arith, length, drop, get_or, flatten, All, u64_mod, sub64,
  ◌==◌, Bool-cases, Option-cases, drop-all, drop-drop, subst, length-append, length-drop,
}
use quic_ruby.Stream.{Stream}
use quic_ruby.Client.Picker.{Candidate, find_chunk, candidate}
use quic_ruby.Sender.Invariant.{IsSending}
use quic_ruby.Sender.Chunks.{Finds, find_chunk-some, find_chunk-none}

-- The bytes from the next unsent one on: `bytes` is a first part of them, and FIN goes along
-- exactly when the application has finished and no byte is left behind.
pub record IsNext (accepted : List ℕ) (s : Stream) (p : Candidate) : Type 0 where
  pub rest : List ℕ
  pub continues : p.bytes ++ rest ≡ drop s.sent_offset accepted
  pub same_stream : p.stream_id ≡ s.stream_id
  pub fin_last : (p.fin ≡ true) ↔ ((s.fin_sent ≡ true) × (rest ≡ []))
  pub counted :
      (p.datavcnt ≡ 1) × (0 < length p.bytes) ⊎ (p.datavcnt ≡ 0) × (p.bytes ≡ []) × (p.fin ≡ true)

-- The unsent bytes, seen in the queue.
pub unsent-queue :
    {accepted framed : List ℕ} {s : Stream}
    → IsSending accepted framed s
    → drop (s.sent_offset - s.pending_shifted) (flatten s.pending_chunks)
      ≡ drop s.sent_offset accepted
unsent-queue {accepted} {framed} {s} v =
    ap (drop (s.sent_offset - s.pending_shifted)) v.queued
    ∙ drop-drop s.pending_shifted (s.sent_offset - s.pending_shifted) accepted
    ∙ ap (λ k. drop k accepted) (omega arith)

position-lem :
    {accepted framed : List ℕ} {s : Stream}
    → IsSending accepted framed s
    → (sub64 s.sent_offset s.pending_shifted ≡ s.sent_offset - s.pending_shifted)
      × (s.sent_offset - s.pending_shifted < u64_mod)
position-lem v = omega arith

-- With every chunk filled, nothing follows the last chunk alone.
flatten-empty :
    (i : ℕ) (chunks : List (List ℕ))
    → All (λ c. 0 < length c) chunks
    → i < length chunks
    → (flatten (drop (suc i) chunks) ≡ []) ↔ (i ≡ length chunks - 1)
flatten-empty i [] f h = absurd (omega arith)
flatten-empty zero (c ∷ []) f h = (λ e. omega arith, λ e. refl)
flatten-empty zero (c ∷ d ∷ rest) f h = (
  λ e. absurd (omega (arith, ap length e, length-append d (flatten rest))),
  λ e. absurd (omega arith),
)
flatten-empty (suc i) (c ∷ rest) f h =
    let ih = flatten-empty i rest f.1 (omega arith) in
    (λ e. omega (arith, ih.0 e), λ e. ih.1 (omega arith))

-- The candidate that the code builds from a chunk.
abbrev from_chunk : Stream → ℕ → ℕ → Candidate
from_chunk s i offset = record {
  bytes = drop offset (get_or s.pending_chunks i []);
  datavcnt = 1;
  fin = s.fin_sent && i == length s.pending_chunks - 1;
  stream_id = s.stream_id;
}

abbrev fin_only : Stream → Candidate
fin_only s = record { bytes = []; datavcnt = 0; fin = true; stream_id = s.stream_id }

module _ {accepted framed : List ℕ} {s : Stream} (v : IsSending accepted framed s) where
  abbrev search_chunk : Option (ℕ × ℕ)
  search_chunk = find_chunk (sub64 s.sent_offset s.pending_shifted) s.pending_chunks 0

  from_chunk-IsNext :
      (i offset : ℕ) → search_chunk ≡ some (i, offset) → IsNext accepted s (from_chunk s i offset)
  from_chunk-IsNext i offset e = record {
    rest = flatten (drop (suc i) s.pending_chunks);
    continues =
        subst (λ k. Joins k) at_i found.splits
        ∙ ap (λ k. drop k (flatten s.pending_chunks)) (position-lem v).0
        ∙ unsent-queue v;
    same_stream = refl;
    fin_last = ground (arith, last.0, last.1);
    counted = inl (refl, omega (arith, within, length-drop offset (get_or s.pending_chunks i [])));
  }
    where
      found : Finds s.pending_chunks (sub64 s.sent_offset s.pending_shifted) 0 i offset
      found = find_chunk-some _ s.pending_chunks 0 i offset (omega arith) e

      at_i : found.index ≡ i
      at_i = omega (arith, found.counted)

      Joins : ℕ → Type 0
      Joins k =
          drop offset (get_or s.pending_chunks k []) ++ flatten (drop (suc k) s.pending_chunks)
          ≡ drop (sub64 s.sent_offset s.pending_shifted) (flatten s.pending_chunks)

      within : offset < length (get_or s.pending_chunks i [])
      within = subst (λ k. offset < length (get_or s.pending_chunks k [])) at_i found.within

      last : (flatten (drop (suc i) s.pending_chunks) ≡ []) ↔ (i ≡ length s.pending_chunks - 1)
      last =
          flatten-empty i s.pending_chunks v.filled
            (subst (λ k. k < length s.pending_chunks) at_i found.inside)

  unsent_none : search_chunk ≡ none → s.sent_offset ≡ length accepted
  unsent_none e = omega (
    arith,
    find_chunk-none _ s.pending_chunks 0 (omega arith) e,
    ap length v.queued,
    length-drop s.pending_shifted accepted,
  )

  fin_only-IsNext : search_chunk ≡ none → s.fin_sent ≡ true → IsNext accepted s (fin_only s)
  fin_only-IsNext e h = record {
    rest = [];
    continues = sym (drop-all s.sent_offset accepted (omega (arith, unsent_none e)));
    same_stream = refl;
    fin_last = (λ _. (h, refl), λ _. refl);
    counted = inr (refl, refl, refl);
  }

  -- On a stream in the sending invariant, what the picker takes continues at the next unsent byte,
  -- and carries FIN exactly where the application has finished and no byte is left behind.
  pub candidate-IsNext : (p : Candidate) → candidate s ≡ some p → IsNext accepted s p
  unfolding candidate
  candidate-IsNext p e = elim (Bool-cases s.fin_flushed) [
    | inl done ↦ ground arith
    | inr open_fin ↦ elim (Option-cases search_chunk) [
      | inr ((i, offset), found) ↦ ground (arith, from_chunk-IsNext i offset found)
      | inl missing ↦ elim (Bool-cases s.fin_sent) [
        | inl finished ↦ ground (arith, fin_only-IsNext missing finished)
        | inr writing ↦ ground arith
      ]
    ]
  ]

  unsent_some : (i offset : ℕ) → search_chunk ≡ some (i, offset) → s.sent_offset ≢ length accepted
  unsent_some i offset e h =
      let next = from_chunk-IsNext i offset e in
      omega (
        arith,
        next.counted,
        ap length next.continues,
        length-append (from_chunk s i offset).bytes next.rest,
        length-drop s.sent_offset accepted,
      )

  -- On a stream in the sending invariant, the picker finds nothing exactly when FIN is flushed, or
  -- every accepted byte is sent and the application has not finished.
  pub candidate-none :
      (candidate s ≡ none)
      ↔ ((s.fin_flushed ≡ true) ⊎ (s.sent_offset ≡ length accepted) × (s.fin_sent ≡ false))
  unfolding candidate
  candidate-none = elim (Option-cases search_chunk) [
    | inr ((i, offset), found) ↦ ground (arith, unsent_some i offset found)
    | inl missing ↦ ground (arith, unsent_none missing)
  ]
