-- ===== src/Sender/Accepted.antt =====
-- What a write through a stream's reference adds to the bytes accepted.
use quic_ruby.Base.{
  ℕ, ◌+◌, ◌<◌, ◌≡◌, refl, ◌⊎◌, Bool, false, List, ◌++◌, inl, inr, ◌==◌, ◌||◌, ==_iff, Bool-cases,
  if◌then◌else◌, length, long_limit,
}
use quic_ruby.Ruby.{Value, Result, ok, raise, Exception, check_string}
use quic_ruby.Stream.{Stream, enqueue, append_chunk}
use quic_ruby.Client.State.{Client}
use quic_ruby.Client.Io.{enqueue_on, stream}
use quic_ruby.Sender.Write.{append_chunk-IsSending}
use quic_ruby.Sender.Tracks.{Tracks, store-Tracks, change-Tracks}

-- The bytes accepted for each stream after a write: all of them, or none if it raised.
unfoldable pub accepted_by : (ℕ → List ℕ) → ℕ → List ℕ → Result ℕ → ℕ → List ℕ
accepted_by accepted r bytes (raise e) q = accepted q
accepted_by accepted r bytes (ok n) q = if r == q then accepted q ++ bytes else accepted q

-- The two ends of a write of a String.
abbrev pub Enqueues : Stream → List ℕ → Bool → Result ℕ × Stream → Type 0
Enqueues s bytes fin out =
    ((out ≡ (ok (length bytes), append_chunk s bytes fin)) × (s.fin_sent ≡ false))
    ⊎ ((e : Exception) × (out ≡ (raise e, s)))

pub enqueue-Enqueues :
    (s : Stream) (v : Value) (bytes : List ℕ) (fin : Bool)
    → check_string v ≡ ok bytes
    → Enqueues s bytes fin (enqueue s v fin)
unfolding enqueue
enqueue-Enqueues s v bytes fin e = elim (Bool-cases (s.reset || s.closed)) [
  | inl shut ↦ rw shut (inr (_, refl))
  | inr usable ↦ elim (Bool-cases s.fin_sent) [
    | inl done ↦ rw (usable, done) (inr (_, refl))
    | inr more ↦ inl (simp (usable, more, e), more)
  ]
]

append_chunk-id :
    (s : Stream) (bytes : List ℕ) (fin : Bool) → (append_chunk s bytes fin).stream_id ≡ s.stream_id
unfolding append_chunk
append_chunk-id s bytes fin = refl

module _ {Conn : Type 0} {accepted framed : ℕ → List ℕ} (c : Client Conn) (r : ℕ) (v : Value)
    (bytes : List ℕ) (fin : Bool) (t : Tracks accepted framed c.objects)
    (below : r < c.objects.next) (text : check_string v ≡ ok bytes)
    (small : length (accepted r) + length bytes < long_limit) where
  -- A write of a String adds its bytes to the end of its own stream, or raises and adds none, and
  -- every stream keeps the sending invariant, while fewer than 2^63 bytes are written to the
  -- stream.
  pub enqueue_on-Tracks :
      Tracks
        (accepted_by accepted r bytes (enqueue_on c r v fin).0)
        framed
        (enqueue_on c r v fin).1.objects
  unfolding enqueue_on accepted_by append_chunk
  enqueue_on-Tracks = elim (enqueue-Enqueues (stream c r) v bytes fin text) [
    | inl (e, writing) ↦
        rw (enqueue_on, e, accepted_by)
          (change-Tracks t r _ below
            (rw ((==_iff r r).1 refl)
              (append_chunk-IsSending (t.sending r) bytes fin writing small))
            (append_chunk-id (stream c r) bytes fin) (λ q h. (rw h, refl)))
    | inr (x, e) ↦
        rw (enqueue_on, e, accepted_by) (store-Tracks t r (stream c r) (t.sending r) refl)
  ]
