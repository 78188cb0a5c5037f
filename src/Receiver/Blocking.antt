-- ===== src/Receiver/Blocking.antt =====
-- What the blocking #read gives the application (lib/quic/stream.rb).
use quic_ruby.Base.{
  ℕ, suc, ◌<◌, ◌≡◌, refl, sym, ap, ◌∙◌, Bool, true, none, some, List, [], ◌∷◌, ◌++◌, ◌⊎◌, inl, inr,
  ◌==◌, ==_iff, Bool-cases, Option-cases, arith, length, take, drop, append_assoc, append-nil, pos,
}
use quic_ruby.Ruby.{Value, Numeric, ok, raise}
use quic_ruby.Stream.{Stream, is_eof, read_nonblock}
use quic_ruby.Ngtcp2.{Ngtcp2, Written}
use quic_ruby.Client.Callbacks.{receive, acknowledge, mark_closed, mark_reset}
use quic_ruby.Client.Frame.{IsFrame, Carries}
use quic_ruby.Client.Frame.Pump.{Carries-IsObjectFrame, OnObjects, IsObjectFrame-IsClientFrame}
use quic_ruby.Client.Frame.Until.{pump_until-Keeps}
use quic_ruby.Client.Io.{stream, set_stream}
use quic_ruby.Client.Packets.{account}
use quic_ruby.Client.Picker.{Candidate}
use quic_ruby.Client.Pump.{Turn, pump_until}
use quic_ruby.Client.Read.{
  at_eof, read_ready, read_until_eof, read_rest, read_stream, read_all, read_length, rescue_eof,
  ends_reading,
}
use quic_ruby.Client.State.{Client}
use quic_ruby.Receiver.Read.{delivered, read_bytes-eof, read_bytes-some, count_of}

-- Only bytes are added to the buffer, at its end, and an end of the stream stays.
abbrev pub Extends : Stream → Stream → Type 0
Extends s t =
    ((more : List ℕ) × (t.recv_buffer ≡ s.recv_buffer ++ more))
    × (s.fin_received ≡ true → t.fin_received ≡ true)

same_buffer :
    (s t : Stream) → t.recv_buffer ≡ s.recv_buffer → t.fin_received ≡ s.fin_received → Extends s t
same_buffer s t e f = (([], e ∙ sym (append-nil s.recv_buffer)), λ h. f ∙ h)

Extends-join : (s t u : Stream) → Extends s t → Extends t u → Extends s u
Extends-join s t u ((a, e), h) ((b, f), k) =
    ((a ++ b, f ∙ ap (λ x. x ++ b) e ∙ append_assoc s.recv_buffer a b), λ x. k (h x))

Extends-receive :
    (s : Stream) (surfaced fin : Bool) (bytes : List ℕ) → Extends s (receive s surfaced fin bytes)
unfolding receive
Extends-receive s surfaced fin bytes = ((bytes, delivered s.recv_buffer bytes), λ h. ground arith)

Extends-account : (s : Stream) (p : Candidate) (w : Written) → Extends s (account s p w)
unfolding account
Extends-account s p w = same_buffer s (account s p w) (ground arith) (ground arith)

Extends-IsFrame : IsFrame Extends
unfolding acknowledge mark_closed mark_reset
Extends-IsFrame = record {
  stays = λ s. same_buffer s s refl refl;
  joins = Extends-join;
  receives = Extends-receive;
  acknowledges = λ s datalen. same_buffer s (acknowledge s datalen) refl refl;
  closes = λ s has_code code. same_buffer s (mark_closed s has_code code) refl refl;
  resets = λ s code. same_buffer s (mark_reset s code) refl refl;
}

module _ {Conn : Type 0} (n : Ngtcp2 Conn) (fuel : ℕ) (pred : Client Conn → Bool) where
  -- The loop ends with its predicate, and the turns before have only added to the buffers.
  pub pump_until-Extends :
      (c d : Client Conn) (turns : List Turn)
      → pump_until n fuel pred c turns ≡ some (ok tt, d)
      → (pred d ≡ true) × Carries Extends c.objects d.objects
  pump_until-Extends =
      pump_until-Keeps n (OnObjects (Carries Extends))
        (IsObjectFrame-IsClientFrame n (Carries Extends)
          (Carries-IsObjectFrame Extends Extends-IsFrame Extends-account))
        fuel pred

no_bytes : (xs ys : List ℕ) → length (xs ++ ys) ≡ 0 → xs ≡ []
no_bytes [] ys e = refl
no_bytes (x ∷ xs) ys e = absurd (omega (arith, e))

no_length : (xs : List ℕ) → length xs ≡ 0 → xs ≡ []
no_length [] e = refl
no_length (x ∷ xs) e = absurd (omega (arith, e))

set_stream-same :
    {Conn : Type 0} (c : Client Conn) (r : ℕ) → stream (set_stream c r (stream c r)) r ≡ stream c r
set_stream-same c r = rw ((==_iff r r).1 refl) refl

is_eof-parts :
    (s : Stream) → is_eof s ≡ true → ((length s.recv_buffer == 0) ≡ true) × (s.fin_received ≡ true)
unfolding is_eof
is_eof-parts s e = ground arith

read_until_eof-eof :
    (fuel : ℕ) (s : Stream) → is_eof s ≡ true → read_until_eof (suc fuel) s [] ≡ some (ok [], s)
unfolding read_until_eof
read_until_eof-eof fuel s e = rw (read_until_eof, e)

read_rest-eof :
    (fuel : ℕ) (s : Stream) → is_eof s ≡ true → read_rest (suc fuel) s [] ≡ some (ok [], s)
unfolding read_rest ends_reading
read_rest-eof fuel s e =
    let parts = is_eof-parts s e in
    simp (read_rest, read_bytes-eof s 4096 parts.0 parts.1, ends_reading)

-- At the end of the stream neither loop of #read finds a byte.
read_stream-eof :
    (fuel : ℕ) (s : Stream) → is_eof s ≡ true → read_stream (suc fuel) s ≡ some (ok [], s)
unfolding read_stream
read_stream-eof fuel s e = rw (read_stream, read_until_eof-eof fuel s e) (read_rest-eof fuel s e)

module _ {Conn : Type 0} (n : Ngtcp2 Conn) (fuel : ℕ) (c : Client Conn) (r : ℕ)
    (below : r < c.objects.next) where
  -- Where #read without a length returns on a stream of a client, FIN has been received and the
  -- buffer is empty in the state in which it returns; what it returns is the empty String, and the
  -- buffer was empty when it was called.
  pub read_all-empty :
      (out : List ℕ) (d : Client Conn) (turns : List Turn)
      → read_all n fuel c r turns ≡ some (ok out, d)
      → (out ≡ [])
        × ((stream c r).recv_buffer ≡ [])
        × ((stream d r).fin_received ≡ true)
        × ((stream d r).recv_buffer ≡ [])
  unfolding read_all
  read_all-empty out d turns e = elim (Bool-cases (stream c r).has_client) [
    | inr bare ↦ ground arith
    | inl own ↦ elim (Option-cases (pump_until n fuel (at_eof r) c turns)) [
      | inl waits ↦ ground arith
      | inr ((raise x, c'), failed) ↦ ground arith
      | inr ((ok u, c'), ended) ↦
          let end = pump_until-Extends n fuel (at_eof r) c c' turns ended in
          let empty : is_eof (stream c' r) ≡ true = unfold at_eof in end.0 in
          let read : read_all n fuel c r turns ≡ some (ok [], set_stream c' r (stream c' r)) =
            simp (
              read_all,
              ended,
              own,
              read_stream-eof (length (stream c' r).recv_buffer) (stream c' r) empty,
            ) in
          let ((more, kept), fin) = end.1.same r below in
          let parts = is_eof-parts (stream c' r) empty in
          let drained = (==_iff (length (stream c' r).recv_buffer) 0).0 parts.0 in
          let left : d ≡ set_stream c' r (stream c' r) = cc (read, e) in
          let same = set_stream-same c' r in
          (
            cc (read, e),
            no_bytes (stream c r).recv_buffer more (ap length (sym kept) ∙ drained),
            rw (left, same) parts.1,
            rw (left, same) (no_length (stream c' r).recv_buffer drained),
          )
    ]
  ]

module _ {Conn : Type 0} (n : Ngtcp2 Conn) (fuel : ℕ) (c : Client Conn) (r : ℕ) where
  -- The buffer when #read with a length goes on, and what it returns of it.
  abbrev pub ReadsLength : Numeric → Value → ℕ → List Turn → Client Conn → Type 0
  ReadsLength num v len turns c' =
      let s = stream c' r in
      ((0 < length s.recv_buffer)
        × (read_length n num fuel c r v turns
            ≡ some (
              ok (some (take (count_of s len) s.recv_buffer)),
              set_stream c' r (record s { recv_buffer = drop (count_of s len) s.recv_buffer }),
            )))
      ⊎ ((length s.recv_buffer ≡ 0)
          × (s.fin_received ≡ true)
          × (read_length n num fuel c r v turns ≡ some (ok none, set_stream c' r s)))

  ready-cases :
      (c' : Client Conn)
      → read_ready r c' ≡ true
      → (0 < length (stream c' r).recv_buffer)
        ⊎ ((length (stream c' r).recv_buffer == 0) ≡ true) × ((stream c' r).fin_received ≡ true)
  unfolding read_ready
  ready-cases c' e = ground arith

  -- #read with a length on a stream of a client, once the loop lets it go on: it returns the next
  -- bytes, as many as there are up to the length, or nil at the end of the stream; it never raises
  -- EOFError or WaitReadable.
  pub read_length-ReadsLength :
      (num : Numeric) (v : Value) (len : ℕ) (turns : List Turn) (c' : Client Conn)
      → (stream c r).has_client ≡ true
      → num.num2long v ≡ ok (pos len)
      → pump_until n fuel (read_ready r) c turns ≡ some (ok tt, c')
      → ReadsLength num v len turns c'
  unfolding read_length read_nonblock rescue_eof
  read_length-ReadsLength num v len turns c' own e ended =
      elim (ready-cases c' (pump_until-Extends n fuel (read_ready r) c c' turns ended).0) [
        | inl some_bytes ↦ inl (
          some_bytes,
          simp (
            read_length,
            ended,
            own,
            read_nonblock,
            e,
            read_bytes-some (stream c' r) len some_bytes,
            rescue_eof,
          ),
        )
        | inr (empty, fin) ↦ inr (
          (==_iff (length (stream c' r).recv_buffer) 0).0 empty,
          fin,
          simp (
            read_length,
            ended,
            own,
            read_nonblock,
            e,
            read_bytes-eof (stream c' r) len empty fin,
            rescue_eof,
          ),
        )
      ]
