-- ===== src/Sender/Packet.antt =====
-- #write_pkt as a whole: choosing, the callbacks that ngtcp2 makes meanwhile, and the accounting.
use quic_ruby.Base.{
  ℕ, ◌≤◌, ◌<◌, ◌≡◌, refl, sym, ap, ◌∙◌, subst, subst₂, fun_ext, true, false, Option, none, some,
  Bool, List, [], ◌++◌, arith, inl, inr, ◌==◌, ==_iff, Bool-cases, if◌then◌else◌, length, take,
  magnitude, is_negative,
}
use quic_ruby.Stream.{Stream}
use quic_ruby.Ngtcp2.{Ngtcp2, Writev, Written, Event}
use quic_ruby.Ruby.Hash.{aref}
use quic_ruby.Client.Objects.{Objects, lookup_stream}
use quic_ruby.Client.Callbacks.{callbacks}
use quic_ruby.Client.Picker.{Candidate, pick_send_stream}
use quic_ruby.Client.Packets.{writev_args, account, account_picked, write_into}
use quic_ruby.Client.State.{Client}
use quic_ruby.Sender.Pick.{IsNext, candidate-IsNext}
use quic_ruby.Sender.Account.{account-IsSending}
use quic_ruby.Sender.Choice.{IsChoice, pick_from-IsChoice}
use quic_ruby.Sender.Tracks.{Tracks, change-Tracks}
use quic_ruby.Sender.Callbacks.{ArePermitted, callbacks-Tracks}
use quic_ruby.Client.Frame.{Carries}
use quic_ruby.Sender.Keeps.{SameSender, callbacks-SameSender, IsNext-same}

-- The bytes of the vector that ngtcp2 is given.
abbrev pub vector : Writev → List ℕ
vector args = if args.datavcnt == 0 then [] else args.bytes

-- What ngtcp2_conn_writev_stream promises of its answer: its callbacks are permitted, and it puts no
-- more bytes into the packet than it is given.
pub record IsHonest {Conn : Type 0} (o : Objects) (args : Writev)
    (out : Conn × List Event × Written) : Type 0 where
  pub permitted : ArePermitted o out.1
  pub fits : magnitude out.2.pdatalen ≤ length (vector args)

-- Whether the stream id that ngtcp2 is given is registered for the stream `q`.
unfoldable pub given_for : Objects → Option ℕ → ℕ → Bool
given_for o none q = false
given_for o (some id) q = elim (lookup_stream o id) [ none ↦ false | some r ↦ r == q ]

-- The bytes that ngtcp2 has framed for each stream after a call with `args`: the first `pdatalen` bytes
-- of the vector, for the stream with the id that it is given; a call that fails sends no packet.
unfoldable pub framed_by : (ℕ → List ℕ) → Objects → Writev → Written → ℕ → List ℕ
framed_by framed o args w q =
    if is_negative w.n
    then framed q
    else if given_for o args.stream_id q
    then framed q ++ take (magnitude w.pdatalen) (vector args)
    else framed q

given_for-known :
    (o : Objects) (id r q : ℕ) → lookup_stream o id ≡ some r → given_for o (some id) q ≡ (r == q)
unfolding given_for
given_for-known o id r q e = rw (given_for, e) refl

vector-next :
    {a : List ℕ} {s : Stream} (r : ℕ) (p : Candidate) (now : ℕ)
    → IsNext a s p
    → vector (writev_args (some (r, p)) now) ≡ p.bytes
unfolding writev_args
vector-next r p now next = elim next.counted [
  | inl one ↦ rw one.0 refl
  | inr empty ↦ rw (empty.0, empty.1) refl
]

account-id : (s : Stream) (p : Candidate) (w : Written) → (account s p w).stream_id ≡ s.stream_id
unfolding account
account-id s p w = ground arith

module _ {accepted framed : ℕ → List ℕ} (before o : Objects) (r : ℕ) (p : Candidate) (w : Written)
    (now : ℕ) (t : Tracks accepted framed o) (good : is_negative w.n ≡ false) (below : r < o.next)
    (next : IsNext (accepted r) (o.cell r) p)
    (fits : magnitude w.pdatalen ≤ length (vector (writev_args (some (r, p)) now)))
    (known : lookup_stream before p.stream_id ≡ some r) where
  framed_picked :
      (q : ℕ)
      → framed_by framed before (writev_args (some (r, p)) now) w q
        ≡ (if r == q then framed q ++ take (magnitude w.pdatalen) p.bytes else framed q)
  unfolding framed_by writev_args
  framed_picked q =
      rw (good, given_for-known before p.stream_id r q known, vector-next r p now next) refl

  account-Tracks :
      Tracks accepted
        (framed_by framed before (writev_args (some (r, p)) now) w)
        (account_picked o (some (r, p)) w)
  unfolding account_picked
  account-Tracks =
      let enough : magnitude w.pdatalen ≤ length p.bytes =
        omega (arith, fits, ap length (vector-next r p now next)) in
      change-Tracks t r (account (o.cell r) p w) below
        (rw (framed_picked r, (==_iff r r).1 refl) (account-IsSending w (t.sending r) next enough))
        (account-id (o.cell r) p w) (λ q e. (refl, rw (framed_picked q, e) refl))

module _ {Conn : Type 0} (n : Ngtcp2 Conn) (c : Client Conn) (now : ℕ) where
  -- What #write_pkt gives ngtcp2, and the answer.
  abbrev pub given : Writev
  given = writev_args (pick_send_stream c.objects) now

  abbrev pub answer : Conn × List Event × Written
  answer = n.writev_stream c.conn given

  write_into-failed :
      is_negative answer.2.n ≡ true
      → (write_into n c now).client.objects ≡ callbacks c.objects answer.1
  unfolding write_into
  write_into-failed e = rw e

  write_into-counted :
      is_negative answer.2.n ≡ false
      → (write_into n c now).client.objects
        ≡ account_picked (callbacks c.objects answer.1) (pick_send_stream c.objects) answer.2
  unfolding write_into
  write_into-counted e = rw e (ground arith)

  module _ {accepted framed : ℕ → List ℕ} (t : Tracks accepted framed c.objects)
      (h : IsHonest c.objects given answer) where
    abbrev pub framed_after : Option (ℕ × Candidate) → ℕ → List ℕ
    framed_after picked = framed_by framed c.objects (writev_args picked now) answer.2

    after_callbacks : Tracks accepted framed (callbacks c.objects answer.1)
    after_callbacks = callbacks-Tracks c.objects answer.1 h.permitted t

    framed_failed :
        (picked : Option (ℕ × Candidate)) (q : ℕ)
        → is_negative answer.2.n ≡ true
        → framed q ≡ framed_after picked q
    unfolding framed_by
    framed_failed picked q e = rw e refl

    framed_idle : (q : ℕ) → framed q ≡ framed_after none q
    unfolding framed_by given_for writev_args
    framed_idle q = ground arith

    counted-Tracks :
        (picked : Option (ℕ × Candidate))
        → pick_send_stream c.objects ≡ picked
        → is_negative answer.2.n ≡ false
        → Tracks accepted
            (framed_after picked)
            (account_picked (callbacks c.objects answer.1) picked answer.2)
    counted-Tracks none e good =
        unfold account_picked in
        subst (λ f. Tracks accepted f (callbacks c.objects answer.1)) (fun_ext framed_idle)
          after_callbacks
    counted-Tracks (some (r, p)) e good =
        account-Tracks c.objects (callbacks c.objects answer.1) r p answer.2 now after_callbacks
          good (omega (arith, below, kept.grows)) (IsNext-same (kept.same r below) next)
          (subst (λ x. magnitude answer.2.pdatalen ≤ length (vector (writev_args x now))) e h.fits)
          (rw registered choice.registered)
      where
        choice : IsChoice c.objects.cell c.objects.streams r p
        choice =
            pick_from-IsChoice c.objects.cell c.objects.streams r p t.distinct
              (unfold pick_send_stream in e)

        below : r < c.objects.next
        below = (t.known choice.id r choice.registered).0

        next : IsNext (accepted r) (c.objects.cell r) p
        next = candidate-IsNext (t.sending r) p choice.offers

        registered : lookup_stream c.objects p.stream_id ≡ aref choice.id c.objects.streams
        registered =
            unfold lookup_stream in
            ap (λ k. aref k c.objects.streams)
              (next.same_stream ∙ (t.known choice.id r choice.registered).1)

        kept : Carries SameSender c.objects (callbacks c.objects answer.1)
        kept = callbacks-SameSender c.objects answer.1

    -- Where the callbacks of the call are permitted and ngtcp2 frames no more bytes than it is
    -- given, #write_pkt keeps the sending invariant of every stream: the bytes framed for the
    -- stream whose id ngtcp2 is given grow by the first `pdatalen` bytes of the vector it is given,
    -- and by none where the call fails.
    pub write_into-Tracks :
        Tracks accepted
          (framed_after (pick_send_stream c.objects))
          (write_into n c now).client.objects
    write_into-Tracks = elim (Bool-cases (is_negative answer.2.n)) [
      | inl e ↦
          subst₂ (λ f o. Tracks accepted f o)
            (fun_ext λ q. framed_failed (pick_send_stream c.objects) q e)
            (sym (write_into-failed e)) after_callbacks
      | inr e ↦
          subst (λ o. Tracks accepted (framed_after (pick_send_stream c.objects)) o)
            (sym (write_into-counted e)) (counted-Tracks (pick_send_stream c.objects) refl e)
    ]
