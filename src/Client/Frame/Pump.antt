-- ===== src/Client/Frame/Pump.antt =====
-- A turn of Client#pump_once (lib/quic/connection.rb) keeps what the callbacks and the accounting keep.
use quic_ruby.Base.{
  ℕ, ◌≡◌, Option, none, some, List, [], ◌∷◌, inl, inr, Bool-cases, Option-cases, is_negative,
  is_zero,
}
use quic_ruby.Ruby.{nil, Result}
use quic_ruby.Stream.{Stream}
use quic_ruby.Ngtcp2.{Ngtcp2, Written, Event}
use quic_ruby.Client.Objects.{Objects}
use quic_ruby.Client.State.{Client}
use quic_ruby.Client.Callbacks.{callback, callbacks}
use quic_ruby.Client.Picker.{Candidate, pick_send_stream}
use quic_ruby.Client.Packets.{
  account, account_picked, writev_args, write_into, write_pkt, check_buffer, read_pkt_body,
  handle_expiry,
}
use quic_ruby.Client.Pump.{Turn, take_input, pump_once}
use quic_ruby.Client.Frame.{
  IsFrame, Carries, Carries-refl, Carries-trans, store-Carries, callback-Carries,
}
use quic_ruby.Client.Frame.Turn.{IsClientFrame, pump_once-all}

-- A relation between the objects before and after, which each callback and the accounting of a
-- packet keep.
pub record IsObjectFrame (Q : Objects → Objects → Type 0) : Type 0 where
  pub stays : (o : Objects) → Q o o
  pub joins : (o p q : Objects) → Q o p → Q p q → Q o q
  pub calls : (o : Objects) (e : Event) → Q o (callback o e)
  pub counts :
      (o : Objects) (picked : Option (ℕ × Candidate)) (w : Written)
      → Q o (account_picked o picked w)

-- The same between clients.
abbrev pub OnObjects :
    {Conn : Type 0} → (Objects → Objects → Type 0) → Client Conn → Client Conn → Type 0
OnObjects Q c d = Q c.objects d.objects

-- A relation between streams is one between objects.
module _ (R : Stream → Stream → Type 0) (f : IsFrame R)
    (counts : (s : Stream) (p : Candidate) (w : Written) → R s (account s p w)) where
  account_picked-Carries :
      (o : Objects) (picked : Option (ℕ × Candidate)) (w : Written)
      → Carries R o (account_picked o picked w)
  unfolding account_picked
  account_picked-Carries o none w = Carries-refl R f o
  account_picked-Carries o (some (r, p)) w = store-Carries R f o r _ (counts (o.cell r) p w)

  pub Carries-IsObjectFrame : IsObjectFrame (Carries R)
  Carries-IsObjectFrame = record {
    stays = Carries-refl R f;
    joins = Carries-trans R f;
    calls = callback-Carries R f;
    counts = account_picked-Carries;
  }

module _ {Conn : Type 0} (n : Ngtcp2 Conn) (Q : Objects → Objects → Type 0)
    (f : IsObjectFrame Q) where
  callbacks-Keeps : (o : Objects) (es : List Event) → Q o (callbacks o es)
  unfolding callbacks
  callbacks-Keeps o [] = f.stays o
  callbacks-Keeps o (e ∷ es) =
      f.joins o (callback o e) (callbacks (callback o e) es) (f.calls o e)
        (callbacks-Keeps (callback o e) es)

  write_pkt-Keeps : (c : Client Conn) (now : ℕ) → Q c.objects (write_pkt n c nil now).client.objects
  unfolding write_pkt check_buffer write_into
  write_pkt-Keeps c now =
      let out = n.writev_stream c.conn (writev_args (pick_send_stream c.objects) now) in
      let called = callbacks-Keeps c.objects out.1 in
      let counted =
        f.joins c.objects (callbacks c.objects out.1)
          (account_picked (callbacks c.objects out.1) (pick_send_stream c.objects) out.2) called
          (f.counts (callbacks c.objects out.1) (pick_send_stream c.objects) out.2) in
      elim (Bool-cases (is_negative out.2.n)) [
        | inl bad ↦ rw (write_into, bad) called
        | inr good ↦ elim (Bool-cases (is_zero out.2.n)) [
          | inl empty ↦ rw (write_into, good, empty) counted
          | inr full ↦ rw (write_into, good, full) counted
        ]
      ]

  take_input-Keeps : (c : Client Conn) (turn : Turn) → Q c.objects (take_input n c turn).1.objects
  unfolding take_input read_pkt_body handle_expiry
  take_input-Keeps c turn = elim (Option-cases turn.received) [
    | inl e ↦ rw (take_input, e) (callbacks-Keeps c.objects _)
    | inr (packet, e) ↦ rw (take_input, e) (callbacks-Keeps c.objects _)
  ]

  pub IsObjectFrame-IsClientFrame : IsClientFrame n (OnObjects Q)
  IsObjectFrame-IsClientFrame = record {
    stays = λ c. f.stays c.objects;
    joins = λ c d e h k. f.joins c.objects d.objects e.objects h k;
    packs = write_pkt-Keeps;
    sends = λ c packet. f.stays c.objects;
    takes = take_input-Keeps;
  }

  pub pump_once-Keeps :
      (fuel : ℕ) (c : Client Conn) (turn : Turn) (out : Result (Unit {0}) × Client Conn)
      → pump_once n fuel c turn ≡ some out
      → Q c.objects out.1.objects
  pump_once-Keeps = pump_once-all n (OnObjects Q) IsObjectFrame-IsClientFrame
