-- ===== src/Sender/Writing.antt =====
-- The blocking #write among all that its turns of the I/O loop send and receive (ext/quic/stream.c).
use quic_ruby.Base.{
  ℕ, ◌+◌, ◌≤◌, ◌<◌, ◌≡◌, refl, sym, ◌∙◌, subst, fun_ext, inl, inr, none, some, List, arith, length,
  ◌==◌, long_limit, Bool-cases, Option-cases, Bool,
}
use quic_ruby.Ruby.{Value, nil, Kwargs, Result, ok, raise, Exception, check_string}
use quic_ruby.Ngtcp2.{Ngtcp2, SocketPath}
use quic_ruby.Client.State.{Client}
use quic_ruby.Client.Frame.{Carries}
use quic_ruby.Stream.{Stream}
use quic_ruby.Client.Frame.Pump.{
  IsObjectFrame, Carries-IsObjectFrame, OnObjects, IsObjectFrame-IsClientFrame,
}
use quic_ruby.Client.Frame.Turn.{IsClientFrame}
use quic_ruby.Client.Frame.Until.{pump_until-all, wait_window-pump_until, has_room}
use quic_ruby.Client.Objects.{Objects}
use quic_ruby.Client.Io.{stream, enqueue_on, fin_kwarg}
use quic_ruby.Client.Packets.{write_pkt, write_into, check_buffer, read_pkt_body, handle_expiry}
use quic_ruby.Client.Pump.{Turn, take_input, wait_window, write}
use quic_ruby.Sender.Accepted.{accepted_by}
use quic_ruby.Sender.Callbacks.{ArePermitted}
use quic_ruby.Sender.Packet.{IsHonest, given, answer, framed_by}
use quic_ruby.Sender.Run.{Run, packs, receives, expires, sends, writes}

-- No more than that the streams are there.
abbrev Any : Stream → Stream → Type 0
Any s t = Unit

Any-IsObjectFrame : IsObjectFrame (Carries Any)
Any-IsObjectFrame =
    Carries-IsObjectFrame Any
      (record {
        stays = λ s. tt;
        joins = λ s t u h k. tt;
        receives = λ s surfaced fin bytes. tt;
        acknowledges = λ s datalen. tt;
        closes = λ s has_code code. tt;
        resets = λ s code. tt;
      })
      (λ s p w. tt)

-- `Agrees` says which states of ngtcp2 go with which stream objects, as far as it counts the bytes
-- that it was given.
module _ {Conn : Type 0} (n : Ngtcp2 Conn) (Agrees : Conn → Objects → Type 0) where
  -- From a state that agrees with the objects, ngtcp2 does what it promises, and the two still agree
  -- after each step.
  pub record KeepsPromises : Type 0 where
    pub packing :
        (c : Client Conn) (now : ℕ)
        → Agrees c.conn c.objects
        → IsHonest c.objects (given n c now) (answer n c now)
          × Agrees (write_into n c now).client.conn (write_into n c now).client.objects
    pub receiving :
        (c : Client Conn) (path : SocketPath) (packet : List ℕ) (now : ℕ)
        → Agrees c.conn c.objects
        → ArePermitted c.objects (n.read_pkt c.conn path packet now).1
          × Agrees
              (read_pkt_body n c path packet now).1.conn
              (read_pkt_body n c path packet now).1.objects
    pub expiring :
        (c : Client Conn) (now : ℕ)
        → Agrees c.conn c.objects
        → ArePermitted c.objects (n.handle_expiry c.conn now).1
          × Agrees (handle_expiry n c now).1.conn (handle_expiry n c now).1.objects
    pub writing :
        (c : Client Conn) (r : ℕ) (v : Value) (fin : Bool)
        → Agrees c.conn c.objects
        → Agrees c.conn (enqueue_on c r v fin).1.objects

  -- A run of the client, with some bytes framed, in agreement with ngtcp2.
  abbrev pub RunsOn : (ℕ → List ℕ) → Client Conn → Type 0
  RunsOn a c = ((f : ℕ → List ℕ) × Run n a f c) × Agrees c.conn c.objects

  GoesOn : Client Conn → Client Conn → Type 0
  GoesOn c d = (a : ℕ → List ℕ) → RunsOn a c → RunsOn a d

  module _ (promises : KeepsPromises) where
    takes_lem : (c : Client Conn) (turn : Turn) → GoesOn c (take_input n c turn).1
    unfolding GoesOn take_input
    takes_lem c turn a ((f, run), agrees) = elim (Option-cases turn.received) [
      | inl e ↦
          let kept = promises.expiring c (turn.times 0) agrees in
          rw (take_input, e) ((f, expires (turn.times 0) kept.0 run), kept.1)
      | inr (packet, e) ↦
          let kept = promises.receiving c turn.path packet (turn.times 0) agrees in
          rw (take_input, e) ((f, receives turn.path packet (turn.times 0) kept.0 run), kept.1)
    ]

    packs_lem : (c : Client Conn) (now : ℕ) → GoesOn c (write_pkt n c nil now).client
    unfolding GoesOn write_pkt check_buffer
    packs_lem c now a ((f, run), agrees) =
        let kept = promises.packing c now agrees in
        ((framed_by f c.objects (given n c now) (answer n c now).2, packs now kept.0 run), kept.1)

    GoesOn-IsClientFrame : IsClientFrame n GoesOn
    unfolding GoesOn
    GoesOn-IsClientFrame = record {
      stays = λ c a h. h;
      joins = λ c d e h k a run. k a (h a run);
      packs = packs_lem;
      sends = λ c packet a ((f, run), agrees). ((f, sends packet run), agrees);
      takes = takes_lem;
    }

    module _ (fuel : ℕ) (c : Client Conn) (r : ℕ) (v : Value) (bytes : List ℕ) (opts : Kwargs)
        (turns : List Turn) (below : r < c.objects.next) (text : check_string v ≡ ok bytes) where
      waited :
          (out : Result (Unit {0}) × Client Conn)
          → wait_window n fuel c r (length bytes) turns ≡ some out
          → GoesOn c out.1 × (c.objects.next ≤ out.1.objects.next)
      waited out e =
          let until = sym (wait_window-pump_until n fuel r (length bytes) c turns) ∙ e in
          (
            pump_until-all n GoesOn GoesOn-IsClientFrame fuel (has_room n fuel r (length bytes)) c
                turns out until,
            (pump_until-all n (OnObjects (Carries Any))
                (IsObjectFrame-IsClientFrame n (Carries Any) Any-IsObjectFrame) fuel
                (has_room n fuel r (length bytes)) c turns out until).grows,
          )

      -- A call that is computed to end in `end`.
      ended_with :
          (a : ℕ → List ℕ) (end out : Result ℕ × Client Conn)
          → write n fuel c r v opts turns ≡ some end
          → write n fuel c r v opts turns ≡ some out
          → RunsOn (accepted_by a r bytes end.0) end.1
          → RunsOn (accepted_by a r bytes out.0) out.1
      ended_with a end out stop e k =
          let same : end ≡ out = cc (stop, e) in
          subst (λ (x : Result ℕ × Client Conn). RunsOn (accepted_by a r bytes x.0) x.1) same k

      -- The write itself, behind the turns.
      queued :
          (a : ℕ → List ℕ) (d : Client Conn) (fin : Bool)
          → r < d.objects.next
          → length (a r) + length bytes < long_limit
          → RunsOn a d
          → RunsOn (accepted_by a r bytes (enqueue_on d r v fin).0) (enqueue_on d r v fin).1
      queued a d fin within small ((f, run), agrees) =
          ((f, writes r v bytes fin within text small run), agreed)
        where
          agreed : Agrees (enqueue_on d r v fin).1.conn (enqueue_on d r v fin).1.objects
          agreed = unfold enqueue_on in promises.writing d r v fin agrees

      raised :
          (a : ℕ → List ℕ) (x : Exception) (d : Client Conn)
          → RunsOn a d
          → RunsOn (accepted_by a r bytes (raise x)) d
      unfolding accepted_by
      raised a x d k =
          let same : a ≡ accepted_by a r bytes (raise x) = fun_ext λ q. refl in
          subst (λ (b : ℕ → List ℕ). RunsOn b d) same k

      -- However a #write of a String ends, its bytes are accepted once and as a whole, behind all that
      -- was written to the stream before, or not at all where it raises, and with the packets of its
      -- turns the client is in a run as before; that is where ngtcp2 keeps its promises, the stream
      -- exists, and fewer than 2^63 bytes are written to it.
      pub write-RunsOn :
          (a : ℕ → List ℕ) (out : Result ℕ × Client Conn)
          → length (a r) + length bytes < long_limit
          → RunsOn a c
          → write n fuel c r v opts turns ≡ some out
          → RunsOn (accepted_by a r bytes out.0) out.1
      unfolding write GoesOn
      write-RunsOn a out small k e = elim (Bool-cases (stream c r).has_client) [
        | inr bare ↦
            let stop : write n fuel c r v opts turns ≡ some (enqueue_on c r v (fin_kwarg opts)) =
              simp (write, bare) in
            ended_with a _ out stop e (queued a c (fin_kwarg opts) below small k)
        | inl own ↦ elim (Bool-cases (length bytes == 0)) [
          | inl empty ↦
              let stop : write n fuel c r v opts turns ≡ some (enqueue_on c r v (fin_kwarg opts)) =
                simp (write, own, text, empty) in
              ended_with a _ out stop e (queued a c (fin_kwarg opts) below small k)
          | inr filled ↦ elim (Option-cases (wait_window n fuel c r (length bytes) turns)) [
            | inl waits ↦
                let never : write n fuel c r v opts turns ≡ none =
                  simp (write, own, text, filled, waits) in
                absurd (cc (never, e))
            | inr ((raise x, d), failed) ↦
                let stop : write n fuel c r v opts turns ≡ some (raise x, d) =
                  simp (write, own, text, filled, failed) in
                ended_with a _ out stop e (raised a x d ((waited (raise x, d) failed).0 a k))
            | inr ((ok u, d), ended) ↦
                let stop : write n fuel c r v opts turns
                    ≡ some (enqueue_on d r v (fin_kwarg opts)) =
                  simp (write, own, text, filled, ended) in
                let (goes, grows) = waited (ok u, d) ended in
                ended_with a _ out stop e
                  (queued a d (fin_kwarg opts) (omega (arith, grows)) small (goes a k))
          ]
        ]
      ]
