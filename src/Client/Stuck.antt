-- ===== src/Client/Stuck.antt =====
-- Client#pump_once where ngtcp2 refuses the stream that the picker of ext/quic/connection_client.c comes
-- to first, as after a #reset with bytes left to send (quic_stream_reset_m of ext/quic/stream.c), since
-- the picker does not look at `reset`.
use quic_ruby.Base.{
  ℕ, ℤ, suc, ◌≡◌, refl, sym, ap, ◌∙◌, subst, true, false, some, [], is_negative, is_zero,
}
use quic_ruby.Ruby.{nil, Result, raise, Exception}
use quic_ruby.Errors.{raise_ngtcp2_error}
use quic_ruby.Ngtcp2.{Ngtcp2, Writev}
use quic_ruby.Client.Objects.{store}
use quic_ruby.Client.Callbacks.{callbacks}
use quic_ruby.Client.Picker.{Candidate, pick_send_stream}
use quic_ruby.Client.Picker.Offers.{picked-id, reset-picks}
use quic_ruby.Client.State.{Client}
use quic_ruby.Client.Packets.{writev_args, write_into, write_pkt, check_buffer}
use quic_ruby.Client.Io.{stream, reset_with}
use quic_ruby.Client.Pump.{Turn, drain, pump_once}

-- What ngtcp2 documents of a stream of which `S` says that it takes no data: each packet with data of
-- the stream is refused with `code`. NGTCP2_ERR_STREAM_SHUT_WR and NGTCP2_ERR_STREAM_DATA_BLOCKED
-- are such codes, of a stream that was shut down, and of one whose flow control is used up.
pub record Refuses {Conn : Type 0} (n : Ngtcp2 Conn) (code : ℤ) (S : Conn → ℕ → Type 0)
    : Type 0 where
  pub refuses :
      (conn : Conn) (id : ℕ) (args : Writev)
      → S conn id
      → args.stream_id ≡ some id
      → ((n.writev_stream conn args).1 ≡ [])
        × ((n.writev_stream conn args).2.n ≡ code)
        × S (n.writev_stream conn args).0 id
  pub negative : is_negative code ≡ true

-- `S` holds of a stream whose sending side was shut down.
pub record RefusesShut {Conn : Type 0} (n : Ngtcp2 Conn) (S : Conn → ℕ → Type 0) : Type 0 where
  pub shuts :
      (conn : Conn) (id code : ℕ)
      → is_zero (n.shutdown_stream_write conn id code).1 ≡ true
      → S (n.shutdown_stream_write conn id code).0 id
  pub refusing : Refuses n n.codes.stream_shut_wr S

-- The clients that calls of #pump_once lead to, in a program that rescues what they raise.
pub data Pumps {Conn : Type 0} (n : Ngtcp2 Conn) (fuel : ℕ) (c : Client Conn)
    : Client Conn → Type 0 where
  rests : Pumps n fuel c c
  pumps :
      {d : Client Conn} (turn : Turn) (out : Result (Unit {0}) × Client Conn)
      → Pumps n fuel c d
      → pump_once n fuel d turn ≡ some out
      → Pumps n fuel c out.1

-- The next packet is of a stream that is refused, and since `c` nothing was sent.
record IsStuck {Conn : Type 0} (S : Conn → ℕ → Type 0) (c d : Client Conn) : Type 0 where
  r : ℕ
  p : Candidate
  picks : pick_send_stream d.objects ≡ some (r, p)
  shut : S d.conn p.stream_id
  same_objects : d.objects ≡ c.objects
  same_sent : d.sent ≡ c.sent
  bound : d.bound ≡ true

module _ {Conn : Type 0} (n : Ngtcp2 Conn) (code : ℤ) (S : Conn → ℕ → Type 0)
    (h : Refuses n code S) where
  abbrev pub refusal : Exception
  refusal = raise_ngtcp2_error n.codes code

  write_pkt-IsStuck :
      (c d : Client Conn) (now : ℕ)
      → IsStuck S c d
      → ((write_pkt n d nil now).result ≡ raise refusal)
        × IsStuck S c (write_pkt n d nil now).client
  unfolding write_pkt check_buffer write_into writev_args callbacks
  write_pkt-IsStuck c d now stuck =
      let (no_event, refused, still) =
        h.refuses d.conn stuck.p.stream_id (writev_args (some (stuck.r, stuck.p)) now) stuck.shut
          refl in
      rw (write_into, stuck.picks, no_event, refused, h.negative)
        (
          refl,
          record {
            r = stuck.r;
            p = stuck.p;
            picks = stuck.picks;
            shut = still;
            same_objects = stuck.same_objects;
            same_sent = stuck.same_sent;
            bound = stuck.bound;
          },
        )

  pump_once-IsStuck :
      (fuel : ℕ) (c d : Client Conn) (turn : Turn)
      → IsStuck S c d
      → (e : Client Conn) × (pump_once n (suc fuel) d turn ≡ some (raise refusal, e))
        × IsStuck S c e
  unfolding pump_once drain
  pump_once-IsStuck fuel c d turn stuck =
      let (raised, still) = write_pkt-IsStuck c d (turn.times 1) stuck in
      let drained : drain n (suc fuel) d turn.times 1
          ≡ some (raise refusal, (write_pkt n d nil (turn.times 1)).client) =
        rw (drain, raised) refl in
      ((write_pkt n d nil (turn.times 1)).client, simp (pump_once, drained, stuck.bound), still)

  Pumps-IsStuck :
      (fuel : ℕ) (c d e : Client Conn) → IsStuck S c d → Pumps n (suc fuel) d e → IsStuck S c e
  Pumps-IsStuck fuel c d _ stuck rests = stuck
  Pumps-IsStuck fuel c d _ stuck (pumps {d = e} turn out past ended) =
      let (x, raised, still) =
        pump_once-IsStuck fuel c e turn (Pumps-IsStuck fuel c d e stuck past) in
      let same : (raise refusal, x) ≡ out = cc (raised, ended) in
      subst (λ (y : Result (Unit {0}) × Client Conn). IsStuck S c y.1) same still

  -- On a bound client whose picker comes first to a stream that ngtcp2 refuses: however often
  -- #pump_once was called and its exception rescued, the next call raises the exception of the
  -- refusal, no packet has been sent meanwhile, of any stream, and no stream has changed.
  pub refused-stuck :
      (fuel : ℕ) (c d : Client Conn) (r : ℕ) (p : Candidate) (turn : Turn)
      → c.bound ≡ true
      → pick_send_stream c.objects ≡ some (r, p)
      → S c.conn p.stream_id
      → Pumps n (suc fuel) c d
      → (e : Client Conn) × (pump_once n (suc fuel) d turn ≡ some (raise refusal, e))
        × (e.sent ≡ c.sent)
        × (e.objects ≡ c.objects)
  refused-stuck fuel c d r p turn bound picks shut past =
      let start : IsStuck S c c = record {
        r = r;
        p = p;
        picks = picks;
        shut = shut;
        same_objects = refl;
        same_sent = refl;
        bound = bound;
      } in
      let (e, raised, still) =
        pump_once-IsStuck fuel c d turn (Pumps-IsStuck fuel c c d start past) in
      (e, raised, still.same_sent, still.same_objects)

module _ {Conn : Type 0} (n : Ngtcp2 Conn) (S : Conn → ℕ → Type 0) (h : RefusesShut n S) where
  reset_with-accepted :
      (c : Client Conn) (r code : ℕ)
      → (stream c r).reset ≡ false
      → (stream c r).has_client ≡ true
      → is_zero (n.shutdown_stream_write c.conn (stream c r).stream_id code).1 ≡ true
      → (reset_with n c r code).1 ≡ record c {
        objects = store c.objects r (record (stream c r) { reset = true });
        conn = (n.shutdown_stream_write c.conn (stream c r).stream_id code).0;
      }
  unfolding reset_with
  reset_with-accepted c r code fresh own accepted = rw (reset_with, accepted) (simp (fresh, own))

  -- On a bound client, after a #reset that ngtcp2 accepts, of the stream that the picker comes to
  -- first, and where ngtcp2 refuses the data of a stream that is shut down: however often
  -- #pump_once was called since and its exception rescued, the next call raises the exception of
  -- NGTCP2_ERR_STREAM_SHUT_WR, no packet has been sent since the #reset, and no stream has changed.
  pub reset-stuck :
      (fuel : ℕ) (c d : Client Conn) (r code : ℕ) (p : Candidate) (turn : Turn)
      → c.bound ≡ true
      → pick_send_stream c.objects ≡ some (r, p)
      → (stream c r).reset ≡ false
      → (stream c r).has_client ≡ true
      → is_zero (n.shutdown_stream_write c.conn (stream c r).stream_id code).1 ≡ true
      → Pumps n (suc fuel) (reset_with n c r code).1 d
      → (e : Client Conn) × (pump_once n (suc fuel) d turn
          ≡ some (raise (raise_ngtcp2_error n.codes n.codes.stream_shut_wr), e))
        × (e.sent ≡ c.sent)
        × (e.objects ≡ (reset_with n c r code).1.objects)
  reset-stuck fuel c d r code p turn bound picks fresh own accepted past =
      let same = reset_with-accepted c r code fresh own accepted in
      let (e, raised, sent, kept) =
        refused-stuck n n.codes.stream_shut_wr S h.refusing fuel (reset_with n c r code).1 d r p
          turn (ap (λ (x : Client Conn). x.bound) same ∙ bound)
          (ap (λ (x : Client Conn). pick_send_stream x.objects) same
            ∙ reset-picks c.objects r p picks)
          (subst (λ (x : Client Conn). S x.conn p.stream_id) (sym same)
            (subst (S (n.shutdown_stream_write c.conn (stream c r).stream_id code).0)
              (sym (picked-id c.objects r p picks))
              (h.shuts c.conn (stream c r).stream_id code accepted)))
          past in
      (e, raised, sent ∙ ap (λ (x : Client Conn). x.sent) same, kept)
