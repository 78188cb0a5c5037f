-- ===== src/Sender/Retain/Run.antt =====
-- Which of the chunks pushed in a run of a client are still in `@pending_chunks`.
use quic_ruby.Base.{
  ℕ, refl, sym, subst, inl, inr, ℤ, true, List, [], ◌∷◌, arith, Bool-cases, is_zero,
}
use quic_ruby.Ruby.{Value, Numeric}
use quic_ruby.Stream.{Stream, read_nonblock}
use quic_ruby.Ngtcp2.{Ngtcp2, SocketPath}
use quic_ruby.Client.Objects.{Objects}
use quic_ruby.Client.State.{Client}
use quic_ruby.Client.Packets.{write_into, write_pkt, check_buffer, read_pkt_body, handle_expiry}
use quic_ruby.Client.Io.{enqueue_on, opened, stream, set_stream, reset_with, close_read}
use quic_ruby.Client.Open.{fresh_client}
use quic_ruby.Client.Frame.{
  Carries, Carries-refl, same_cells, store-Carries, register-Carries, callbacks-Carries,
}
use quic_ruby.Client.Frame.Pump.{IsObjectFrame-IsClientFrame}
use quic_ruby.Client.Close.Once.{close-SendsOne}
use quic_ruby.Client.Accept.{accept_stream_nonblock, shift_queue}
use quic_ruby.Sender.Steps.{read_nonblock-buffer}
use quic_ruby.Sender.Run.{
  Run, starts, binds, opens, writes, packs, receives, expires, reads, resets, closes_read, accepts,
  closes, sends,
}
use quic_ruby.Sender.Retain.Pushed.{pushed_by, Retains, Carries-Retains, enqueue_on-Retains}
use quic_ruby.Sender.Retain.{GoesOn, GoesOn-IsFrame, GoesOn-IsObjectFrame, same_queue}

shift_queue-GoesOn : (o : Objects) (queue : List ℕ) → Carries GoesOn o (shift_queue o queue).1
unfolding shift_queue
shift_queue-GoesOn o [] = Carries-refl GoesOn GoesOn-IsFrame o
shift_queue-GoesOn o (r ∷ rest) =
    same_cells GoesOn GoesOn-IsFrame o o o.streams rest (Carries-refl GoesOn GoesOn-IsFrame o)

module _ {Conn : Type 0} {n : Ngtcp2 Conn} where
  -- The chunks that a run has pushed to each stream, the oldest first.
  unfoldable pub chunks_written :
      {a f : ℕ → List ℕ} {c : Client Conn} → Run n a f c → ℕ → List (List ℕ)
  chunks_written (starts conn) = λ r. []
  chunks_written (binds is_socket past) = chunks_written past
  chunks_written (opens conn rv id past) = chunks_written past
  chunks_written (writes {c = c} r v bytes fin below text small past) =
      pushed_by (chunks_written past) r bytes (enqueue_on c r v fin).0
  chunks_written (packs now honest past) = chunks_written past
  chunks_written (receives path packet now permitted past) = chunks_written past
  chunks_written (expires now permitted past) = chunks_written past
  chunks_written (reads num r v past) = chunks_written past
  chunks_written (resets r code past) = chunks_written past
  chunks_written (closes_read r past) = chunks_written past
  chunks_written (accepts past) = chunks_written past
  chunks_written (closes num opts now past) = chunks_written past
  chunks_written (sends packet past) = chunks_written past

module _ {Conn : Type 0} (n : Ngtcp2 Conn) where
  start-Retains : (conn : Conn) → Retains (λ r. []) (λ r. []) (fresh_client conn).objects
  unfolding fresh_client
  start-Retains conn = record {
    holds = λ r h. absurd (omega (arith, h));
    fresh = λ r h. refl;
    joined = λ r. refl;
  }

  opened-GoesOn :
      (c : Client Conn) (conn : Conn) (rv : ℤ) (id : ℕ)
      → Carries GoesOn c.objects (opened n c conn rv id).1.objects
  unfolding opened
  opened-GoesOn c conn rv id = elim (Bool-cases (is_zero rv)) [
    | inl e ↦ rw (opened, e) (register-Carries GoesOn GoesOn-IsFrame c.objects id)
    | inr e ↦ rw (opened, e) (Carries-refl GoesOn GoesOn-IsFrame c.objects)
  ]

  write_into-GoesOn :
      (c : Client Conn) (now : ℕ) → Carries GoesOn c.objects (write_into n c now).client.objects
  unfolding write_pkt check_buffer
  write_into-GoesOn = (IsObjectFrame-IsClientFrame n (Carries GoesOn) GoesOn-IsObjectFrame).packs

  read_pkt_body-GoesOn :
      (c : Client Conn) (path : SocketPath) (packet : List ℕ) (now : ℕ)
      → Carries GoesOn c.objects (read_pkt_body n c path packet now).1.objects
  unfolding read_pkt_body
  read_pkt_body-GoesOn c path packet now = callbacks-Carries GoesOn GoesOn-IsFrame c.objects _

  handle_expiry-GoesOn :
      (c : Client Conn) (now : ℕ) → Carries GoesOn c.objects (handle_expiry n c now).1.objects
  unfolding handle_expiry
  handle_expiry-GoesOn c now = callbacks-Carries GoesOn GoesOn-IsFrame c.objects _

  read-GoesOn :
      (c : Client Conn) (num : Numeric) (r : ℕ) (v : Value)
      → Carries GoesOn c.objects (set_stream c r (read_nonblock num (stream c r) v).1).objects
  read-GoesOn c num r v =
      subst (λ (s : Stream). Carries GoesOn c.objects (set_stream c r s).objects)
        (read_nonblock-buffer n num (stream c r) v)
        (store-Carries GoesOn GoesOn-IsFrame c.objects r _ (same_queue (stream c r) _ refl refl))

  reset_with-GoesOn :
      (c : Client Conn) (r code : ℕ) → Carries GoesOn c.objects (reset_with n c r code).1.objects
  unfolding reset_with
  reset_with-GoesOn c r code = ground (
    arith,
    Carries-refl GoesOn GoesOn-IsFrame c.objects,
    store-Carries GoesOn GoesOn-IsFrame c.objects r (record (stream c r) { reset = true })
        (same_queue (stream c r) _ refl refl),
  )

  close_read-GoesOn :
      (c : Client Conn) (r : ℕ) → Carries GoesOn c.objects (close_read n c r).1.objects
  unfolding close_read
  close_read-GoesOn c r = ground (arith, Carries-refl GoesOn GoesOn-IsFrame c.objects)

  accept-GoesOn : (o : Objects) → Carries GoesOn o (accept_stream_nonblock o).1
  unfolding accept_stream_nonblock
  accept-GoesOn o = shift_queue-GoesOn o o.accept_queue

  -- Every stream of every reachable client holds the tail of the chunks that were pushed to it.
  pub Run-Retains :
      {a f : ℕ → List ℕ} {c : Client Conn} (run : Run n a f c)
      → Retains (chunks_written run) a c.objects
  unfolding chunks_written
  Run-Retains (starts conn) = start-Retains conn
  Run-Retains (binds is_socket past) = Run-Retains past
  Run-Retains (opens {c = c} conn rv id past) =
      Carries-Retains c.objects _ (opened-GoesOn c conn rv id) (Run-Retains past)
  Run-Retains (writes {c = c} r v bytes fin below text small past) =
      enqueue_on-Retains c r v bytes fin (Run-Retains past) below text small
  Run-Retains (packs {c = c} now honest past) =
      Carries-Retains c.objects _ (write_into-GoesOn c now) (Run-Retains past)
  Run-Retains (receives {c = c} path packet now permitted past) =
      Carries-Retains c.objects _ (read_pkt_body-GoesOn c path packet now) (Run-Retains past)
  Run-Retains (expires {c = c} now permitted past) =
      Carries-Retains c.objects _ (handle_expiry-GoesOn c now) (Run-Retains past)
  Run-Retains (reads {c = c} num r v past) =
      Carries-Retains c.objects _ (read-GoesOn c num r v) (Run-Retains past)
  Run-Retains (resets {c = c} r code past) =
      Carries-Retains c.objects _ (reset_with-GoesOn c r code) (Run-Retains past)
  Run-Retains (closes_read {c = c} r past) =
      Carries-Retains c.objects _ (close_read-GoesOn c r) (Run-Retains past)
  Run-Retains (accepts {c = c} past) =
      Carries-Retains c.objects _ (accept-GoesOn c.objects) (Run-Retains past)
  Run-Retains (closes {a = a} {c = c} num opts now past) =
      subst (λ o. Retains (chunks_written past) a o) (sym (close-SendsOne n c num opts now).1)
        (Run-Retains past)
  Run-Retains (sends packet past) = Run-Retains past
