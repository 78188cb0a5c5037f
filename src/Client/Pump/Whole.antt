-- ===== src/Client/Pump/Whole.antt =====
-- The blocking #write against #write_nonblock (ext/quic/stream.c).
use quic_ruby.Base.{
  ℕ, ◌≤◌, ◌<◌, ◌≡◌, refl, sym, ◌∙◌, true, false, some, List, arith, length, ◌==◌, ==_iff, le→leb,
}
use quic_ruby.Ruby.{string, Encoding, ok, Kwargs}
use quic_ruby.Stream.{Stream}
use quic_ruby.Ngtcp2.{Ngtcp2, Written}
use quic_ruby.Client.Callbacks.{receive, acknowledge, mark_closed, mark_reset}
use quic_ruby.Client.Frame.{IsFrame, Carries}
use quic_ruby.Client.Frame.Pump.{Carries-IsObjectFrame, OnObjects, IsObjectFrame-IsClientFrame}
use quic_ruby.Client.Frame.Until.{pump_until-Keeps, wait_window-pump_until, has_room}
use quic_ruby.Client.Io.{stream, enqueue_on, fin_kwarg, window_left, write_window, write_nonblock}
use quic_ruby.Client.Packets.{account}
use quic_ruby.Client.Picker.{Candidate}
use quic_ruby.Client.Pump.{Turn, wait_window, write}
use quic_ruby.Client.State.{Client}

-- A stream stays with its client.
abbrev SameOwner : Stream → Stream → Type 0
SameOwner s t = t.has_client ≡ s.has_client

SameOwner-IsFrame : IsFrame SameOwner
unfolding receive acknowledge mark_closed mark_reset
SameOwner-IsFrame = record {
  stays = λ s. refl;
  joins = λ s t u h k. k ∙ h;
  receives = λ s surfaced fin bytes. refl;
  acknowledges = λ s datalen. refl;
  closes = λ s has_code code. refl;
  resets = λ s code. refl;
}

SameOwner-account : (s : Stream) (p : Candidate) (w : Written) → SameOwner s (account s p w)
unfolding account
SameOwner-account s p w = ground arith

module _ {Conn : Type 0} (n : Ngtcp2 Conn) (r : ℕ) (e : Encoding) (bytes : List ℕ) (opts : Kwargs)
    (filled : 0 < length bytes) where
  not_empty : (length bytes == 0) ≡ false
  not_empty = ground arith

  -- With room for all, #write_nonblock queues the payload itself.
  write_nonblock-whole :
      (c : Client Conn)
      → (stream c r).has_client ≡ true
      → length bytes ≤ window_left n c r
      → write_nonblock n c r (string e bytes) opts
        ≡ enqueue_on c r (string e bytes) (fin_kwarg opts)
  unfolding write_nonblock
  write_nonblock-whole c own room =
      rw (write_nonblock, own, not_empty) (whole (window_left n c r) room)
    where
      whole :
          (avail : ℕ)
          → length bytes ≤ avail
          → write_window n c r (string e bytes) bytes (fin_kwarg opts) avail
            ≡ enqueue_on c r (string e bytes) (fin_kwarg opts)
      whole avail h =
          let some_room : (avail == 0) ≡ false = ground arith in
          unfold write_window in
          rw
            (
              write_window,
              some_room,
              le→leb (length bytes) avail h,
              (==_iff (length bytes) (length bytes)).1 refl,
            )
            refl

  -- #write of a non-empty payload on a stream of a client, once the loop lets it go on, does what
  -- #write_nonblock would do then.
  pub write-write_nonblock :
      (fuel : ℕ) (c c' : Client Conn) (turns : List Turn)
      → r < c.objects.next
      → (stream c r).has_client ≡ true
      → wait_window n fuel c r (length bytes) turns ≡ some (ok tt, c')
      → write n fuel c r (string e bytes) opts turns
        ≡ some (write_nonblock n c' r (string e bytes) opts)
  unfolding write
  write-write_nonblock fuel c c' turns below own waited =
      let ended =
        pump_until-Keeps n (OnObjects (Carries SameOwner))
          (IsObjectFrame-IsClientFrame n (Carries SameOwner)
            (Carries-IsObjectFrame SameOwner SameOwner-IsFrame SameOwner-account))
          fuel (has_room n fuel r (length bytes)) c c' turns
          (sym (wait_window-pump_until n fuel r (length bytes) c turns) ∙ waited) in
      let own' : (stream c' r).has_client ≡ true = ended.1.same r below ∙ own in
      let room : length bytes ≤ window_left n c' r = ground (arith, ended.0) in
      simp (write, own, not_empty, waited, write_nonblock-whole c' own' room)
