-- ===== src/Client/Pump/Waiting.antt =====
-- What the loop of the blocking #write waits for.
use quic_ruby.Base.{
  ℕ, ◌≤◌, ◌≡◌, inl, inr, some, List, [], ◌∷◌, arith, Bool-cases, Option-cases, ltb,
}
use quic_ruby.Ruby.{ok, raise}
use quic_ruby.Ngtcp2.{Ngtcp2}
use quic_ruby.Client.State.{Client}
use quic_ruby.Client.Io.{window_left}
use quic_ruby.Client.Pump.{Turn, pump_once, wait_window}

module _ {Conn : Type 0} (n : Ngtcp2 Conn) (fuel : ℕ) (r needed : ℕ) where
  -- Where the loop of #write ends without an exception, the window has room for the payload.
  pub wait_window-opens :
      (c c' : Client Conn) (turns : List Turn)
      → wait_window n fuel c r needed turns ≡ some (ok tt, c')
      → needed ≤ window_left n c' r
  unfolding wait_window
  wait_window-opens c c' [] e = ground arith
  wait_window-opens c c' (turn ∷ turns) e = elim (Bool-cases (ltb (window_left n c r) needed)) [
    | inr enough ↦ ground arith
    | inl short ↦ elim (Option-cases (pump_once n fuel c turn)) [
      | inl starved ↦ ground arith
      | inr ((raise x, d), failed) ↦ ground arith
      | inr ((ok u, d), turned) ↦ ground (arith, wait_window-opens d c' turns)
    ]
  ]
