-- ===== src/Client/Frame/Until.antt =====
-- Client#pump_until (lib/quic/connection.rb), and the loop of the blocking #write as an instance of it.
use quic_ruby.Base.{
  ℕ, ◌≡◌, refl, sym, ◌∙◌, Bool, true, false, some, List, [], ◌∷◌, inl, inr, not, ltb, Bool-cases,
  Option-cases, subst, arith,
}
use quic_ruby.Ruby.{Result, ok, raise}
use quic_ruby.Ngtcp2.{Ngtcp2}
use quic_ruby.Client.Io.{window_left}
use quic_ruby.Client.State.{Client}
use quic_ruby.Client.Pump.{Turn, pump_once, pump_until, wait_window}
use quic_ruby.Client.Frame.Turn.{IsClientFrame, carried, pump_once-all}

module _ {Conn : Type 0} (n : Ngtcp2 Conn) (Q : Client Conn → Client Conn → Type 0)
    (f : IsClientFrame n Q) (fuel : ℕ) (pred : Client Conn → Bool) where
  pump_until_at_once :
      (c : Client Conn) (turns : List Turn)
      → pred c ≡ true
      → pump_until n fuel pred c turns ≡ some (ok tt, c)
  unfolding pump_until
  pump_until_at_once c [] yet = rw yet
  pump_until_at_once c (turn ∷ turns) yet = rw (pump_until, yet)

  pump_until_turn :
      (c d : Client Conn) (turn : Turn) (turns : List Turn)
      → pred c ≡ false
      → pump_once n fuel c turn ≡ some (ok tt, d)
      → pump_until n fuel pred c (turn ∷ turns) ≡ pump_until n fuel pred d turns
  unfolding pump_until
  pump_until_turn c d turn turns later turned = rw (pump_until, later, turned)

  Finishes : Client Conn → Client Conn → Type 0
  Finishes c d = (pred d ≡ true) × Q c d

  at_once :
      (c d : Client Conn) (turns : List Turn)
      → pred c ≡ true
      → pump_until n fuel pred c turns ≡ some (ok tt, d)
      → Finishes c d
  unfolding Finishes
  at_once c d turns yet e =
      let same : c ≡ d = cc (pump_until_at_once c turns yet, e) in
      subst (λ (x : Client Conn). (pred x ≡ true) × Q c x) same (yet, f.stays c)

  -- The loop ends with its predicate, and the turns before have kept what the frame keeps.
  pub pump_until-Keeps :
      (c d : Client Conn) (turns : List Turn)
      → pump_until n fuel pred c turns ≡ some (ok tt, d)
      → (pred d ≡ true) × Q c d
  unfolding Finishes
  pump_until-Keeps c d [] e = elim (Bool-cases (pred c)) [
    | inl yet ↦ at_once c d [] yet e
    | inr later ↦ unfold pump_until in ground arith
  ]
  pump_until-Keeps c d (turn ∷ turns) e = elim (Bool-cases (pred c)) [
    | inl yet ↦ at_once c d (turn ∷ turns) yet e
    | inr later ↦ elim (Option-cases (pump_once n fuel c turn)) [
      | inl starved ↦ unfold pump_until in ground arith
      | inr ((raise x, d'), failed) ↦ unfold pump_until in ground arith
      | inr ((ok u, d'), turned) ↦
          let next =
            pump_until-Keeps d' d turns (sym (pump_until_turn c d' turn turns later turned) ∙ e) in
          (next.0, f.joins c d' d (pump_once-all n Q f fuel c turn (ok u, d') turned) next.1)
    ]
  ]

  -- However the loop ends, its turns have kept what the frame keeps.
  pub pump_until-all :
      (c : Client Conn) (turns : List Turn) (out : Result (Unit {0}) × Client Conn)
      → pump_until n fuel pred c turns ≡ some out
      → Q c out.1
  unfolding pump_until
  pump_until-all c [] out e = elim (Bool-cases (pred c)) [
    | inl yet ↦ carried n Q f c _ _ out (pump_until_at_once c [] yet) e (f.stays c)
    | inr later ↦ absurd (ground arith)
  ]
  pump_until-all c (turn ∷ turns) out e = elim (Bool-cases (pred c)) [
    | inl yet ↦ carried n Q f c _ _ out (pump_until_at_once c (turn ∷ turns) yet) e (f.stays c)
    | inr later ↦ elim (Option-cases (pump_once n fuel c turn)) [
      | inl starved ↦ absurd (ground arith)
      | inr ((raise x, d), failed) ↦
          let stop : pump_until n fuel pred c (turn ∷ turns) ≡ some (raise x, d) =
            rw (pump_until, later, failed) refl in
          carried n Q f c _ _ out stop e (pump_once-all n Q f fuel c turn (raise x, d) failed)
      | inr ((ok u, d), turned) ↦
          f.joins c d out.1 (pump_once-all n Q f fuel c turn (ok u, d) turned)
            (pump_until-all d turns out (sym (pump_until_turn c d turn turns later turned) ∙ e))
    ]
  ]

module _ {Conn : Type 0} (n : Ngtcp2 Conn) (fuel r needed : ℕ) where
  abbrev pub has_room : Client Conn → Bool
  has_room c = not (ltb (window_left n c r) needed)

  -- The loop of #write is Client#pump_until with the test of the window.
  pub wait_window-pump_until :
      (c : Client Conn) (turns : List Turn)
      → wait_window n fuel c r needed turns ≡ pump_until n fuel has_room c turns
  unfolding wait_window pump_until
  wait_window-pump_until c [] = ground arith
  wait_window-pump_until c (turn ∷ turns) = elim (Bool-cases (ltb (window_left n c r) needed)) [
    | inr enough ↦ ground arith
    | inl short ↦ elim (Option-cases (pump_once n fuel c turn)) [
      | inl starved ↦ rw (wait_window, pump_until, short, starved)
      | inr ((raise x, d), failed) ↦ rw (wait_window, pump_until, short, failed)
      | inr ((ok u, d), turned) ↦
          rw (wait_window, pump_until, short, turned) (wait_window-pump_until d turns)
    ]
  ]
