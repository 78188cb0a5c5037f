-- ===== src/Client/Close/Repeated.antt =====
-- Calls of #close one after the other.
use quic_ruby.Base.{
  ℕ, ℤ, Option, ◌≡◌, refl, ap, ◌∙◌, ◌⊎◌, inl, inr, true, false, none, some, List, [], ◌∷◌, ◌++◌,
  arith, Bool-cases, if◌then◌else◌, length, ltb, is_positive, is_zero, is_negative, int_eq,
}
use quic_ruby.Ruby.{Kwargs, Numeric, Result-cases}
use quic_ruby.Ngtcp2.{Ngtcp2}
use quic_ruby.Client.State.{Client}
use quic_ruby.Client.Close.{close_keywords, send_close, close}

positive : (z : ℤ) → is_negative z ≡ false → is_zero z ≡ false → is_positive z ≡ true
positive z e e' = ground arith

module _ {Conn : Type 0} (n : Ngtcp2 Conn) where
  -- The client after calls of #close, each with its keywords and the time.
  unfoldable pub closes : Numeric → Client Conn → List (Kwargs × ℕ) → Client Conn
  closes num c [] = c
  closes num c ((opts, now) ∷ calls) = closes num (close n num c opts now).1 calls

  abbrev reason_of : List ℕ → Option (List ℕ)
  reason_of reason = if ltb 0 (length reason) then some reason else none

  -- What ngtcp2 answers to the call.
  abbrev frame : Client Conn → ℕ → List ℕ → ℕ → Conn × ℤ × List ℕ
  frame c code reason now = n.write_connection_close c.conn code (reason_of reason) now

  -- ngtcp2 documents that a connection of which a CONNECTION_CLOSE was written is in its closing
  -- period.
  abbrev pub EntersClosing : Type 0
  EntersClosing =
      (conn : Conn) (code : ℕ) (reason : Option (List ℕ)) (now : ℕ)
      → is_positive (n.write_connection_close conn code reason now).1 ≡ true
      → n.in_closing_period (n.write_connection_close conn code reason now).0 ≡ true

  module _ (num : Numeric) (enters : EntersClosing) where
    -- What one call leaves: nothing sent, or one datagram and a closing connection.
    CloseStep : Client Conn → Client Conn → Type 0
    CloseStep c d =
        (d.sent ≡ c.sent)
        ⊎ ((packet : List ℕ) × (d.sent ≡ c.sent ++ packet ∷ [])
            × (n.in_closing_period d.conn ≡ true))

    send_close-CloseStep :
        (c : Client Conn) (code : ℕ) (reason : List ℕ) (now : ℕ)
        → CloseStep c (send_close n c code reason now).1
    unfolding send_close CloseStep
    send_close-CloseStep c code reason now =
        elim (Bool-cases (int_eq (frame c code reason now).1 n.codes.invalid_state)) [
          | inl e ↦ rw e (inl refl)
          | inr e ↦ elim (Bool-cases (is_negative (frame c code reason now).1)) [
            | inl e' ↦ rw (e, e') (inl refl)
            | inr e' ↦ elim (Bool-cases (is_zero (frame c code reason now).1)) [
              | inl e'' ↦ rw (e, e', e'') (inl refl)
              | inr e'' ↦
                  let written = positive (frame c code reason now).1 e' e'' in
                  rw (e, e', e'') (inr (_, refl, enters c.conn code (reason_of reason) now written))
            ]
          ]
        ]

    close-CloseStep :
        (c : Client Conn) (opts : Kwargs) (now : ℕ) → CloseStep c (close n num c opts now).1
    unfolding close CloseStep
    close-CloseStep c opts now = elim (Result-cases (close_keywords num opts)) [
      | inr (x, bad) ↦ rw (close, bad) (inl refl)
      | inl ((code, reason), good) ↦
          rw (close, good) (ground (arith, send_close-CloseStep c code reason now))
    ]

    close-closing :
        (c : Client Conn) (opts : Kwargs) (now : ℕ)
        → n.in_closing_period c.conn ≡ true
        → (close n num c opts now).1 ≡ c
    unfolding close
    close-closing c opts now e = elim (Result-cases (close_keywords num opts)) [
      | inr (x, bad) ↦ rw (close, bad) refl
      | inl ((code, reason), good) ↦ simp (close, good, e)
    ]

    closes-closing :
        (c : Client Conn) (calls : List (Kwargs × ℕ))
        → n.in_closing_period c.conn ≡ true
        → closes num c calls ≡ c
    unfolding closes
    closes-closing c [] e = refl
    closes-closing c ((opts, now) ∷ calls) e =
        ap (λ (d : Client Conn). closes num d calls) (close-closing c opts now e)
        ∙ closes-closing c calls e

    -- However often #close is called, and with whatever arguments, at most one datagram is sent, where
    -- ngtcp2 is in its closing period once it has written a CONNECTION_CLOSE.
    pub closes-SendOnce :
        (c : Client Conn) (calls : List (Kwargs × ℕ))
        → ((closes num c calls).sent ≡ c.sent)
          ⊎ ((packet : List ℕ) × ((closes num c calls).sent ≡ c.sent ++ packet ∷ []))
    unfolding closes CloseStep
    closes-SendOnce c [] = inl refl
    closes-SendOnce c ((opts, now) ∷ calls) = elim (close-CloseStep c opts now) [
      | inr (packet, one, closing) ↦ inr (
        packet,
        ap (λ (d : Client Conn). d.sent) (closes-closing (close n num c opts now).1 calls closing)
            ∙ one,
      )
      | inl same ↦ elim (closes-SendOnce (close n num c opts now).1 calls) [
        | inl none_sent ↦ inl (none_sent ∙ same)
        | inr (packet, one) ↦ inr (packet, one ∙ ap (λ s. s ++ packet ∷ []) same)
      ]
    ]
