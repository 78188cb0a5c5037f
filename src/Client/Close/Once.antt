-- ===== src/Client/Close/Once.antt =====
-- What #close puts on the socket.
use quic_ruby.Base.{
  ℕ, ◌≡◌, refl, ◌⊎◌, inl, inr, true, false, none, some, List, [], ◌∷◌, ◌++◌, arith, ◌||◌, not,
  Bool-cases, if◌then◌else◌, length, take, ltb, ℤ, is_zero, is_negative, int_eq, magnitude,
}
use quic_ruby.Ruby.{Result, ok, raise, Kwargs, Numeric, quic, ErrorClass}
use quic_ruby.Ngtcp2.{Ngtcp2}
use quic_ruby.Client.State.{Client}
use quic_ruby.Client.Close.{close_keywords, send_close, close}

module _ {Conn : Type 0} (n : Ngtcp2 Conn) (c : Client Conn) where
  -- One datagram more, which only a successful call on a bound socket sends, before the closing
  -- and draining periods.
  abbrev pub SendsOne : Result (Unit {0}) × Client Conn → Type 0
  SendsOne out =
      (out.0 ≡ ok tt)
      × (c.bound ≡ true)
      × (n.in_closing_period c.conn ≡ false)
      × (n.in_draining_period c.conn ≡ false)
      × ((packet : List ℕ) × (out.1.sent ≡ c.sent ++ packet ∷ []))

  -- What ngtcp2 answers to the call.
  abbrev frame : ℕ → List ℕ → ℕ → Conn × ℤ × List ℕ
  frame code reason now =
      n.write_connection_close c.conn code (if ltb 0 (length reason) then some reason else none) now

  abbrev close_packet : ℕ → List ℕ → ℕ → List ℕ
  close_packet code reason now =
      take (magnitude (frame code reason now).1) (frame code reason now).2

  send_close-sent :
      (code : ℕ) (reason : List ℕ) (now : ℕ)
      → ((send_close n c code reason now).1.sent ≡ c.sent)
        ⊎ (((send_close n c code reason now).0 ≡ ok tt)
            × ((send_close n c code reason now).1.sent
                ≡ c.sent ++ close_packet code reason now ∷ []))
  unfolding send_close
  send_close-sent code reason now =
      elim (Bool-cases (int_eq (frame code reason now).1 n.codes.invalid_state)) [
        | inl e ↦ rw e (inl refl)
        | inr e ↦ elim (Bool-cases (is_negative (frame code reason now).1)) [
          | inl e' ↦ rw (e, e') (inl refl)
          | inr e' ↦ elim (Bool-cases (is_zero (frame code reason now).1)) [
            | inl e'' ↦ rw (e, e', e'') (inl refl)
            | inr e'' ↦ rw (e, e', e'') (inr (refl, refl))
          ]
        ]
      ]

  send_close-objects :
      (code : ℕ) (reason : List ℕ) (now : ℕ)
      → (send_close n c code reason now).1.objects ≡ c.objects
  unfolding send_close
  send_close-objects code reason now = ground arith

  Closes : Result (Unit {0}) × Client Conn → Type 0
  Closes out = ((out.1.sent ≡ c.sent) ⊎ SendsOne out) × (out.1.objects ≡ c.objects)

  -- The part of #close behind the conversion of its keywords.
  guarded-Closes :
      (code : ℕ) (reason : List ℕ) (now : ℕ)
      → Closes (
          if n.in_closing_period c.conn || n.in_draining_period c.conn
          then (ok tt, c)
          else if not c.bound
          then (raise (quic ErrorClass.not_bound none), c)
          else send_close n c code reason now)
  unfolding Closes
  guarded-Closes code reason now = elim (Bool-cases (n.in_closing_period c.conn)) [
    | inl e ↦ rw e (inl refl, refl)
    | inr e ↦ elim (Bool-cases (n.in_draining_period c.conn)) [
      | inl e' ↦ rw (e, e') (inl refl, refl)
      | inr e' ↦ elim (Bool-cases c.bound) [
        | inr e'' ↦ simp (e, e', e'') (inl refl, refl)
        | inl e'' ↦
            simp (e, e', e'')
              (
                elim (send_close-sent code reason now) [
                  | inl same ↦ inl same
                  | inr (good, one) ↦
                      inr (good, refl, refl, refl, (close_packet code reason now, one))
                ],
                send_close-objects code reason now,
              )
      ]
    ]
  ]

  -- #close sends nothing, or one datagram on a bound socket of a connection that is neither closing
  -- nor draining, and then it succeeds; it touches no stream object.
  pub close-SendsOne :
      (num : Numeric) (opts : Kwargs) (now : ℕ)
      → (((close n num c opts now).1.sent ≡ c.sent) ⊎ SendsOne (close n num c opts now))
        × ((close n num c opts now).1.objects ≡ c.objects)
  unfolding close Closes
  close-SendsOne num opts now = go (close_keywords num opts)
    where
      go :
          (k : Result (ℕ × List ℕ))
          → Closes (elim k [
            | raise e ↦ (raise e, c)
            | ok (code, reason) ↦
                if n.in_closing_period c.conn || n.in_draining_period c.conn
                then (ok tt, c)
                else if not c.bound
                then (raise (quic ErrorClass.not_bound none), c)
                else send_close n c code reason now
          ])
      go (raise e) = (inl refl, refl)
      go (ok (code, reason)) = guarded-Closes code reason now
