-- ===== src/Client/Frame/Turn.antt =====
-- A turn of Client#pump_once (lib/quic/connection.rb) keeps what each of its steps keeps.
use quic_ruby.Base.{
  ℕ, zero, suc, ◌≡◌, refl, sym, ◌∙◌, Option, none, some, List, [], ◌∷◌, ◌++◌, arith, inl, inr,
  Bool-cases, Option-cases, subst,
}
use quic_ruby.Ruby.{nil, Result, ok, raise, quic, ErrorClass}
use quic_ruby.Ngtcp2.{Ngtcp2}
use quic_ruby.Client.State.{Client}
use quic_ruby.Client.Packets.{write_pkt}
use quic_ruby.Client.Pump.{Turn, drain, take_input, pump_once}

-- A relation between the client before and after, which each step of a turn keeps.
pub record IsClientFrame {Conn : Type 0} (n : Ngtcp2 Conn) (Q : Client Conn → Client Conn → Type 0)
    : Type 0 where
  pub stays : (c : Client Conn) → Q c c
  pub joins : (c d e : Client Conn) → Q c d → Q d e → Q c e
  pub packs : (c : Client Conn) (now : ℕ) → Q c (write_pkt n c nil now).client
  pub sends : (c : Client Conn) (packet : List ℕ) → Q c (record c { sent = c.sent ++ packet ∷ [] })
  pub takes : (c : Client Conn) (turn : Turn) → Q c (take_input n c turn).1

module _ {Conn : Type 0} (n : Ngtcp2 Conn) (Q : Client Conn → Client Conn → Type 0)
    (f : IsClientFrame n Q) where
  -- A call that is computed to end in `end`.
  pub carried :
      (c : Client Conn) (call : Option (Result (Unit {0}) × Client Conn))
      (end out : Result (Unit {0}) × Client Conn)
      → call ≡ some end
      → call ≡ some out
      → Q c end.1
      → Q c out.1
  carried c call end out stop e k =
      let same : end ≡ out = cc (stop, e) in
      subst (λ (x : Result (Unit {0}) × Client Conn). Q c x.1) same k

  drain-all :
      (fuel : ℕ) (c : Client Conn) (times : ℕ → ℕ) (k : ℕ) (out : Result (Unit {0}) × Client Conn)
      → drain n fuel c times k ≡ some out
      → Q c out.1
  unfolding drain
  drain-all zero c times k out e = cc
  drain-all (suc fuel) c times k out e =
      go (λ d. drain-all fuel d times (suc k) out) (write_pkt n c nil (times k)).result refl
    where
      sent : Q c (write_pkt n c nil (times k)).client
      sent = f.packs c (times k)

      go :
          ((d : Client Conn) → drain n fuel d times (suc k) ≡ some out → Q d out.1)
          → (result : Result (Option (List ℕ))) → (write_pkt n c nil (times k)).result ≡ result
          → Q c out.1
      go later (raise x) h =
          let stop : drain n (suc fuel) c times k
              ≡ some (raise x, (write_pkt n c nil (times k)).client) =
            rw (drain, h) refl in
          carried c _ _ out stop e sent
      go later (ok none) h =
          let stop : drain n (suc fuel) c times k
              ≡ some (ok tt, (write_pkt n c nil (times k)).client) =
            rw (drain, h) refl in
          carried c _ _ out stop e sent
      go later (ok (some packet)) h =
          let on : drain n (suc fuel) c times k
              ≡ drain n fuel
                  (record (write_pkt n c nil (times k)).client {
                    sent = (write_pkt n c nil (times k)).client.sent ++ packet ∷ [];
                  })
                  times (suc k) =
            rw (drain, h) refl in
          f.joins c (write_pkt n c nil (times k)).client out.1 sent (
            f.joins (write_pkt n c nil (times k)).client _ out.1
              (f.sends (write_pkt n c nil (times k)).client packet) (later _ (sym on ∙ e)))

  pub pump_once-all :
      (fuel : ℕ) (c : Client Conn) (turn : Turn) (out : Result (Unit {0}) × Client Conn)
      → pump_once n fuel c turn ≡ some out
      → Q c out.1
  unfolding pump_once
  pump_once-all fuel c turn out e = elim (Bool-cases c.bound) [
    | inr unbound ↦
        let stop : pump_once n fuel c turn ≡ some (raise (quic ErrorClass.not_bound none), c) =
          simp (pump_once, unbound) in
        carried c _ _ out stop e (f.stays c)
    | inl bound ↦ elim (Option-cases (drain n fuel c turn.times 1)) [
      | inl starved ↦ ground arith
      | inr ((raise x, d), failed) ↦
          let stop : pump_once n fuel c turn ≡ some (raise x, d) =
            simp (pump_once, failed, bound) in
          carried c _ _ out stop e (drain-all fuel c turn.times 1 (raise x, d) failed)
      | inr ((ok u, d), drained) ↦
          let stop : pump_once n fuel c turn ≡ some (take_input n d turn) =
            simp (pump_once, drained, bound) in
          carried c _ _ out stop e
            (f.joins c d _ (drain-all fuel c turn.times 1 (ok u, d) drained) (f.takes d turn))
    ]
  ]
