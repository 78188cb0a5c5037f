-- ===== src/Client/Pump/Timeout.antt =====
-- How long Client#pump_once waits for a datagram (#pump_timeout of lib/quic/connection.rb). Times are
-- in nanoseconds.
use quic_ruby.Base.{
  ℕ, ◌+◌, ◌-◌, ◌≤◌, ◌<◌, ◌≡◌, ◌↔◌, ◌⊎◌, Option, none, some, arith, leb, if◌then◌else◌, Option-cases,
  inl, inr,
}
use quic_ruby.Ngtcp2.{Ngtcp2}
use quic_ruby.Client.Packets.{expiry}
use quic_ruby.Client.State.{Client}

-- `[caller_timeout, expiry_secs].min`, and the expiry alone without a timeout.
unfoldable pub shortest : Option ℕ → ℕ → ℕ
shortest none left = left
shortest (some timeout) left = if leb timeout left then timeout else left

module _ {Conn : Type 0} (n : Ngtcp2 Conn) where
  -- Client#pump_timeout. A difference below 0 counts as 0, as in the source.
  unfoldable pub pump_timeout : Client Conn → Option ℕ → ℕ → Option ℕ
  pump_timeout c timeout now = elim (expiry n c) [
    | none ↦ timeout
    | some t ↦ some (shortest timeout (t - now))
  ]

  -- A wait that ends with the timeout and with the expiry, whichever comes first.
  pub record IsShortest (c : Client Conn) (timeout : Option ℕ) (now : ℕ) : Type 0 where
    pub unbounded : (pump_timeout c timeout now ≡ none) ↔ (expiry n c ≡ none) × (timeout ≡ none)
    pub in_time : (w k : ℕ) → pump_timeout c timeout now ≡ some w → timeout ≡ some k → w ≤ k
    pub on_expiry :
        (w t : ℕ)
        → pump_timeout c timeout now ≡ some w
        → expiry n c ≡ some t
        → (now + w ≤ t) ⊎ ((t < now) × (w ≡ 0))
    pub reached :
        (w : ℕ)
        → pump_timeout c timeout now ≡ some w
        → (timeout ≡ some w) ⊎ ((t : ℕ) × (expiry n c ≡ some t) × (w ≡ t - now))

  -- The wait of #pump_once is without end only where neither a timeout nor an expiry of ngtcp2 is set;
  -- it is the timeout or the time to the expiry, never longer than either, and no time at all where
  -- the expiry is past.
  pub pump_timeout-IsShortest :
      (c : Client Conn) (timeout : Option ℕ) (now : ℕ) → IsShortest c timeout now
  unfolding pump_timeout shortest
  pump_timeout-IsShortest c timeout now = record {
    unbounded = ground arith;
    in_time = λ w k e e'. ground arith;
    on_expiry = λ w t e e'. ground arith;
    reached = reached_lem;
  }
    where
      reached_lem :
          (w : ℕ)
          → pump_timeout c timeout now ≡ some w
          → (timeout ≡ some w) ⊎ ((t : ℕ) × (expiry n c ≡ some t) × (w ≡ t - now))
      reached_lem w e = elim (Option-cases (expiry n c)) [
        | inl idle ↦ inl (ground arith)
        | inr (t, due) ↦
            let either : (timeout ≡ some w) ⊎ (w ≡ t - now) = ground arith in
            elim either [ inl same ↦ inl same | inr left ↦ inr (t, due, left) ]
      ]
