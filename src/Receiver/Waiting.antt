-- ===== src/Receiver/Waiting.antt =====
-- What the blocking #accept_stream returns (lib/quic/connection.rb).
use quic_ruby.Base.{ℕ, List, [], ◌∷◌, ◌++◌}
use quic_ruby.Stream.{Stream}
use quic_ruby.Ngtcp2.{Ngtcp2}
use quic_ruby.Client.Objects.{Objects}
use quic_ruby.Client.State.{Client}
use quic_ruby.Receiver.Surfaces.{Surfaces}

-- The record of queued streams goes on, with those that were queued meanwhile.
abbrev Continues : Objects → Objects → Type 0
Continues o o' =
    (taken surfaced : List ℕ)
    → Surfaces taken surfaced o
    → (more : List ℕ) × Surfaces taken (surfaced ++ more) o'

-- `r` is the oldest of the streams that were queued and not yet accepted: it is the next of those
-- accepted, and the queue is what is left.
abbrev pub IsOldest : List ℕ → List ℕ → ℕ → Objects → Type 0
IsOldest taken surfaced r o = Surfaces (taken ++ r ∷ []) surfaced o

-- The stream that a call returned, and what was queued meanwhile.
abbrev pub Accepts : {Conn : Type 0} → List ℕ → List ℕ → ℕ → Client Conn → Type 0
Accepts taken surfaced r d = (more : List ℕ) × IsOldest taken (surfaced ++ more) r d.objects
