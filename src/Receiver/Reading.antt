-- ===== src/Receiver/Reading.antt =====
-- A blocking #read among all that its turns of the I/O loop bring (lib/quic/stream.rb).
use quic_ruby.Base.{ℕ, ◌≡◌, Option, none, some, List, [], ◌++◌}
use quic_ruby.Ruby.{Result, ok, raise}
use quic_ruby.Ngtcp2.{Ngtcp2}
use quic_ruby.Client.Objects.{Objects}
use quic_ruby.Client.Pump.{Turn}
use quic_ruby.Client.State.{Client}
use quic_ruby.Receiver.Session.{Session}

-- What each stream had received, and more behind it.
abbrev pub Behind : (ℕ → List ℕ) → (ℕ → List ℕ) → Type 0
Behind f f' = (q : ℕ) → (more : List ℕ) × (f' q ≡ f q ++ more)

module _ {Conn : Type 0} (n : Ngtcp2 Conn) where
  -- The history of the client goes on, with what callbacks deliver meanwhile and no read.
  GoesOn : Client Conn → Client Conn → Type 0
  GoesOn c d =
      (f g : ℕ → List ℕ) → Session n f g c → (f' : ℕ → List ℕ) × Session n f' g d × Behind f f'

-- The bytes that a #read with a length gives the application.
abbrev pub given : Result (Option (List ℕ)) → List ℕ
given (ok (some bytes)) = bytes
given (ok none) = []
given (raise e) = []

-- A history of the client after a read that returned `bytes` of the stream `r`: more may have arrived
-- for each stream, behind `f`, and what arrived was read, or waits in the stream's buffer.
abbrev pub ReadsOn :
    {Conn : Type 0} → Ngtcp2 Conn → (ℕ → List ℕ) → (ℕ → List ℕ) → Client Conn → Type 0
ReadsOn n f g d =
    (f' : ℕ → List ℕ) × Session n f' g d
    × Behind f f'
    × ((q : ℕ) → f' q ≡ g q ++ (d.objects.cell q).recv_buffer)
