-- ===== src/Client/Packets/Arguments.antt =====
-- The arguments of #read_pkt (ext/quic/connection_client.c).
use quic_ruby.Base.{
  ℕ, ◌≡◌, refl, ◌⊎◌, inl, inr, ◌↔◌, Bool, true, false, none, some, List, Bool-cases, ◌||◌,
}
use quic_ruby.Ruby.{
  Value, nil, boolean, integer, symbol, string, object, ascii_8bit, other_encoding, Result, ok,
  raise, ◌>>=◌, Result-cases, Exception, is_nil, keyword, Kwargs,
}
use quic_ruby.Ngtcp2.{Ngtcp2, SocketPath}
use quic_ruby.Client.State.{Client}
use quic_ruby.Client.Packets.{
  require_binary, path_keywords, check_packet, PacketIn, read_pkt, read_pkt_body,
}

-- A binary String with both addresses, binary Strings too, among the keywords.
abbrev pub IsPacket : Value → Kwargs → SocketPath → List ℕ → Type 0
IsPacket v none path packet = ⊥
IsPacket v (some opts) path packet =
    (v ≡ string ascii_8bit packet)
    × (keyword "local_sockaddr" opts ≡ string ascii_8bit path.local_sockaddr)
    × (keyword "remote_sockaddr" opts ≡ string ascii_8bit path.remote_sockaddr)

require_binary-ok :
    (v : Value) (bytes : List ℕ) → (require_binary v ≡ ok bytes) ↔ (v ≡ string ascii_8bit bytes)
unfolding require_binary
require_binary-ok nil bytes = (λ e. cc, λ e. cc)
require_binary-ok (boolean b) bytes = (λ e. cc, λ e. cc)
require_binary-ok (integer z) bytes = (λ e. cc, λ e. cc)
require_binary-ok (symbol s) bytes = (λ e. cc, λ e. cc)
require_binary-ok object bytes = (λ e. cc, λ e. cc)
require_binary-ok (string ascii_8bit b) bytes = (λ e. cc, λ e. cc)
require_binary-ok (string other_encoding b) bytes = (λ e. cc, λ e. cc)

check_packet_complete :
    (v : Value) (opts : Kwargs) (path : SocketPath) (packet : List ℕ)
    → IsPacket v opts path packet
    → check_packet v opts ≡ ok (path, packet)
unfolding check_packet path_keywords require_binary
check_packet_complete v none path packet h = absurd h
check_packet_complete v (some opts) path packet (e, l, r) = simp (e, l, r)

-- The checks of the Strings, behind the look at the keywords.
abbrev checked : Value → Value → Value → Result (SocketPath × List ℕ)
checked v local_v remote_v = do
  packet ← require_binary v
  local_bytes ← require_binary local_v
  remote_bytes ← require_binary remote_v
  ok (record { local_sockaddr = local_bytes; remote_sockaddr = remote_bytes }, packet)

strings_bound :
    (v local_v remote_v : Value) (path : SocketPath) (packet : List ℕ)
    → checked v local_v remote_v ≡ ok (path, packet)
    → (require_binary v ≡ ok packet)
      × (require_binary local_v ≡ ok path.local_sockaddr)
      × (require_binary remote_v ≡ ok path.remote_sockaddr)
strings_bound v local_v remote_v path packet e = elim (Result-cases (require_binary v)) [
  | inr (x, bad) ↦ absurd (cc (bad, e))
  | inl (b, good) ↦ elim (Result-cases (require_binary local_v)) [
    | inr (x, bad) ↦ absurd (cc (good, bad, e))
    | inl (l, good_l) ↦ elim (Result-cases (require_binary remote_v)) [
      | inr (x, bad) ↦ absurd (cc (good, good_l, bad, e))
      | inl (r, good_r) ↦
          (cc (good, good_l, good_r, e), cc (good, good_l, good_r, e), cc (good, good_l, good_r, e))
    ]
  ]
]

check_packet_sound :
    (v : Value) (opts : Kwargs) (path : SocketPath) (packet : List ℕ)
    → check_packet v opts ≡ ok (path, packet)
    → IsPacket v opts path packet
unfolding check_packet path_keywords
check_packet_sound v none path packet e = absurd (cc e)
check_packet_sound v (some opts) path packet e =
    elim (Bool-cases
      (is_nil (keyword "local_sockaddr" opts) || is_nil (keyword "remote_sockaddr" opts))) [
        | inl missing ↦ absurd (cc (missing, e))
        | inr there ↦
            let passed : checked v (keyword "local_sockaddr" opts) (keyword "remote_sockaddr" opts)
                ≡ ok (path, packet) =
              cc (there, e) in
            let (b, l, r) =
              strings_bound v (keyword "local_sockaddr" opts) (keyword "remote_sockaddr" opts) path
                packet passed in
            (
              (require_binary-ok v packet).0 b,
              (require_binary-ok (keyword "local_sockaddr" opts) path.local_sockaddr).0 l,
              (require_binary-ok (keyword "remote_sockaddr" opts) path.remote_sockaddr).0 r,
            )
      ]

module _ {Conn : Type 0} (n : Ngtcp2 Conn) (c : Client Conn) (v : Value) (opts : Kwargs)
    (locked : Bool) (now : ℕ) where
  -- What a call of #read_pkt does with its arguments.
  abbrev pub Admits : PacketIn Conn → Type 0
  Admits out =
      ((path : SocketPath) × ((packet : List ℕ) × IsPacket v opts path packet
          × (locked ≡ false)
          × (out.locked ≡ false)
          × ((out.result, out.client) ≡ read_pkt_body n c path packet now)))
      ⊎ (((path : SocketPath) (packet : List ℕ) → IsPacket v opts path packet → locked ≡ true)
          × (out.client ≡ c)
          × (out.locked ≡ locked)
          × ((x : Exception) × (out.result ≡ raise x)))

  -- #read_pkt hands a packet to ngtcp2 exactly where it is a binary String that is not locked, and
  -- both addresses are given as binary Strings, and then it leaves the packet unlocked whatever ngtcp2
  -- answers; it raises otherwise, with the client and the lock as they were.
  pub read_pkt-Admits : Admits (read_pkt n c v opts locked now)
  unfolding read_pkt
  read_pkt-Admits = elim (Result-cases (check_packet v opts)) [
    | inr (x, bad) ↦
        rw (read_pkt, bad)
          (inr (
            (λ path packet h. absurd (cc (check_packet_complete v opts path packet h, bad))),
            refl,
            refl,
            (x, refl),
          ))
    | inl ((path, packet), good) ↦ elim (Bool-cases locked) [
      | inl held ↦ rw (read_pkt, good, held) (inr ((λ p b h. refl), refl, refl, (_, refl)))
      | inr free ↦
          rw (read_pkt, good, free)
            (inl (path, (packet, check_packet_sound v opts path packet good, refl, refl, refl)))
    ]
  ]
