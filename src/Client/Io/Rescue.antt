-- ===== src/Client/Io/Rescue.antt =====
-- Which calls `rescue IO::WaitReadable` and `rescue IO::WaitWritable` retry: the mixins of Init_quic
-- (ext/quic/quic.c) under the non-blocking calls.
use quic_ruby.Base.{
  ℕ, pos, ◌<◌, ◌≡◌, ◌↔◌, refl, true, false, Bool, none, some, List, [], ◌∷◌, arith, length, ◌==◌,
  Bool-cases, inl, inr, ◌⊎◌,
}
use quic_ruby.Ruby.{Value, string, Encoding, Result, ok, raise, quic, Kwargs, Numeric}
use quic_ruby.Errors.{IoModule, included_module}
use quic_ruby.Ngtcp2.{Ngtcp2}
use quic_ruby.Stream.{Stream, enqueue, read_bytes, read_nonblock}
use quic_ruby.Client.Accept.{accept_stream_nonblock, shift_queue}
use quic_ruby.Client.Objects.{Objects}
use quic_ruby.Client.State.{Client}
use quic_ruby.Client.Io.{stream, enqueue_on, fin_kwarg, window_left, write_window, write_nonblock}
use quic_ruby.Client.Io.Unqueued.{write_nonblock-full}

-- An exception that a `rescue` of a module of IO matches: one of whose class includes it.
unfoldable pub is_rescued {ℓ} : {A : Type ℓ} → IoModule → Result A → Bool
unfolding included_module
is_rescued IoModule.io_wait_readable (raise (quic k code)) = elim (included_module k) [
  | some IoModule.io_wait_readable ↦ true
  | some IoModule.io_wait_writable ↦ false
  | none ↦ false
]
is_rescued IoModule.io_wait_writable (raise (quic k code)) = elim (included_module k) [
  | some IoModule.io_wait_readable ↦ false
  | some IoModule.io_wait_writable ↦ true
  | none ↦ false
]
is_rescued m r = false

read_nonblock-rescued :
    (num : Numeric) (s : Stream) (v : Value) (len : ℕ)
    → num.num2long v ≡ ok (pos len)
    → (is_rescued IoModule.io_wait_readable (read_nonblock num s v).0 ≡ true)
      ↔ (length s.recv_buffer ≡ 0) × (s.fin_received ≡ false)
unfolding read_nonblock read_bytes is_rescued included_module
read_nonblock-rescued num s v len e = rw (read_nonblock, e) (ground arith)

shift_queue-rescued :
    (o : Objects) (queue : List ℕ)
    → (is_rescued IoModule.io_wait_readable (shift_queue o queue).0 ≡ true) ↔ (queue ≡ [])
unfolding shift_queue is_rescued included_module
shift_queue-rescued o [] = (λ e. refl, λ e. refl)
shift_queue-rescued o (r ∷ queue) = (λ e. absurd (cc e), λ e. absurd (cc e))

enqueue-not_rescued :
    (s : Stream) (v : Value) (fin : Bool)
    → is_rescued IoModule.io_wait_writable (enqueue s v fin).0 ≡ false
unfolding enqueue is_rescued included_module
enqueue-not_rescued s v fin = ground arith

module _ {Conn : Type 0} (n : Ngtcp2 Conn) (c : Client Conn) (r : ℕ) where
  -- What the window check leaves to quic_stream_enqueue raises StreamClosed at most.
  passed-not_rescued :
      (e : Encoding) (bytes : List ℕ) (opts : Kwargs)
      → ((stream c r).has_client ≡ false)
        ⊎ ((length bytes == 0) ≡ true)
        ⊎ ((window_left n c r == 0) ≡ false)
      → is_rescued IoModule.io_wait_writable (write_nonblock n c r (string e bytes) opts).0 ≡ false
  unfolding write_nonblock write_window enqueue_on
  passed-not_rescued e bytes opts h = elim (Bool-cases (stream c r).has_client) [
    | inr bare ↦
        rw (write_nonblock, bare)
          (enqueue-not_rescued (stream c r) (string e bytes) (fin_kwarg opts))
    | inl own ↦ elim (Bool-cases (length bytes == 0)) [
      | inl empty ↦
          rw (write_nonblock, own, empty)
            (enqueue-not_rescued (stream c r) (string e bytes) (fin_kwarg opts))
      | inr filled ↦
          let room : (window_left n c r == 0) ≡ false = ground (arith, h) in
          rw (write_nonblock, own, filled, write_window, room)
            (enqueue-not_rescued (stream c r) _ _)
    ]
  ]

  write_nonblock-rescued :
      (e : Encoding) (bytes : List ℕ) (opts : Kwargs)
      → (is_rescued IoModule.io_wait_writable (write_nonblock n c r (string e bytes) opts).0 ≡ true)
        ↔ ((stream c r).has_client ≡ true) × (0 < length bytes) × (window_left n c r ≡ 0)
  unfolding is_rescued included_module
  write_nonblock-rescued e bytes opts = (
    λ h. ground (arith, h, passed-not_rescued e bytes opts),
    λ (own, filled, full). rw (write_nonblock-full n c r e bytes opts own filled full) refl,
  )

  -- What is retried, of the calls on a client and one of its streams.
  abbrev pub RetriesWaits : Numeric → Value → Encoding → List ℕ → Kwargs → Type 0
  RetriesWaits num v e bytes opts =
      ((is_rescued IoModule.io_wait_readable (read_nonblock num (stream c r) v).0 ≡ true)
        ↔ (length (stream c r).recv_buffer ≡ 0) × ((stream c r).fin_received ≡ false))
      × ((is_rescued IoModule.io_wait_readable (accept_stream_nonblock c.objects).0 ≡ true)
          ↔ (c.objects.accept_queue ≡ []))
      × ((is_rescued IoModule.io_wait_writable (write_nonblock n c r (string e bytes) opts).0
            ≡ true)
          ↔ ((stream c r).has_client ≡ true) × (0 < length bytes) × (window_left n c r ≡ 0))

  -- `rescue IO::WaitReadable` matches what #read_nonblock of a length that is not negative raises
  -- exactly on an empty buffer before FIN, and what #accept_stream_nonblock raises exactly on an empty
  -- queue; `rescue IO::WaitWritable` matches what #write_nonblock of a String raises exactly where
  -- there are bytes to write, on a stream of a client, and no window.
  pub nonblock-RetriesWaits :
      (num : Numeric) (v : Value) (len : ℕ) (e : Encoding) (bytes : List ℕ) (opts : Kwargs)
      → num.num2long v ≡ ok (pos len)
      → RetriesWaits num v e bytes opts
  unfolding accept_stream_nonblock
  nonblock-RetriesWaits num v len e bytes opts h = (
    read_nonblock-rescued num (stream c r) v len h,
    shift_queue-rescued c.objects c.objects.accept_queue,
    write_nonblock-rescued e bytes opts,
  )
