-- ===== src/Receiver/History.antt =====
-- Every history of a stream's receiving side: data that arrives, and reads.
use quic_ruby.Base.{ℕ, ◌≡◌, refl, inl, inr, Bool, List, [], ◌++◌, ℤ, pos, negsuc, append-nil}
use quic_ruby.Ruby.{Value, Numeric, Result, ok, raise, Exception, arg_error}
use quic_ruby.Stream.{Stream, stream_new, stream_alloc, read_nonblock}
use quic_ruby.Client.Callbacks.{receive}
use quic_ruby.Receiver.Read.{IsReceiving, receive-IsReceiving, read_nonblock-Reads}

-- The bytes that a read gives the application.
abbrev pub returned : Result (List ℕ) → List ℕ
returned (ok bytes) = bytes
returned (raise e) = []

-- A history of a stream, with the bytes that were delivered and those that reads returned.
pub data History : List ℕ → List ℕ → Stream → Type 0 where
  begins : (id : ℕ) → History [] [] (stream_new id)
  arrives :
      {received consumed : List ℕ} {s : Stream} (surfaced fin : Bool) (bytes : List ℕ)
      → History received consumed s
      → History (received ++ bytes) consumed (receive s surfaced fin bytes)
  reads :
      {received consumed : List ℕ} {s : Stream} (num : Numeric) (v : Value)
      → History received consumed s
      → History received (consumed ++ returned (read_nonblock num s v).0) (read_nonblock num s v).1

-- A read that raises leaves the stream as it was.
unchanged :
    {received : List ℕ} (consumed : List ℕ) {s : Stream} (num : Numeric) (v : Value) (e : Exception)
    → read_nonblock num s v ≡ (raise e, s)
    → IsReceiving received consumed s
    → IsReceiving received
        (consumed ++ returned (read_nonblock num s v).0)
        (read_nonblock num s v).1
unchanged consumed num v e same h = rw (same, append-nil) h

pub read-IsReceiving :
    {received : List ℕ} (consumed : List ℕ) (s : Stream) (num : Numeric) (v : Value)
    (len : Result ℤ)
    → num.num2long v ≡ len
    → IsReceiving received consumed s
    → IsReceiving received
        (consumed ++ returned (read_nonblock num s v).0)
        (read_nonblock num s v).1
read-IsReceiving consumed s num v (raise x) e h =
    unchanged consumed num v x (unfold read_nonblock in rw (read_nonblock, e) refl) h
read-IsReceiving consumed s num v (ok (negsuc m)) e h =
    unchanged consumed num v arg_error (unfold read_nonblock in rw (read_nonblock, e) refl) h
read-IsReceiving {received} consumed s num v (ok (pos len)) e h =
    elim (read_nonblock-Reads num received consumed s v len e h) [
      | inl (z, f, same) ↦ unchanged consumed num v _ same h
      | inr (inl (z, f, same)) ↦ unchanged consumed num v _ same h
      | inr (inr (p, (bytes, good, count, kept))) ↦ rw good kept
    ]

-- In every history of a stream, the bytes that reads returned, followed by those in @recv_buffer, are
-- the bytes delivered, in order: none is lost, repeated or moved, whatever the lengths asked for.
pub History-IsReceiving :
    {received consumed : List ℕ} {s : Stream}
    → History received consumed s
    → received ≡ consumed ++ s.recv_buffer
History-IsReceiving (begins id) = unfold stream_new stream_alloc in refl
History-IsReceiving
      (arrives {received = received} {consumed = consumed} {s = s} surfaced fin bytes past) =
    receive-IsReceiving received consumed bytes s surfaced fin (History-IsReceiving past)
History-IsReceiving (reads {consumed = consumed} {s = s} num v past) =
    read-IsReceiving consumed s num v (num.num2long v) refl (History-IsReceiving past)
