-- ===== src/Client/Objects.antt =====
-- The Ruby objects of a client: its Quic::Stream objects, @streams and @accept_queue.
use quic_ruby.Base.{ℕ, suc, Option, List, ◌==◌, if◌then◌else◌}
use quic_ruby.Ruby.Hash.{aref, aset}
use quic_ruby.Stream.{Stream, stream_new}

-- A reference to a stream is a number below `next`. An object stays when @streams drops it.
pub record Objects : Type 0 where
  pub cell : ℕ → Stream
  pub next : ℕ
  pub streams : List (ℕ × ℕ)
  pub accept_queue : List ℕ

abbrev pub update : (ℕ → Stream) → ℕ → Stream → ℕ → Stream
update cell r s q = if r == q then s else cell q

-- Writing through a reference.
abbrev pub store : Objects → ℕ → Stream → Objects
store o r s = record o { cell = update o.cell r s }

-- quic_client_lookup_stream
unfoldable pub lookup_stream : Objects → ℕ → Option ℕ
lookup_stream o stream_id = aref stream_id o.streams

-- quic_stream_new, and the stream's entry in @streams.
unfoldable pub register : Objects → ℕ → Objects
register o stream_id = record o {
  cell = update o.cell o.next (stream_new stream_id);
  next = suc o.next;
  streams = aset stream_id o.next o.streams;
}
