-- ===== src/Client/Picker.antt =====
-- quic_client_pick_send_stream of ext/quic/connection_client.c.
pub mod Offers
use quic_ruby.Base.{
  ℕ, suc, ◌-◌, Bool, true, Option, none, some, List, [], ◌∷◌, ◌&&◌, not, length, drop, get_or, ltb,
  ◌==◌, if◌then◌else◌, sub64,
}
use quic_ruby.Ruby.Hash.{values}
use quic_ruby.Stream.{Stream}
use quic_ruby.Client.Objects.{Objects}

-- What is handed to writev_stream for a stream.
pub record Candidate : Type 0 where
  pub bytes : List ℕ
  pub datavcnt : ℕ
  pub fin : Bool
  pub stream_id : ℕ

-- The inner loop: the chunk with the next unsent byte, and that byte's offset in it.
unfoldable pub find_chunk : ℕ → List (List ℕ) → ℕ → Option (ℕ × ℕ)
find_chunk position [] j = none
find_chunk position (chunk ∷ rest) j =
    let later = find_chunk (sub64 position (length chunk)) rest (suc j) in
    if ltb position (length chunk) then some (j, position) else later

-- The body of the outer loop; `none` goes on to the next stream.
unfoldable pub candidate : Stream → Option Candidate
candidate s =
    if s.fin_flushed
    then none
    else elim (find_chunk (sub64 s.sent_offset s.pending_shifted) s.pending_chunks 0) [
      | some (j, offset) ↦ some (record {
        bytes = drop offset (get_or s.pending_chunks j []);
        datavcnt = 1;
        fin = s.fin_sent && j == length s.pending_chunks - 1;
        stream_id = s.stream_id;
      })
      | none ↦
          if s.fin_sent && not s.fin_flushed
          then some (record { bytes = []; datavcnt = 0; fin = true; stream_id = s.stream_id })
          else none
    ]

-- The outer loop, over the streams that are left.
unfoldable pub pick_from : (ℕ → Stream) → List ℕ → Option (ℕ × Candidate)
pick_from cell [] = none
pick_from cell (r ∷ rest) =
    let later = pick_from cell rest in
    elim (candidate (cell r)) [ some p ↦ some (r, p) | none ↦ later ]

unfoldable pub pick_send_stream : Objects → Option (ℕ × Candidate)
pick_send_stream o = pick_from o.cell (values o.streams)
