-- ===== src/Receiver/Read.antt =====
-- Reading gives the application the bytes that were delivered, in order and once.
use quic_ruby.Base.{
  ℕ, ◌-◌, ◌≤◌, ◌<◌, ◌≡◌, ◌↔◌, refl, sym, ap, ◌∙◌, Bool, true, false, none, List, [], ◌∷◌, ◌++◌, pos,
  negsuc, min, arith, ◌⊎◌, inl, inr, ◌==◌, ==_iff, Bool-cases, if◌then◌else◌, length, take, drop,
  ltb, append_assoc, append-nil, take-append-drop, take-append_le, take-all, length-take,
  length-drop, drop-all, lt→ltb,
}
use quic_ruby.Ruby.{Value, Numeric, Result, ok, raise, quic, eof_error, arg_error, ErrorClass}
use quic_ruby.Stream.{Stream, memmove_down, read_bytes, read_nonblock, is_eof}
use quic_ruby.Client.Callbacks.{receive}

-- `received` are all bytes delivered so far, `consumed` those that reads have returned.
abbrev pub IsReceiving : List ℕ → List ℕ → Stream → Type 0
IsReceiving received consumed s = received ≡ consumed ++ s.recv_buffer

-- The number of bytes that a read of `len` returns.
abbrev pub count_of : Stream → ℕ → ℕ
count_of s len = min len (length s.recv_buffer)

-- Moving the rest to the front and cutting the length drops the bytes that were returned.
memmove_down-drop : (n : ℕ) (buf : List ℕ) → take (length buf - n) (memmove_down n buf) ≡ drop n buf
unfolding memmove_down
memmove_down-drop n buf =
    let e = length-drop n buf in
    take-append_le (length buf - n) (drop n buf) (drop (length buf - n) buf) (omega (arith, e))
    ∙ take-all (length buf - n) (drop n buf) (omega (arith, e))

moved_lem :
    (k : ℕ) (buf : List ℕ)
    → k ≤ length buf
    → take (length buf - k) (if ltb k (length buf) then memmove_down k buf else buf) ≡ drop k buf
moved_lem k buf h = elim (Bool-cases (ltb k (length buf))) [
  | inl e ↦ rw e (memmove_down-drop k buf)
  | inr e ↦
      let all : length buf - k ≡ 0 = ground arith in
      rw (e, all) (sym (drop-all k buf (omega arith)))
]

count_lem : (len have : ℕ) → (if ltb len have then len else have) ≡ min len have
count_lem len have = ground arith

not-empty : (n : ℕ) → 0 < n → (n == 0) ≡ false
not-empty n h = ground arith

pub read_bytes-some :
    (s : Stream) (len : ℕ)
    → 0 < length s.recv_buffer
    → read_bytes s len ≡ (
      ok (take (count_of s len) s.recv_buffer),
      record s { recv_buffer = drop (count_of s len) s.recv_buffer },
    )
unfolding read_bytes
read_bytes-some s len h = rw (
  not-empty (length s.recv_buffer) h,
  count_lem len (length s.recv_buffer),
  moved_lem (min len (length s.recv_buffer)) s.recv_buffer (omega arith),
)

pub read_bytes-eof :
    (s : Stream) (len : ℕ)
    → (length s.recv_buffer == 0) ≡ true
    → s.fin_received ≡ true
    → read_bytes s len ≡ (raise eof_error, s)
unfolding read_bytes
read_bytes-eof s len z f = simp (z, f)

read_bytes-wait :
    (s : Stream) (len : ℕ)
    → (length s.recv_buffer == 0) ≡ true
    → s.fin_received ≡ false
    → read_bytes s len ≡ (raise (quic ErrorClass.wait_readable none), s)
unfolding read_bytes
read_bytes-wait s len z f = simp (z, f)

-- How #read_nonblock behaves on a length that is not negative.
abbrev pub Reads : List ℕ → List ℕ → Stream → ℕ → Result (List ℕ) × Stream → Type 0
Reads received consumed s len out =
    ((length s.recv_buffer ≡ 0) × (s.fin_received ≡ true) × (out ≡ (raise eof_error, s)))
    ⊎ ((length s.recv_buffer ≡ 0)
        × (s.fin_received ≡ false)
        × (out ≡ (raise (quic ErrorClass.wait_readable none), s)))
    ⊎ ((0 < length s.recv_buffer)
        × ((bytes : List ℕ) × (out.0 ≡ ok bytes)
            × (length bytes ≡ count_of s len)
            × IsReceiving received (consumed ++ bytes) out.1))

-- With a length that is not negative, #read_nonblock raises EOFError or WaitReadable on an empty
-- buffer and changes nothing; otherwise it returns the next bytes of the stream, as many as there
-- are up to the length asked for, and keeps the rest for later reads.
pub read_nonblock-Reads :
    (num : Numeric) (received consumed : List ℕ) (s : Stream) (v : Value) (len : ℕ)
    → num.num2long v ≡ ok (pos len)
    → IsReceiving received consumed s
    → Reads received consumed s len (read_nonblock num s v)
unfolding read_nonblock
read_nonblock-Reads num received consumed s v len e h =
    rw (read_nonblock, e)
      (elim (Bool-cases (length s.recv_buffer == 0)) [
        | inl z ↦ elim (Bool-cases s.fin_received) [
          | inl f ↦ inl ((==_iff (length s.recv_buffer) 0).0 z, f, read_bytes-eof s len z f)
          | inr f ↦ inr (inl ((==_iff (length s.recv_buffer) 0).0 z, f, read_bytes-wait s len z f))
        ]
        | inr p ↦
            let some_bytes : 0 < length s.recv_buffer = ground arith in
            rw (read_bytes-some s len some_bytes) (
              inr (
                inr (
                  some_bytes,
                  (
                    take (count_of s len) s.recv_buffer,
                    refl,
                    omega (arith, length-take (count_of s len) s.recv_buffer),
                    h
                        ∙ ap (λ r. consumed ++ r)
                            (sym (take-append-drop (count_of s len) s.recv_buffer))
                        ∙ sym (
                            append_assoc consumed (take (count_of s len) s.recv_buffer)
                              (drop (count_of s len) s.recv_buffer)),
                  ),
                )))
      ])

-- A negative length is refused, and nothing changes.
read_nonblock_negative :
    (num : Numeric) (s : Stream) (v : Value) (m : ℕ)
    → num.num2long v ≡ ok (negsuc m)
    → read_nonblock num s v ≡ (raise arg_error, s)
unfolding read_nonblock
read_nonblock_negative num s v m e = rw (read_nonblock, e)

pub delivered :
    (buf bytes : List ℕ) → (if ltb 0 (length bytes) then buf ++ bytes else buf) ≡ buf ++ bytes
delivered buf [] = sym (append-nil buf)
delivered buf (b ∷ bytes) = rw (lt→ltb 0 (length (b ∷ bytes)) (omega arith))

-- Delivered data goes behind what is not yet read.
pub receive-IsReceiving :
    (received consumed bytes : List ℕ) (s : Stream) (surfaced fin : Bool)
    → IsReceiving received consumed s
    → IsReceiving (received ++ bytes) consumed (receive s surfaced fin bytes)
unfolding receive
receive-IsReceiving received consumed bytes s surfaced fin h =
    ap (λ r. r ++ bytes) h
    ∙ append_assoc consumed s.recv_buffer bytes
    ∙ ap (λ r. consumed ++ r) (sym (delivered s.recv_buffer bytes))

-- #eof? answers true exactly where #read_nonblock of a length that is not negative raises
-- EOFError.
pub eof-read_nonblock :
    (num : Numeric) (s : Stream) (v : Value) (len : ℕ)
    → num.num2long v ≡ ok (pos len)
    → (is_eof s ≡ true) ↔ ((read_nonblock num s v).0 ≡ raise eof_error)
unfolding read_nonblock read_bytes is_eof
eof-read_nonblock num s v len e = rw (read_nonblock, e) (ground arith)
