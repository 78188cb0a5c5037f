-- ===== src/Sender/Retain/Past.antt =====
-- Runs of a client that go on from another run of it, and the chunks that they push.
use quic_ruby.Base.{
  ℕ, ◌≡◌, refl, sym, ◌∙◌, ap, subst, Option, none, some, List, [], ◌∷◌, ◌++◌, append-nil,
  append_assoc, Bool-cases, inl, inr, length, ltb, ◌==◌,
}
use quic_ruby.Ruby.{Result, ok, raise}
use quic_ruby.Ngtcp2.{Ngtcp2}
use quic_ruby.Client.State.{Client}
use quic_ruby.Client.Io.{enqueue_on}
use quic_ruby.Sender.Run.{
  Run, starts, binds, opens, writes, packs, receives, expires, reads, resets, closes_read, accepts,
  closes, sends,
}
use quic_ruby.Sender.Retain.Pushed.{pushed_by}
use quic_ruby.Sender.Retain.Run.{chunks_written}

-- One list begins with another.
abbrev pub Longer : List (List ℕ) → List (List ℕ) → Type 0
Longer short long = (more : List (List ℕ)) × (long ≡ short ++ more)

Longer-refl : (w : List (List ℕ)) → Longer w w
Longer-refl w = ([], sym (append-nil w))

pushed_by-Longer :
    (written : ℕ → List (List ℕ)) (r : ℕ) (bytes : List ℕ) (result : Result ℕ) (q : ℕ)
    → Longer (written q) (pushed_by written r bytes result q)
unfolding pushed_by
pushed_by-Longer written r bytes (raise e) q = Longer-refl (written q)
pushed_by-Longer written r bytes (ok k) q = elim (Bool-cases (r == q)) [
  | inr other ↦ rw (pushed_by, other) (Longer-refl (written q))
  | inl own ↦ elim (Bool-cases (ltb 0 (length bytes))) [
    | inr empty ↦ rw (pushed_by, own, empty) (Longer-refl (written q))
    | inl full ↦ rw (pushed_by, own, full) (bytes ∷ [], refl)
  ]
]

module _ {Conn : Type 0} (n : Ngtcp2 Conn) where
  -- A run with what it has accepted and framed, and its client.
  abbrev pub History : Type 0
  History = (a : ℕ → List ℕ) × (f : ℕ → List ℕ) × (c : Client Conn) × Run n a f c

  -- The run without its last step.
  unfoldable pub past_of : {a f : ℕ → List ℕ} {c : Client Conn} → Run n a f c → Option History
  past_of (starts conn) = none
  past_of (binds is_socket past) = some (_, _, _, past)
  past_of (opens conn rv id past) = some (_, _, _, past)
  past_of (writes r v bytes fin below text small past) = some (_, _, _, past)
  past_of (packs now honest past) = some (_, _, _, past)
  past_of (receives path packet now permitted past) = some (_, _, _, past)
  past_of (expires now permitted past) = some (_, _, _, past)
  past_of (reads num r v past) = some (_, _, _, past)
  past_of (resets r code past) = some (_, _, _, past)
  past_of (closes_read r past) = some (_, _, _, past)
  past_of (accepts past) = some (_, _, _, past)
  past_of (closes num opts now past) = some (_, _, _, past)
  past_of (sends packet past) = some (_, _, _, past)

  -- A run, and every run that adds steps to it.
  pub data GoesOnFrom (h : History) : History → Type 0 where
    here : GoesOnFrom h h
    further :
        {mid last : History} → past_of last.3 ≡ some mid → GoesOnFrom h mid → GoesOnFrom h last

  -- The chunks of the run without its last step, if it has one.
  PastLonger : List (List ℕ) → ℕ → Option History → Type 0
  PastLonger long r none = Unit
  PastLonger long r (some (a, f, c, run)) = Longer (chunks_written run r) long

  past_of-Longer :
      {a f : ℕ → List ℕ} {c : Client Conn} (run : Run n a f c) (r : ℕ)
      → PastLonger (chunks_written run r) r (past_of run)
  unfolding PastLonger past_of chunks_written
  past_of-Longer (starts conn) r = tt
  past_of-Longer (binds is_socket past) r = Longer-refl _
  past_of-Longer (opens conn rv id past) r = Longer-refl _
  past_of-Longer (writes {c = c} q v bytes fin below text small past) r =
      pushed_by-Longer (chunks_written past) q bytes (enqueue_on c q v fin).0 r
  past_of-Longer (packs now honest past) r = Longer-refl _
  past_of-Longer (receives path packet now permitted past) r = Longer-refl _
  past_of-Longer (expires now permitted past) r = Longer-refl _
  past_of-Longer (reads num q v past) r = Longer-refl _
  past_of-Longer (resets q code past) r = Longer-refl _
  past_of-Longer (closes_read q past) r = Longer-refl _
  past_of-Longer (accepts past) r = Longer-refl _
  past_of-Longer (closes num opts now past) r = Longer-refl _
  past_of-Longer (sends packet past) r = Longer-refl _

  -- A run that goes on has pushed the chunks of the run it goes on from, and then others.
  pub GoesOnFrom-Longer :
      {h last : History} (r : ℕ)
      → GoesOnFrom h last
      → Longer (chunks_written h.3 r) (chunks_written last.3 r)
  unfolding PastLonger
  GoesOnFrom-Longer r here = Longer-refl _
  GoesOnFrom-Longer {h} r (further {mid = mid} {last = last} e before) =
      let (more, longer) = GoesOnFrom-Longer r before in
      let (after, last_longer) =
        subst (PastLonger (chunks_written last.3 r) r) e (past_of-Longer last.3 r) in
      (
        more ++ after,
        last_longer ∙ ap (λ w. w ++ after) longer ∙ append_assoc (chunks_written h.3 r) more after,
      )
