-- ===== src/Receiver/Surfaces.antt =====
-- The record of the streams that were ever queued on @accept_queue.
use quic_ruby.Base.{
  ℕ, ◌<◌, ◌≡◌, ◌≢◌, refl, sym, subst, ap, ◌∙◌, Bool, Bool-cases, inl, inr, ◌||◌, ◌==◌, true, false,
  some, List, [], ◌∷◌, ◌++◌, arith, ==_iff, All, All-snoc, append_assoc,
}
use quic_ruby.Ruby.Hash.{
  aref, delete, aref-aset, aref-delete, Distinct, aset-Distinct, delete-Distinct,
}
use quic_ruby.Stream.{Stream, stream_new}
use quic_ruby.Client.Objects.{Objects, update, store, register}
use quic_ruby.Client.Callbacks.{is_server}
use quic_ruby.Client.Frame.{update-all}

-- No reference stands twice.
abbrev pub Unique : List ℕ → Type 0
Unique [] = Unit
Unique (r ∷ rs) = All (λ q. r ≢ q) rs × Unique rs

Unique-snoc : (rs : List ℕ) (r : ℕ) → Unique rs → All (λ q. q ≢ r) rs → Unique (rs ++ r ∷ [])
Unique-snoc [] r u a = (tt, tt)
Unique-snoc (q ∷ rs) r u a = (All-snoc (λ x. q ≢ x) rs r u.0 a.0, Unique-snoc rs r u.1 a.1)

unfoldable pub mem : ℕ → List ℕ → Bool
mem r [] = false
mem r (q ∷ qs) = q == r || mem r qs

mem-snoc : (q : ℕ) (rs : List ℕ) (r : ℕ) → mem q (rs ++ r ∷ []) ≡ (mem q rs || r == q)
unfolding mem
mem-snoc q [] r = ground arith
mem-snoc q (x ∷ rs) r = rw (mem-snoc q rs r) (ground arith)

not-mem : (r : ℕ) (rs : List ℕ) → All (λ q. q ≢ r) rs → mem r rs ≡ false
unfolding mem
not-mem r [] a = refl
not-mem r (q ∷ rs) a = rw (mem, not-mem r rs a.1) (ground (arith, a.0))

-- `surfaced` are the streams that were ever queued, of which `taken` were accepted; the queue is what
-- is left of them. Each was opened by the server, is marked, and stands there once. A mark is set
-- only on streams in `surfaced`.
pub record Surfaces (taken surfaced : List ℕ) (o : Objects) : Type 0 where
  pub queued : surfaced ≡ taken ++ o.accept_queue
  pub unique : Unique surfaced
  pub marked :
      All
        (λ r.
          (r < o.next)
          × ((o.cell r).accept_queued ≡ true)
          × (is_server (o.cell r).stream_id ≡ true))
        surfaced
  pub exact : (r : ℕ) → r < o.next → (o.cell r).accept_queued ≡ mem r surfaced
  pub known : (id r : ℕ) → aref id o.streams ≡ some r → (r < o.next) × ((o.cell r).stream_id ≡ id)
  pub distinct : Distinct o.streams

-- What keeps a stream in `surfaced`, or out of it.
abbrev pub Marks : Stream → Stream → Type 0
Marks s t = (t.accept_queued ≡ s.accept_queued) × (t.stream_id ≡ s.stream_id)

All-map : (P Q : ℕ → Type 0) (xs : List ℕ) → ((r : ℕ) → P r → Q r) → All P xs → All Q xs
All-map P Q [] f h = tt
All-map P Q (x ∷ xs) f h = (f x h.0, All-map P Q xs f h.1)

module _ {taken surfaced : List ℕ} {o : Objects} (v : Surfaces taken surfaced o) where
  pub store-Surfaces :
      (r : ℕ) (s : Stream) → Marks (o.cell r) s → Surfaces taken surfaced (store o r s)
  store-Surfaces r s h = record {
    queued = v.queued;
    unique = v.unique;
    marked = All-map _ _ surfaced (λ q m. ground (arith, kept q)) v.marked;
    exact = λ q below. (kept q).0 ∙ v.exact q below;
    known = λ id q e. ((v.known id q e).0, (kept q).1 ∙ (v.known id q e).1);
    distinct = v.distinct;
  }
    where
      kept : (q : ℕ) → Marks (o.cell q) (update o.cell r s q)
      kept = update-all (λ q x. Marks (o.cell q) x) o.cell r s h (λ q. (refl, refl))

  pub register-Surfaces : (k : ℕ) → Surfaces taken surfaced (register o k)
  unfolding register stream_new
  register-Surfaces k = record {
    queued = v.queued;
    unique = v.unique;
    marked = All-map _ _ surfaced (λ q m. ground arith) v.marked;
    exact = λ q below. elim (Bool-cases (o.next == q)) [
      | inl e ↦ rw e (sym (subst (λ x. mem x surfaced ≡ false) ((==_iff o.next q).0 e) absent))
      | inr e ↦ rw e (v.exact q (ground arith))
    ];
    known = λ id q h. ground (arith, aref-aset k id o.next o.streams, v.known id q, ==_iff k id);
    distinct = aset-Distinct k o.next o.streams v.distinct;
  }
    where
      absent : mem o.next surfaced ≡ false
      absent = not-mem o.next surfaced (All-map _ _ surfaced (λ q m. ground arith) v.marked)

  pub delete-Surfaces :
      (k : ℕ) → Surfaces taken surfaced (record o { streams = delete k o.streams })
  delete-Surfaces k = record {
    queued = v.queued;
    unique = v.unique;
    marked = v.marked;
    exact = v.exact;
    known = λ id q h. v.known id q (aref-delete k id q o.streams v.distinct h);
    distinct = delete-Distinct k o.streams v.distinct;
  }

  -- A stream that is not marked was never queued.
  unmarked-new : (r : ℕ) → (o.cell r).accept_queued ≡ false → All (λ q. q ≢ r) surfaced
  unmarked-new r h =
      All-map _ _ surfaced (λ q m. λ e. cc (m.1, h, ap (λ x. (o.cell x).accept_queued) e)) v.marked

  pub enqueue-Surfaces :
      (r : ℕ) (s : Stream)
      → (o.cell r).accept_queued ≡ false
      → s.accept_queued ≡ true
      → s.stream_id ≡ (o.cell r).stream_id
      → is_server (o.cell r).stream_id ≡ true
      → r < o.next
      → Surfaces taken
          (surfaced ++ r ∷ [])
          (record (store o r s) { accept_queue = o.accept_queue ++ r ∷ [] })
  enqueue-Surfaces r s unmarked mark id server below = record {
    queued = ap (λ x. x ++ r ∷ []) v.queued ∙ append_assoc taken o.accept_queue (r ∷ []);
    unique = Unique-snoc surfaced r v.unique (unmarked-new r unmarked);
    marked =
        All-snoc _ surfaced r
          (All-map _ _ surfaced (λ q m. ground (arith, marks q, same_id q)) v.marked)
          (below, rw ((==_iff r r).1 refl) mark, rw ((==_iff r r).1 refl, id) server);
    exact = λ q within. elim (Bool-cases (r == q)) [
      | inl e ↦ rw (mem-snoc q surfaced r, e) (mark ∙ ground arith)
      | inr e ↦ rw (mem-snoc q surfaced r, e) (v.exact q within ∙ ground arith)
    ];
    known = λ k q e. ((v.known k q e).0, same_id q ∙ (v.known k q e).1);
    distinct = v.distinct;
  }
    where
      marks : (q : ℕ) → (o.cell q).accept_queued ≡ true → (update o.cell r s q).accept_queued ≡ true
      marks =
          update-all (λ q x. (o.cell q).accept_queued ≡ true → x.accept_queued ≡ true) o.cell r s
            (λ h. mark) (λ q h. h)

      same_id : (q : ℕ) → (update o.cell r s q).stream_id ≡ (o.cell q).stream_id
      same_id = update-all (λ q x. x.stream_id ≡ (o.cell q).stream_id) o.cell r s id (λ q. refl)
