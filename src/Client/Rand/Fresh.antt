-- ===== src/Client/Rand/Fresh.antt =====
-- What quic_get_new_connection_id_cb and quic_rand_cb (ext/quic/connection_client.c) hand to ngtcp2.
use quic_ruby.Base.{
  ℕ, ℤ, pos, ◌≤◌, ◌<◌, ◌≡◌, ◌≢◌, ◌⊎◌, ap, ◌↔◌, refl, sym, ◌∙◌, ◌^◌, true, List, arith, inl, inr,
  int_eq, is_negative, Bool-cases, length, take, drop, take-append_le, take-all, length-append,
  length-drop,
}
use quic_ruby.Client.Rand.{Random, Cid, NewId, to_int, overwrite, get_new_connection_id_cb}

-- What LibreSSL documents of RAND_bytes: it writes no more than it was asked for, and all of that
-- where it returns 1; and ngtcp2 of NGTCP2_ERR_CALLBACK_FAILURE: it is negative.
pub record IsDocumented {Source : Type 0} (lib : Random Source) : Type 0 where
  pub bounded : (s : Source) (k : ℕ) → length (lib.rand_bytes s (pos k)).2 ≤ k
  pub fills :
      (s : Source) (k : ℕ)
      → (lib.rand_bytes s (pos k)).1 ≡ pos 1
      → length (lib.rand_bytes s (pos k)).2 ≡ k
  pub fails : is_negative lib.callback_failure ≡ true

int_eq_iff : (a : ℤ) → (int_eq a (pos 1) ≡ true) ↔ (a ≡ pos 1)
int_eq_iff a = ground arith

to_int_small : (k : ℕ) → k < 2 ^ 31 → to_int k ≡ pos k
to_int_small k h = ground arith

length-overwrite :
    (dest bytes : List ℕ) → length bytes ≤ length dest → length (overwrite dest bytes) ≡ length dest
length-overwrite dest bytes h =
    omega (arith, length-append bytes (drop (length bytes) dest), length-drop (length bytes) dest)

take-overwrite : (dest bytes : List ℕ) → take (length bytes) (overwrite dest bytes) ≡ bytes
take-overwrite dest bytes =
    take-append_le (length bytes) bytes (drop (length bytes) dest) (omega arith)
    ∙ take-all (length bytes) bytes (omega arith)

module _ {Source : Type 0} (lib : Random Source) (doc : IsDocumented lib) (source : Source)
    (cid : Cid) (token : List ℕ) (cidlen : ℕ) where
  -- The two draws of a call.
  abbrev pub id_draw : Source × ℤ × List ℕ
  id_draw = lib.rand_bytes source (pos cidlen)

  abbrev pub token_draw : Source × ℤ × List ℕ
  token_draw = lib.rand_bytes id_draw.0 (pos lib.stateless_reset_tokenlen)

  -- An id and a token of fresh bytes where both draws succeed, and a failure otherwise.
  pub record IsFresh (out : NewId Source) : Type 0 where
    pub succeeds : (out.result ≡ pos 0) ↔ (id_draw.1 ≡ pos 1) × (token_draw.1 ≡ pos 1)
    pub fails : (out.result ≡ pos 0) ⊎ (out.result ≡ lib.callback_failure)
    pub fresh :
        out.result ≡ pos 0
        → (out.cid.datalen ≡ cidlen)
          × (take cidlen out.cid.bytes ≡ id_draw.2)
          × (take lib.stateless_reset_tokenlen out.token ≡ token_draw.2)
    pub id_within : cidlen ≤ length cid.bytes → length out.cid.bytes ≡ length cid.bytes
    pub token_within : lib.stateless_reset_tokenlen ≤ length token → length out.token ≡ length token

  not_zero : lib.callback_failure ≢ pos 0
  not_zero e = ground (arith, doc.fails)

  id_within_lem :
      cidlen ≤ length cid.bytes → length (overwrite cid.bytes id_draw.2) ≡ length cid.bytes
  id_within_lem h = length-overwrite cid.bytes id_draw.2 (omega (arith, doc.bounded source cidlen))

  token_within_lem :
      lib.stateless_reset_tokenlen ≤ length token
      → length (overwrite token token_draw.2) ≡ length token
  token_within_lem h =
      length-overwrite token token_draw.2
        (omega (arith, doc.bounded id_draw.0 lib.stateless_reset_tokenlen))

  filled :
      (dest : List ℕ) (s : Source) (k : ℕ)
      → (lib.rand_bytes s (pos k)).1 ≡ pos 1
      → take k (overwrite dest (lib.rand_bytes s (pos k)).2) ≡ (lib.rand_bytes s (pos k)).2
  filled dest s k e =
      ap (λ x. take x (overwrite dest (lib.rand_bytes s (pos k)).2)) (sym (doc.fills s k e))
      ∙ take-overwrite dest (lib.rand_bytes s (pos k)).2

  -- quic_get_new_connection_id_cb succeeds exactly where both draws do, and then gives ngtcp2 an id of
  -- the length asked for and a token, both of the bytes drawn; it fails with
  -- NGTCP2_ERR_CALLBACK_FAILURE otherwise, and never writes behind the end of a buffer that is long
  -- enough; that is for an id shorter than 2^31 bytes, and a RAND_bytes that does what is documented.
  pub get_new_connection_id_cb-IsFresh :
      cidlen < 2 ^ 31 → IsFresh (get_new_connection_id_cb lib source cid token cidlen)
  unfolding get_new_connection_id_cb
  get_new_connection_id_cb-IsFresh small = elim (Bool-cases (int_eq id_draw.1 (pos 1))) [
    | inr bad ↦
        simp (get_new_connection_id_cb, to_int_small cidlen small, bad)
          (record {
            succeeds = (λ e. absurd (not_zero e), λ e. ground (arith, int_eq_iff id_draw.1));
            fails = inr refl;
            fresh = λ e. absurd (not_zero e);
            id_within = id_within_lem;
            token_within = λ h. refl;
          })
    | inl good ↦ elim (Bool-cases (int_eq token_draw.1 (pos 1))) [
      | inr bad ↦
          simp (get_new_connection_id_cb, to_int_small cidlen small, good, bad)
            (record {
              succeeds = (λ e. absurd (not_zero e), λ e. ground (arith, int_eq_iff token_draw.1));
              fails = inr refl;
              fresh = λ e. absurd (not_zero e);
              id_within = id_within_lem;
              token_within = token_within_lem;
            })
      | inl good' ↦
          simp (get_new_connection_id_cb, to_int_small cidlen small, good, good')
            (record {
              succeeds = (
                λ e. ((int_eq_iff id_draw.1).0 good, (int_eq_iff token_draw.1).0 good'),
                λ e. refl,
              );
              fails = inl refl;
              fresh = λ e. (
                refl,
                filled cid.bytes source cidlen ((int_eq_iff id_draw.1).0 good),
                filled token id_draw.0 lib.stateless_reset_tokenlen
                    ((int_eq_iff token_draw.1).0 good'),
              );
              id_within = id_within_lem;
              token_within = token_within_lem;
            })
    ]
  ]
