-- ===== src/Client/Rand.antt =====
-- The two callbacks of ext/quic/connection_client.c that draw random bytes for ngtcp2: quic_rand_cb
-- and quic_get_new_connection_id_cb. RAND_bytes of LibreSSL and the constants of ngtcp2 are parameters.
pub mod Fresh
use quic_ruby.Base.{
  ℕ, ℤ, pos, negsuc, ◌-◌, ◌%◌, ◌^◌, List, ◌++◌, length, drop, ltb, not, int_eq, if◌then◌else◌,
}

-- `Source` is the state of the generator. RAND_bytes returns its next state, the result, and the bytes
-- that it has written to the front of the buffer.
pub record Random (Source : Type 0) : Type 0 where
  pub rand_bytes : Source → ℤ → Source × ℤ × List ℕ
  pub callback_failure : ℤ
  pub stateless_reset_tokenlen : ℕ

-- `ngtcp2_cid`
pub record Cid : Type 0 where
  pub datalen : ℕ
  pub bytes : List ℕ

-- `(int)` of a size_t, for an int of 32 bits.
abbrev pub to_int : ℕ → ℤ
to_int k = let m = k % 2 ^ 32 in if ltb m (2 ^ 31) then pos m else negsuc (2 ^ 32 - 1 - m)

-- A buffer of which the front is written.
abbrev pub overwrite : List ℕ → List ℕ → List ℕ
overwrite dest bytes = bytes ++ drop (length bytes) dest

pub record NewId (Source : Type 0) : Type 0 where
  pub result : ℤ
  pub source : Source
  pub cid : Cid
  pub token : List ℕ

module _ {Source : Type 0} (lib : Random Source) where
  -- quic_rand_cb: the result of RAND_bytes is not looked at.
  unfoldable pub rand_cb : Source → List ℕ → ℕ → Source × List ℕ
  rand_cb source dest destlen =
      let (source', rv, bytes) = lib.rand_bytes source (to_int destlen) in
      (source', overwrite dest bytes)

  -- quic_get_new_connection_id_cb
  unfoldable pub get_new_connection_id_cb : Source → Cid → List ℕ → ℕ → NewId Source
  get_new_connection_id_cb source cid token cidlen =
      let (after_id, id_rv, id_bytes) = lib.rand_bytes source (to_int cidlen) in
      let drawn : Cid = record cid { bytes = overwrite cid.bytes id_bytes } in
      let (after_token, token_rv, token_bytes) =
        lib.rand_bytes after_id (pos lib.stateless_reset_tokenlen) in
      if not (int_eq id_rv (pos 1))
      then record { result = lib.callback_failure; source = after_id; cid = drawn; token = token }
      else if not (int_eq token_rv (pos 1))
      then record {
        result = lib.callback_failure;
        source = after_token;
        cid = record drawn { datalen = cidlen };
        token = overwrite token token_bytes;
      }
      else record {
        result = pos 0;
        source = after_token;
        cid = record drawn { datalen = cidlen };
        token = overwrite token token_bytes;
      }
