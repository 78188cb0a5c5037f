-- ===== src/Client/Open/Steps.antt =====
-- What a step of quic_client_open of ext/quic/connection_client.c asks of the libraries, and leaves.
use quic_ruby.Base.{
  ℕ, ℤ, pos, ◌≡◌, refl, sym, ap, ◌∙◌, Bool, true, false, none, some, List, [], ◌∷◌, ◌||◌, arith,
  length, int_eq, is_zero, ◌==◌, ◌%◌, ◌^◌, if◌then◌else◌,
}
use quic_ruby.Ruby.{Value, Exception, ok}
use quic_ruby.Ngtcp2.{SocketPath}
use quic_ruby.Client.Alpn.{alpn_total, alpn_wire}
use quic_ruby.Client.Config.{ArrayValue, check_array, NativeSettings, TransportParams}
use quic_ruby.Client.Rand.{Cid, overwrite}
use quic_ruby.Client.Setup.{Setup, Libraries, ◌>>=◌, lift, require, before_open, conn_handle}
use quic_ruby.Client.Open.Balance.{suc-ne-zero}
use quic_ruby.Client.Open.Sequence.{bind-inv, lift-inv, bind-goes, lift-goes}
use quic_ruby.Client.Open.{
  new_ssl_ctx, new_ssl, set_alpn_protos, set_entries, set_alpn, draw_cid, new_conn, init_crypto,
  zeroed,
}

module _ {Conn : Type 0} (lib : Libraries Conn) where
  -- An id of 8 bytes: those drawn, in the zeroed array.
  abbrev pub id_of : ℤ × List ℕ → Cid
  id_of drawn = record { datalen = 8; bytes = overwrite (zeroed lib.max_cidlen) drawn.1 }

  -- What each step has asked of the libraries, where it goes on.
  pub init_crypto-inv :
      (b : Bool) (end : Setup)
      → init_crypto lib (before_open b) ≡ (ok tt, end)
      → (b || is_zero lib.crypto_quictls_init) ≡ true
  unfolding init_crypto
  init_crypto-inv b end e = ground arith

  pub new_ssl_ctx-inv :
      (st end : Setup) → new_ssl_ctx lib st ≡ (ok tt, end) → lib.ssl_ctx_new ≡ true
  unfolding new_ssl_ctx
  new_ssl_ctx-inv st end e = ground arith

  pub new_ssl-inv : (st end : Setup) → new_ssl lib st ≡ (ok tt, end) → lib.ssl_new ≡ true
  unfolding new_ssl
  new_ssl-inv st end e = ground arith

  set_alpn_protos-inv :
      (wire : List ℕ) (len : ℕ) (st end : Setup)
      → set_alpn_protos lib wire len st ≡ (ok tt, end)
      → is_zero (lib.set_alpn_protos wire len) ≡ true
  unfolding set_alpn_protos
  set_alpn_protos-inv wire len st end e = ground arith

  pub draw_cid-inv :
      (drawn : ℤ × List ℕ) (st end : Setup) (cid : Cid)
      → draw_cid lib drawn st ≡ (ok cid, end)
      → (int_eq drawn.0 (pos 1) ≡ true) × (cid ≡ id_of drawn)
  unfolding draw_cid
  draw_cid-inv drawn st end cid e = ground arith

  pub new_conn-inv :
      (dcid scid : Cid) (path : SocketPath) (settings : NativeSettings) (params : TransportParams ℕ)
      (st end : Setup) (conn : Conn)
      → new_conn lib dcid scid path settings params st ≡ (ok conn, end)
      → (is_zero (lib.conn_client_new dcid scid path settings params).0 ≡ true)
        × (conn ≡ (lib.conn_client_new dcid scid path settings params).1)
  unfolding new_conn
  new_conn-inv dcid scid path settings params st end conn e = ground arith

  set_entries-more :
      (x : Value) (rest : List Value) (st : Setup)
      → set_entries lib (x ∷ rest) st
        ≡ (lift (alpn_total 0 (x ∷ rest)) >>= λ len.
              set_alpn_protos lib (alpn_wire (x ∷ rest)) (len % 2 ^ 32))
            st
  unfolding set_entries
  set_entries-more x rest st = rw (suc-ne-zero (length rest)) refl

  pub set_entries-inv :
      (entries : List Value) (st end : Setup)
      → set_entries lib entries st ≡ (ok tt, end)
      → (len : ℕ) × (alpn_total 0 entries ≡ ok len)
        × ((length entries == 0) ≡ false
            → is_zero (lib.set_alpn_protos (alpn_wire entries) (len % 2 ^ 32)) ≡ true)
  unfolding alpn_total
  set_entries-inv [] st end e = (0, refl, λ h. absurd (cc h))
  set_entries-inv (x ∷ rest) st end e =
      let (len, mid, total, more) =
        bind-inv (lift (alpn_total 0 (x ∷ rest)))
          (λ len. set_alpn_protos lib (alpn_wire (x ∷ rest)) (len % 2 ^ 32))
          (sym (set_entries-more x rest st) ∙ e) in
      (len, (lift-inv _ total).0, λ h. set_alpn_protos-inv _ _ mid end more)

  -- What each step leaves, where the libraries succeed.
  pub set_alpn-inv :
      (alpn : ArrayValue) (st end : Setup)
      → set_alpn lib alpn st ≡ (ok tt, end)
      → (entries : List Value) × (check_array alpn ≡ ok entries)
        × (set_entries lib entries st ≡ (ok tt, end))
  unfolding set_alpn
  set_alpn-inv alpn st end e =
      let (entries, mid, checked, more) = bind-inv (lift (check_array alpn)) (set_entries lib) e in
      let (found, kept) = lift-inv (check_array alpn) checked in
      (entries, found, ap (set_entries lib entries) kept ∙ more)

  set_alpn_protos-goes :
      (wire : List ℕ) (len : ℕ) (st : Setup)
      → is_zero (lib.set_alpn_protos wire len) ≡ true
      → set_alpn_protos lib wire len st
        ≡ (ok tt, record st { tls = record st.tls { alpn_protos = some (wire, len) } })
  unfolding set_alpn_protos
  set_alpn_protos-goes wire len st e = rw (set_alpn_protos, e) refl

  pub draw_cid-goes :
      (drawn : ℤ × List ℕ) (st : Setup)
      → int_eq drawn.0 (pos 1) ≡ true
      → draw_cid lib drawn st ≡ (ok (id_of drawn), st)
  unfolding draw_cid
  draw_cid-goes drawn st e = rw (draw_cid, e) refl

  pub new_conn-goes :
      (dcid scid : Cid) (path : SocketPath) (settings : NativeSettings) (params : TransportParams ℕ)
      (st : Setup)
      → is_zero (lib.conn_client_new dcid scid path settings params).0 ≡ true
      → new_conn lib dcid scid path settings params st ≡ (
        ok (lib.conn_client_new dcid scid path settings params).1,
        record st { conn = true; acquired = conn_handle ∷ st.acquired },
      )
  unfolding new_conn
  new_conn-goes dcid scid path settings params st e = rw (new_conn, e) refl

  pub require-goes :
      (t : Bool) (x : Exception) (st : Setup) → t ≡ true → require t x st ≡ (ok tt, st)
  unfolding require
  require-goes t x st e = rw e refl

  pub set_entries-goes :
      (entries : List Value) (st : Setup) (len : ℕ)
      → alpn_total 0 entries ≡ ok len
      → ((length entries == 0) ≡ false
          → is_zero (lib.set_alpn_protos (alpn_wire entries) (len % 2 ^ 32)) ≡ true)
      → st.tls.alpn_protos ≡ none
      → set_entries lib entries st ≡ (
        ok tt,
        record st {
          tls = record st.tls {
            alpn_protos =
                if length entries == 0 then none else some (alpn_wire entries, len % 2 ^ 32);
          };
        },
      )
  unfolding set_entries
  set_entries-goes [] st len total set fresh = unfold lift in ground arith
  set_entries-goes (x ∷ rest) st len total set fresh = rw (suc-ne-zero (length rest)) (
      bind-goes _ _ (lift-goes total)
        (set_alpn_protos-goes _ _ st (set (suc-ne-zero (length rest)))))

  pub set_alpn-goes :
      (alpn : ArrayValue) (entries : List Value) (st end : Setup)
      → check_array alpn ≡ ok entries
      → set_entries lib entries st ≡ (ok tt, end)
      → set_alpn lib alpn st ≡ (ok tt, end)
  unfolding set_alpn
  set_alpn-goes alpn entries st end checked e = bind-goes _ _ (lift-goes checked) e

  pub init_crypto-goes :
      (i : Bool)
      → (i || is_zero lib.crypto_quictls_init) ≡ true
      → init_crypto lib (before_open i) ≡ (ok tt, before_open true)
  unfolding init_crypto
  init_crypto-goes true e = refl
  init_crypto-goes false e = rw e refl
