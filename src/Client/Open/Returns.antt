-- ===== src/Client/Open/Returns.antt =====
-- When quic_client_open of ext/quic/connection_client.c returns a client, and which.
use quic_ruby.Base.{ℕ, ◌≡◌, ◌↔◌, refl, sym, ap, ◌∙◌, Bool, true, Option, [], ◌∷◌}
use quic_ruby.Ruby.{ok, Numeric}
use quic_ruby.Client.State.{Client}
use quic_ruby.Client.Setup.{Setup, OpenKwargs, Libraries, before_open, ssl_handle, ssl_ctx_handle}
use quic_ruby.Client.Open.Sequence.{bind-inv, then-inv, lift-inv, bind-goes, then-goes, lift-goes}
use quic_ruby.Client.Open.Steps.{
  init_crypto-inv, draw_cid-goes, new_conn-goes, require-goes, set_alpn-goes, set_entries-goes,
  init_crypto-goes,
}
use quic_ruby.Client.Open.{
  new_ssl_ctx, new_ssl, set_host_name, build, init_crypto, open_client, fresh_client,
}
use quic_ruby.Client.Open.Succeeds.{Succeeds, connection, ready, build-Succeeds}

module _ {Conn : Type 0} (lib : Libraries Conn) where
  module _ (num : Numeric) (k : Option OpenKwargs) (now : ℕ) (b : Bool) where
    build-goes :
        (s : Succeeds lib num k now b)
        → build lib num s.args now (before_open true)
          ≡ (ok (connection lib num k now b s), ready lib num k now b s)
    unfolding build new_ssl_ctx new_ssl set_host_name
    build-goes s = then-goes _ _ context_made (
        then-goes _ _ (require-goes lib _ _ _ s.configured) (
          then-goes _ _ session_made (
            then-goes _ _ refl (
              then-goes _ _
                (set_alpn-goes lib s.args.settings.alpn s.alpn_entries _ _ s.alpn_array
                  (set_entries-goes lib s.alpn_entries _ s.alpn_len s.alpn_valid s.alpn_set refl))
                (bind-goes _ _ (draw_cid-goes lib lib.rand_bytes_scid _ s.scid_drawn) (
                  bind-goes _ _ (draw_cid-goes lib lib.rand_bytes_dcid _ s.dcid_drawn) (
                    bind-goes _ _ (lift-goes s.settings_filled) (
                      bind-goes _ _ (lift-goes s.params_filled) (
                        new_conn-goes lib _ _ s.args.path s.settings s.params _ s.connected)))))))))
      where
        context_made :
            new_ssl_ctx lib (before_open true)
            ≡ (ok tt, record (before_open true) { ssl_ctx = true; acquired = ssl_ctx_handle ∷ [] })
        context_made = rw (new_ssl_ctx, s.context) refl

        session_made :
            new_ssl lib
              (record (before_open true) { ssl_ctx = true; acquired = ssl_ctx_handle ∷ [] })
            ≡ (
              ok tt,
              record (before_open true) {
                ssl = true;
                ssl_ctx = true;
                acquired = ssl_handle ∷ ssl_ctx_handle ∷ [];
              },
            )
        session_made = rw (new_ssl, s.session) refl

    open_client-goes :
        (s : Succeeds lib num k now b)
        → open_client lib num k now (before_open b)
          ≡ (ok (fresh_client (connection lib num k now b s)), ready lib num k now b s)
    unfolding open_client
    open_client-goes s = bind-goes _ _ (lift-goes s.checked) (
        then-goes _ _ (init_crypto-goes lib b s.crypto)
          (bind-goes _ _ (build-goes s) (lift-goes refl)))

    open_client-inv :
        (c : Client Conn) (end : Setup)
        → open_client lib num k now (before_open b) ≡ (ok c, end)
        → Succeeds lib num k now b
    unfolding open_client
    open_client-inv c end e =
        let (args, st1, checked, e1) = bind-inv _ _ e in
        let (st2, crypto, e2) = then-inv _ _ e1 in
        let (conn, st3, built, e3) = bind-inv _ _ e2 in
        let (at_start, start) = lift-inv _ checked in
        (build-Succeeds lib num k now b args st2 st3 conn at_start
          (init_crypto-inv lib b st2 (ap (init_crypto lib) start ∙ crypto)) built).0

    -- quic_client_open returns a client exactly where its keywords pass their checks, each call of a
    -- library succeeds, both ids are drawn, and the fields of the two Data objects convert; the
    -- client then has the connection that ngtcp2 made of the two ids of 8 bytes, the two addresses,
    -- and the converted settings and parameters, its three pointers are set, and the TLS session was
    -- told the server name up to its first NUL, and the wire format of ALPN where there is an entry.
    pub open_client-Succeeds :
        (c : Client Conn) (end : Setup)
        → (open_client lib num k now (before_open b) ≡ (ok c, end)) ↔ (
            (s : Succeeds lib num k now b) × (c ≡ fresh_client (connection lib num k now b s))
            × (end ≡ ready lib num k now b s))
    open_client-Succeeds c end = (
      λ e.
          let s = open_client-inv c end e in
          let same = sym e ∙ open_client-goes s in (s, cc same, cc same),
      λ (s : (s : Succeeds lib num k now b) × (c ≡ fresh_client (connection lib num k now b s))
            × (end ≡ ready lib num k now b s)).
          let (t, client, left) = s in rw (client, left) (open_client-goes t),
    )
