-- ===== src/Client/Open/Balance.antt =====
-- What quic_client_open holds on every way out.
use quic_ruby.Client.Alpn.{alpn_total}
use quic_ruby.Base.{
  suc, ◌==◌, ℕ, ℤ, ◌≡◌, refl, Bool, true, false, Option, List, [], ◌∷◌, arith, length,
}
use quic_ruby.Ruby.{Value, Exception, Result, ok, raise, Numeric}
use quic_ruby.Ngtcp2.{SocketPath}
use quic_ruby.Client.Config.{
  ArrayValue, check_array, NativeSettings, TransportParams, fill_settings, fill_transport_params,
}
use quic_ruby.Client.Rand.{Cid}
use quic_ruby.Client.Setup.{
  Handle, conn_handle, ssl_handle, ssl_ctx_handle, Setup, OpenKwargs, OpenArgs, Libraries,
  quic_client_free, M, ◌>>=◌, ◌>>◌, resume, lift, require, before_open,
}
use quic_ruby.Client.Open.{
  new_ssl_ctx, new_ssl, set_host_name, set_alpn_protos, set_entries, set_alpn, draw_cid, new_conn,
  build, init_crypto, check_open, open_client, fresh_client,
}

-- The pointers that are set, and the objects acquired so far, newest first.
abbrev pub Holds : Bool → Bool → Bool → List Handle → Setup → Type 0
Holds conn ssl ssl_ctx handles st =
    (st.conn ≡ conn) × (st.ssl ≡ ssl) × (st.ssl_ctx ≡ ssl_ctx) × (st.acquired ≡ handles)

-- quic_client_free releases exactly what was acquired, the newest first.
abbrev pub IsBalanced : Setup → Type 0
IsBalanced st = quic_client_free st ≡ st.acquired

-- How a step ends: in `Q`, or with an exception and nothing lost.
abbrev pub Ends {ℓ} : {A : Type ℓ} → (Setup → Type 0) → Result A × Setup → Type 0
Ends Q (ok a, st) = Q st
Ends Q (raise e, st) = IsBalanced st

-- A step that starts in `P` ends in `Q`.
record Triple {ℓ} {A : Type ℓ} (P Q : Setup → Type 0) (m : M A) : Type ℓ where
  apply : (st : Setup) → P st → Ends Q (m st)

resume-Ends {ℓ κ} :
    {A : Type ℓ} {B : Type κ} (Q R : Setup → Type 0) (f : A → M B) (out : Result A × Setup)
    → Ends Q out
    → ((a : A) → Triple Q R (f a))
    → Ends R (resume f out)
unfolding resume
resume-Ends Q R f (ok a, st) h k = (k a).apply st h
resume-Ends Q R f (raise e, st) h k = h

bind-Triple {ℓ κ} :
    {A : Type ℓ} {B : Type κ} {P Q R : Setup → Type 0} {m : M A} {f : A → M B}
    → Triple P Q m
    → ((a : A) → Triple Q R (f a))
    → Triple P R (m >>= f)
unfolding ◌>>=◌
bind-Triple {Q} {R} {m} {f} h k = record {
  apply = λ st p. resume-Ends Q R f (m st) (h.apply st p) k;
}

then-Triple {κ} :
    {B : Type κ} {P Q R : Setup → Type 0} {m : M (Unit {0})} {k : M B}
    → Triple P Q m
    → Triple Q R k
    → Triple P R (m >> k)
unfolding ◌>>◌
then-Triple h k = bind-Triple h (λ _. k)

abbrev None : Setup → Type 0
None = Holds false false false []

abbrev Context : Setup → Type 0
Context = Holds false false true (ssl_ctx_handle ∷ [])

abbrev Session : Setup → Type 0
Session = Holds false true true (ssl_handle ∷ ssl_ctx_handle ∷ [])

abbrev pub Everything : Setup → Type 0
Everything = Holds true true true (conn_handle ∷ ssl_handle ∷ ssl_ctx_handle ∷ [])

None-IsBalanced : (st : Setup) → None st → IsBalanced st
unfolding quic_client_free
None-IsBalanced st h = ground arith

Context-IsBalanced : (st : Setup) → Context st → IsBalanced st
unfolding quic_client_free
Context-IsBalanced st h = ground arith

Session-IsBalanced : (st : Setup) → Session st → IsBalanced st
unfolding quic_client_free
Session-IsBalanced st h = ground arith

Everything-IsBalanced : (st : Setup) → Everything st → IsBalanced st
unfolding quic_client_free
Everything-IsBalanced st h = ground arith

-- A step that changes nothing, from a state that is balanced.
module _ {Q : Setup → Type 0} (balanced : (st : Setup) → Q st → IsBalanced st) where
  lift-Triple {ℓ} : {A : Type ℓ} (r : Result A) → Triple Q Q (lift r)
  unfolding lift
  lift-Triple (ok a) = record { apply = λ st q. q }
  lift-Triple (raise e) = record { apply = λ st q. balanced st q }

  require-Triple : (t : Bool) (e : Exception) → Triple Q Q (require t e)
  unfolding require
  require-Triple true e = record { apply = λ st q. q }
  require-Triple false e = record { apply = λ st q. balanced st q }

pub suc-ne-zero : (k : ℕ) → (suc k == 0) ≡ false
suc-ne-zero k = ground arith

module _ {Conn : Type 0} (lib : Libraries Conn) where
  new_ssl_ctx-Triple : Triple None Context (new_ssl_ctx lib)
  unfolding new_ssl_ctx
  new_ssl_ctx-Triple = record { apply = λ st h. ground (arith, None-IsBalanced st h) }

  new_ssl-Triple : Triple Context Session (new_ssl lib)
  unfolding new_ssl
  new_ssl-Triple = record { apply = λ st h. ground (arith, Context-IsBalanced st h) }

  new_conn-Triple :
      (dcid scid : Cid) (path : SocketPath) (settings : NativeSettings) (params : TransportParams ℕ)
      → Triple Session Everything (new_conn lib dcid scid path settings params)
  unfolding new_conn
  new_conn-Triple dcid scid path settings params = record {
    apply = λ st h. ground (arith, Session-IsBalanced st h);
  }

  init_crypto-Triple : Triple None None (init_crypto lib)
  unfolding init_crypto
  init_crypto-Triple = record { apply = λ st h. ground (arith, None-IsBalanced st h) }

  set_host_name-Triple : (name : List ℕ) → Triple Session Session (set_host_name lib name)
  unfolding set_host_name
  set_host_name-Triple name = record { apply = λ st h. h }

  set_alpn_protos-Triple :
      (wire : List ℕ) (len : ℕ) → Triple Session Session (set_alpn_protos lib wire len)
  unfolding set_alpn_protos
  set_alpn_protos-Triple wire len = record {
    apply = λ st h. ground (arith, Session-IsBalanced st h);
  }

  draw_cid-Triple : (drawn : ℤ × List ℕ) → Triple Session Session (draw_cid lib drawn)
  unfolding draw_cid
  draw_cid-Triple drawn = record { apply = λ st h. ground (arith, Session-IsBalanced st h) }

  set_entries-Triple : (entries : List Value) → Triple Session Session (set_entries lib entries)
  unfolding set_entries
  set_entries-Triple [] = lift-Triple Session-IsBalanced (ok tt)
  set_entries-Triple (e ∷ es) = rw (suc-ne-zero (length es)) (
      bind-Triple (lift-Triple Session-IsBalanced (alpn_total 0 (e ∷ es)))
        (λ total. set_alpn_protos-Triple _ _))

  set_alpn-Triple : (alpn : ArrayValue) → Triple Session Session (set_alpn lib alpn)
  unfolding set_alpn
  set_alpn-Triple alpn =
      bind-Triple (lift-Triple Session-IsBalanced (check_array alpn))
        λ entries. set_entries-Triple entries

  build-Triple :
      (num : Numeric) (args : OpenArgs) (now : ℕ) → Triple None Everything (build lib num args now)
  unfolding build
  build-Triple num args now = then-Triple new_ssl_ctx-Triple (
      then-Triple (require-Triple Context-IsBalanced _ _) (
        then-Triple new_ssl-Triple (
          then-Triple (set_host_name-Triple args.server_name) (
            then-Triple (set_alpn-Triple args.settings.alpn) (
              bind-Triple (draw_cid-Triple lib.rand_bytes_scid) λ scid.
                bind-Triple (draw_cid-Triple lib.rand_bytes_dcid) λ dcid.
                  bind-Triple (lift-Triple Session-IsBalanced (fill_settings num args.settings now))
                    λ settings.
                      bind-Triple
                        (lift-Triple Session-IsBalanced
                          (fill_transport_params num args.transport_params))
                        λ params. new_conn-Triple dcid scid args.path settings params)))))

  open_client-Triple :
      (num : Numeric) (k : Option OpenKwargs) (now : ℕ)
      → Triple None Everything (open_client lib num k now)
  unfolding open_client
  open_client-Triple num k now = bind-Triple (lift-Triple None-IsBalanced (check_open k)) λ args.
      then-Triple init_crypto-Triple (
        bind-Triple (build-Triple num args now)
          λ conn. lift-Triple Everything-IsBalanced (ok (fresh_client conn)))

  -- A client that is returned holds its context, its session and its connection; a call that
  -- raises leaves pointers from which quic_client_free releases exactly what was acquired, newest
  -- first.
  pub open_client-Ends :
      (num : Numeric) (k : Option OpenKwargs) (now : ℕ) (b : Bool)
      → Ends Everything (open_client lib num k now (before_open b))
  open_client-Ends num k now b =
      (open_client-Triple num k now).apply (before_open b) (refl, refl, refl, refl)
