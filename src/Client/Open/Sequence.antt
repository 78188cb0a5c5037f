-- ===== src/Client/Open/Sequence.antt =====
-- Steps of quic_client_open of ext/quic/connection_client.c, one after the other.
use quic_ruby.Base.{◌≡◌, refl}
use quic_ruby.Ruby.{Result, ok, raise}
use quic_ruby.Client.Setup.{Setup, M, ◌>>=◌, ◌>>◌, resume, lift}

-- A step that goes on, and what it leaves.
resume-inv {ℓ κ} :
    {A : Type ℓ} {B : Type κ} (f : A → M B) (out : Result A × Setup) (b : B) (end : Setup)
    → resume f out ≡ (ok b, end)
    → (a : A) × (st : Setup) × (out ≡ (ok a, st)) × (f a st ≡ (ok b, end))
unfolding resume
resume-inv f (ok a, st) b end e = (a, st, refl, e)
resume-inv f (raise x, st) b end e = cc

pub bind-inv {ℓ κ} :
    {A : Type ℓ} {B : Type κ} (m : M A) (f : A → M B) {st end : Setup} {b : B}
    → (m >>= f) st ≡ (ok b, end)
    → (a : A) × (mid : Setup) × (m st ≡ (ok a, mid)) × (f a mid ≡ (ok b, end))
unfolding ◌>>=◌
bind-inv m f {st} {end} {b} e = resume-inv f (m st) b end e

pub then-inv {κ} :
    {B : Type κ} (m : M (Unit {0})) (k : M B) {st end : Setup} {b : B}
    → (m >> k) st ≡ (ok b, end)
    → (mid : Setup) × (m st ≡ (ok tt, mid)) × (k mid ≡ (ok b, end))
unfolding ◌>>◌
then-inv m k e = let (u, mid, first, rest) = bind-inv m (λ _. k) e in (mid, first, rest)

pub lift-inv {ℓ} :
    {A : Type ℓ} (r : Result A) {st end : Setup} {a : A}
    → lift r st ≡ (ok a, end)
    → (r ≡ ok a) × (st ≡ end)
unfolding lift
lift-inv r e = (cc, cc)

pub bind-goes {ℓ κ} :
    {A : Type ℓ} {B : Type κ} (m : M A) (f : A → M B) {st mid : Setup} {a : A}
    {out : Result B × Setup}
    → m st ≡ (ok a, mid)
    → f a mid ≡ out
    → (m >>= f) st ≡ out
unfolding ◌>>=◌ resume
bind-goes m f first rest = rw first rest

pub then-goes {κ} :
    {B : Type κ} (m : M (Unit {0})) (k : M B) {st mid : Setup} {out : Result B × Setup}
    → m st ≡ (ok tt, mid)
    → k mid ≡ out
    → (m >> k) st ≡ out
unfolding ◌>>◌
then-goes m k first rest = bind-goes m (λ _. k) first rest

pub lift-goes {ℓ} :
    {A : Type ℓ} {r : Result A} {a : A} {st : Setup} → r ≡ ok a → lift r st ≡ (ok a, st)
unfolding lift
lift-goes e = rw e refl
