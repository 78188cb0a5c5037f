-- ===== src/Tests/Ids.antt =====
-- A new connection id at concrete inputs.
use quic_ruby.Base.{ℕ, ℤ, zero, suc, pos, negsuc, ◌≡◌, refl, ap, List, [], ◌∷◌, arith, length}
use quic_ruby.Client.Rand.{Random, Cid, get_new_connection_id_cb}
use quic_ruby.Client.Rand.Fresh.{IsDocumented, IsFresh, get_new_connection_id_cb-IsFresh}

abbrev counted : ℕ → ℕ → List ℕ
counted s zero = []
counted s (suc k) = s ∷ counted s k

length-counted : (s k : ℕ) → length (counted s k) ≡ k
length-counted s zero = refl
length-counted s (suc k) = ap suc (length-counted s k)

-- A generator that counts its calls.
abbrev draw : ℕ → ℤ → ℕ × ℤ × List ℕ
draw s (pos k) = (suc s, pos 1, counted s k)
draw s (negsuc k) = (s, pos 0, [])

abbrev counter : Random ℕ
counter = record { rand_bytes = draw; callback_failure = negsuc 501; stateless_reset_tokenlen = 16 }

counter-IsDocumented : IsDocumented counter
counter-IsDocumented = record {
  bounded = λ s k. omega (arith, length-counted s k);
  fills = λ s k e. length-counted s k;
  fails = refl;
}

abbrev empty_cid : Cid
empty_cid = record { datalen = 0; bytes = counted 0 20 }

get_new_connection_id_cb-IsFresh_example :
    IsFresh counter counter-IsDocumented 7 empty_cid
      (counted 0 16)
      8
      (get_new_connection_id_cb counter 7 empty_cid (counted 0 16) 8)
get_new_connection_id_cb-IsFresh_example =
    get_new_connection_id_cb-IsFresh counter counter-IsDocumented 7 empty_cid (counted 0 16) 8
      (omega arith)
