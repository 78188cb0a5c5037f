-- ===== src/Tests/Opening.antt =====
-- Opening a client with concrete libraries.
use quic_ruby.Base.{ℕ, pos, ◌≡◌, ◌↔◌, refl, false, none, some, [], ◌∷◌}
use quic_ruby.Ruby.{symbol, integer, string, other_encoding, ok}
use quic_ruby.Stream.{stream_alloc}
use quic_ruby.Client.Packets.{require_binary}
use quic_ruby.Client.Alpn.{alpn_total, alpn_wire, entry_bytes}
use quic_ruby.Client.Config.{check_array, fill_settings, fill_transport_params, cc_algo_from_sym}
use quic_ruby.Client.Setup.{Setup, Libraries, before_open, ◌>>=◌, ◌>>◌, resume, lift, require}
use quic_ruby.Client.Open.{
  open_client, fresh_client, check_open, init_crypto, build, new_ssl_ctx, new_ssl, set_host_name,
  set_alpn, set_entries, set_alpn_protos, draw_cid, new_conn, c_string, zeroed,
}
use quic_ruby.Client.Open.Succeeds.{Succeeds, connection, ready}
use quic_ruby.Client.Open.Returns.{open_client-Succeeds}
use quic_ruby.Client.New.{Resolver, NewKwargs, NewClient, new_client}
use quic_ruby.Tests.Peer.{numeric}
use quic_ruby.Tests.Calls.{libraries, keywords}

-- Libraries in which every call succeeds; the connection is 5.
abbrev pub willing : Libraries ℕ
willing = record libraries { conn_client_new = λ dcid scid path settings params. (pos 0, 5) }

abbrev opened_state : Setup
opened_state = (open_client willing numeric (some keywords) 7 (before_open false)).1

open_client-Succeeds_example :
    (open_client willing numeric (some keywords) 7 (before_open false)
      ≡ (ok (fresh_client 5), opened_state))
    ↔ ((s : Succeeds willing numeric (some keywords) 7 false) × (fresh_client 5
          ≡ fresh_client (connection willing numeric (some keywords) 7 false s))
        × (opened_state ≡ ready willing numeric (some keywords) 7 false s))
open_client-Succeeds_example =
    open_client-Succeeds willing numeric (some keywords) 7 false (fresh_client 5) opened_state

returns_a_client :
    open_client willing numeric (some keywords) 7 (before_open false)
    ≡ (ok (fresh_client 5), opened_state)
unfolding open_client ◌>>=◌ resume lift check_open ◌>>◌ init_crypto build new_ssl_ctx require
    new_ssl set_host_name set_alpn set_entries check_array alpn_total set_alpn_protos draw_cid
    fill_settings alpn_wire entry_bytes cc_algo_from_sym fill_transport_params c_string fresh_client
    new_conn zeroed require_binary stream_alloc
returns_a_client = refl

-- Addresses that are numbers: 6 for an IPv6 lookup, 4 for any other.
abbrev resolver : Resolver ℕ
resolver = record {
  getaddrinfo = λ host port family. ok (6 ∷ 4 ∷ []);
  udp = λ host port. ok 4;
  to_sockaddr = λ address. address ∷ [];
}

abbrev new_keywords : NewKwargs
new_keywords = record {
  host = string other_encoding (104 ∷ 105 ∷ []);
  port = integer (pos 443);
  address_family = symbol "inet6";
  transport_params = none;
  settings = none;
}

abbrev new_answer : Setup
new_answer = (new_client resolver willing numeric new_keywords 7 (before_open false)).1

abbrev made : NewClient ℕ ℕ
made = record {
  client = fresh_client 5;
  host = new_keywords.host;
  port = new_keywords.port;
  remote_address = 6;
}
