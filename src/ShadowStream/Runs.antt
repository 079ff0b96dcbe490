-- ===== src/ShadowStream/Runs.antt =====
-- Package shadowstream at concrete inputs: a cipher that adds 1 to every byte behind an IV of two
-- bytes.
use go_shadowsocks.Prelude.{ℕ, ◌≡◌, refl, ◌+◌, ◌-◌, List, [], ◌∷◌, none, some, arith}
use go_shadowsocks.Errors.{eof, ok}
use go_shadowsocks.Io.{Source, chunk, closed}
use go_shadowsocks.ShadowStream.Cipher.{Cipher, fresh, xor_from}
use go_shadowsocks.ShadowStream.Cipher.Laws.{IsCipher}
use go_shadowsocks.ShadowStream.Stream.Copy.{faultless}
use go_shadowsocks.ShadowStream.Packet.{write_packet, read_packet}
use go_shadowsocks.ShadowStream.Packet.RoundTrip.{stream_packet_round_trip}
use go_shadowsocks.ShadowStream.Conn.{WriteSide, opened_out}
use go_shadowsocks.ShadowStream.Conn.RoundTrip.{Sent}

abbrev plus_one : List ℕ → ℕ → ℕ
plus_one seen b = b + 1

abbrev minus_one : List ℕ → ℕ → ℕ
minus_one seen b = b - 1

abbrev toy : Cipher
toy = record {
  iv_size = 2;
  encrypter = λ iv. ok (fresh plus_one);
  decrypter = λ iv. ok (fresh minus_one);
}

abbrev toy-IsCipher : IsCipher toy
toy-IsCipher = record {
  enc = λ iv. plus_one;
  dec = λ iv. minus_one;
  encrypts = λ iv e. refl;
  decrypts = λ iv e. refl;
  undoes = λ iv. record { undo = λ seen b. omega arith };
}

abbrev random : Source
random = chunk (8 ∷ 9 ∷ 10 ∷ []) (closed eof)

abbrev payload : List ℕ
payload = 1 ∷ 2 ∷ 3 ∷ []

abbrev side : WriteSide
side = opened_out (faultless plus_one (8 ∷ 9 ∷ xor_from plus_one [] payload) payload)

side-Sent : Sent toy toy-IsCipher side payload
side-Sent = record { iv = 8 ∷ 9 ∷ []; sized = refl; state = refl }

stream_packet_round_trip_example :
    (d : List ℕ) × ((write_packet
        (record { ciph = toy; buf_len = 16 })
        (λ d. none)
        payload
        random).0
      ≡ ok (3, none, some d))
    × (read_packet (record { ciph = toy; buf_len = 16 }) 16 (d, none) ≡ ok (3, payload, none))
stream_packet_round_trip_example =
    stream_packet_round_trip toy toy-IsCipher 16 16 (λ d. none) payload random (omega arith)
      (omega arith) (omega arith)
