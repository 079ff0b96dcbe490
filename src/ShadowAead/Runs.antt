-- ===== src/ShadowAead/Runs.antt =====
-- Package shadowaead at concrete inputs: a cipher with a salt of two bytes and a tag of one byte.
use go_shadowsocks.Prelude.{
  ℕ, ◌≡◌, ◌≢◌, refl, subst, List, [], ◌∷◌, ◌++◌, none, some, replicate, append-nil, arith,
}
use go_shadowsocks.Errors.{eof, ok}
use go_shadowsocks.Io.{full, gather, read_full, chunk, closed, Sink}
use go_shadowsocks.ShadowAead.Aead.{IsAead, toy_aead, toy_aead-IsAead}
use go_shadowsocks.ShadowAead.Nonce.Counter.{advance, advance_distinct}
use go_shadowsocks.ShadowAead.Cipher.{Cipher, Crypto, IsCrypto}
use go_shadowsocks.ShadowAead.Cipher.Keys.{IsCipher}
use go_shadowsocks.ShadowAead.Stream.Encode.{frames, past, faultless}
use go_shadowsocks.ShadowAead.Stream.Mask.{default_mask, default_mask-IsMask}
use go_shadowsocks.ShadowAead.Stream.Decode.{at}
use go_shadowsocks.ShadowAead.Stream.RoundTrip.{Holds, Reads, reader_read-Holds}
use go_shadowsocks.ShadowAead.Stream.Faults.{read_record_lost}
use go_shadowsocks.ShadowAead.Stream.{
  read_from_loop, put_payload, new_writer, read_from, frame, read_record, Reader,
}
use go_shadowsocks.ShadowAead.Packet.{seal_with, pack, packed, PacketConn, write_packet}
use go_shadowsocks.ShadowAead.Conn.{
  raw_out, ReadSide, raw_in, WriteSide, opened_out, conn_write_to, conn_write,
}
use go_shadowsocks.ShadowAead.Conn.RoundTrip.{first_conn_write-Sent, wire, Sent, conn_write_to-Sent}

abbrev pub toy_cipher : Cipher
toy_cipher = record {
  key_len = 1;
  salt_len = 2;
  encrypter = λ salt. ok toy_aead;
  decrypter = λ salt. ok toy_aead;
}

pub toy_cipher-IsCipher : IsCipher toy_cipher
toy_cipher-IsCipher = record {
  agrees = λ salt. refl;
  lawful = λ salt a e. subst IsAead {x = toy_aead} {y = a} (cc e) toy_aead-IsAead;
}

abbrev pub salt : List ℕ
salt = 8 ∷ 9 ∷ []

abbrev pub payload : List ℕ
payload = 1 ∷ 2 ∷ 3 ∷ []

abbrev pub zeros : List ℕ
zeros = 0 ∷ 0 ∷ []

abbrev pub empty : Sink
empty = record { sent = []; faults = [] }

-- A write side that was given the payload in one write.
abbrev side : WriteSide
side =
    opened_out toy_aead
      (faultless (salt ++ frames toy_aead zeros (payload ∷ [])) (past zeros (payload ∷ [])))

side-Sent : Sent default_mask toy_cipher side payload
side-Sent = record {
  aead = toy_aead;
  salt = salt;
  chunks = payload ∷ [];
  salted = refl;
  keyed = refl;
  are_chunks = ((omega arith, omega arith), tt);
  total = refl;
  state = refl;
}

conn_write_to-Sent_example :
    (side' : ReadSide) × (conn_write_to toy_cipher default_mask
        (raw_in (chunk (wire side) (closed eof)))
        empty
      ≡ some (3, none, side', record { sent = payload; faults = [] }))
conn_write_to-Sent_example =
    conn_write_to-Sent toy_cipher toy_cipher-IsCipher default_mask default_mask-IsMask side payload
      (chunk (wire side) (closed eof)) side-Sent (append-nil (wire side)) refl

advance_distinct_example : advance 3 (replicate 12 0) ≢ advance 300 (replicate 12 0)
advance_distinct_example = advance_distinct 12 3 300 (omega arith) (omega arith) (ground arith)

-- A reader with one byte left over and one record to come.
abbrev reader : Reader
reader = at (chunk (frames toy_aead zeros (payload ∷ [])) (closed eof)) zeros (7 ∷ [])

reader-Holds : Holds toy_aead toy_aead-IsAead default_mask default_mask-IsMask reader (7 ∷ payload)
reader-Holds = record {
  chunks = payload ∷ [];
  are_chunks = ((omega arith, omega arith), tt);
  coming = append-nil (frames toy_aead zeros (payload ∷ []));
  total = refl;
}

reader_read-Holds_example :
    (b : List ℕ) × (r' : Reader) × (rest : List ℕ) × Reads toy_aead toy_aead-IsAead default_mask
      default_mask-IsMask 2 reader
      (7 ∷ payload)
      b
      r'
      rest
reader_read-Holds_example =
    reader_read-Holds toy_aead toy_aead-IsAead default_mask default_mask-IsMask 2 reader
      (7 ∷ payload) (omega arith) (λ e. cc e) reader-Holds

read_record_lost_example :
    read_record 4096 toy_aead (at (chunk (frame toy_aead zeros payload) (closed eof)) zeros [])
    ≢ (ok payload, at (closed eof) zeros [])
read_record_lost_example =
    read_record_lost toy_aead toy_aead-IsAead payload []
      (chunk (frame toy_aead zeros payload) (closed eof)) zeros [] (at (closed eof) zeros [])
      (omega arith) (omega arith) refl

-- Packages whose AEADs are the one above, whatever the key.
abbrev toy_crypto : Crypto
toy_crypto = record {
  hkdf = λ secret s info n. secret;
  new_gcm = λ k. ok toy_aead;
  new_chacha = λ k. ok toy_aead;
}

toy_crypto-IsCrypto : IsCrypto toy_crypto
toy_crypto-IsCrypto = record {
  gcm_laws = λ k a e. subst IsAead {x = toy_aead} {y = a} (cc e) toy_aead-IsAead;
  chacha_laws = λ k a e. subst IsAead {x = toy_aead} {y = a} (cc e) toy_aead-IsAead;
}

abbrev key : List ℕ
key = replicate 24 5

-- The bytes of one record under the zero nonce.
abbrev record_bytes : List ℕ
record_bytes = frames toy_aead zeros (payload ∷ [])

payload_copied :
    read_from default_mask toy_aead (chunk payload (closed eof)) (new_writer toy_aead empty)
    ≡ some (3, none, faultless record_bytes (past zeros (payload ∷ [])), closed eof)
unfolding read_from read_from_loop put_payload new_writer frame
payload_copied = refl

abbrev packet_conn : PacketConn
packet_conn = record { ciph = toy_cipher; buf_len = 16 }

-- The datagram of the payload: the salt, the tag, the text.
abbrev datagram : List ℕ
datagram = 8 ∷ 9 ∷ 0 ∷ payload

payload_packed :
    (write_packet packet_conn (λ d. none) payload (chunk (8 ∷ 9 ∷ []) (closed eof))).0
    ≡ ok (3, none, some datagram)
unfolding write_packet packed pack seal_with read_full full gather
payload_packed = refl

first_conn_write-Sent_example :
    (s : WriteSide) × (conn_write toy_cipher default_mask
        (chunk salt (closed eof))
        payload
        (raw_out empty)
      ≡ some (3, none, s))
    × Sent default_mask toy_cipher s payload
first_conn_write-Sent_example =
    first_conn_write-Sent toy_cipher toy_cipher-IsCipher default_mask default_mask-IsMask
      (chunk salt (closed eof)) toy_aead payload (omega arith) refl
