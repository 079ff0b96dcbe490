-- ===== src/Core/Conns/Runs.antt =====
-- The connections and sockets of package core at concrete inputs.
use go_shadowsocks.ShadowAead.Stream.Mask.{default_mask-IsMask}
use go_shadowsocks.ShadowAead.Aead.{toy_aead, tag_of}
use go_shadowsocks.ShadowStream.Stream.Copy.{open_sink}
use go_shadowsocks.Socks.Text.{same_bytes}
use go_shadowsocks.Io.Reads.{copy_error}
use go_shadowsocks.Errors.{ok, Err, eof}
use go_shadowsocks.Core.Conns.Sent.{picked_packets, Arrives}
use go_shadowsocks.Core.Conns.{packet_conn, initial_sizes, listen_packet, packets_write}
use go_shadowsocks.ShadowAead.Cipher.{
  aesgcm, is_aes_key, new_aes, meta_key_size, meta_salt_size, aes_gcm, meta_encrypter, meta_cipher,
}
use go_shadowsocks.Io.{gather, full, read_full, ending, pending, closed, Sink, chunk, Source}
use go_shadowsocks.Core.Conns.Carried.{Ready, picked_conns, on_wire, Carries}
use go_shadowsocks.Core.{
  to_upper, aead_list, make, lookup, alias, aead_cipher, pick_named, pick_cipher, Cipher,
}
use go_shadowsocks.Prelude.{
  refl, ◌≡◌, length, arith, append-nil, ascii, some, Option, ◌++◌, none, [], ◌∷◌, replicate, List,
  ℕ,
}
use go_shadowsocks.ShadowAead.Packet.{write_packet, packed, pack, seal_with}
use go_shadowsocks.Core.Runs.{toy_crypto, toy_crypto-IsCrypto}

abbrev shared_key : List ℕ
shared_key = 1 ∷ 2 ∷ 3 ∷ 4 ∷ 5 ∷ 6 ∷ 7 ∷ 8 ∷ 9 ∷ 10 ∷ 11 ∷ 12 ∷ 13 ∷ 14 ∷ 15 ∷ 16 ∷ []

abbrev picked : Cipher
picked =
    aead_cipher (
      meta_cipher toy_crypto.aead
        (record { psk = shared_key; make_aead = aes_gcm toy_crypto.aead }))

picks : pick_cipher toy_crypto (ascii "aes-128-gcm") shared_key [] ≡ ok picked
unfolding pick_cipher pick_named alias lookup make aead_list to_upper same_bytes aesgcm is_aes_key
picks = refl

abbrev random : Source
random = chunk (replicate 16 42) (closed eof)

abbrev hi : List ℕ
hi = b'h' ∷ b'i' ∷ []

abbrev whole_copy : Source → Sink → Option (ℕ × Option Err × Source × Sink)
whole_copy s w =
    some (length (pending s), copy_error (ending s), closed (ending s), open_sink (pending s))

abbrev delivering : Source
delivering = chunk (on_wire initial_sizes random hi picked) (closed eof)

initial-Ready : Ready initial_sizes random picked
unfolding meta_cipher meta_encrypter meta_salt_size meta_key_size aes_gcm new_aes is_aes_key
initial-Ready = (default_mask-IsMask, omega arith, (toy_aead, refl))

picked_conns_example : Carries whole_copy (λ s. refl) initial_sizes random hi delivering picked
picked_conns_example =
    picked_conns toy_crypto toy_crypto-IsCrypto whole_copy (λ s. refl) initial_sizes random hi
      delivering (ascii "aes-128-gcm") shared_key [] picked picks initial-Ready tt (append-nil _)
      refl

abbrev datagram : List ℕ
datagram = replicate 16 42 ++ tag_of (0 ∷ 0 ∷ []) ∷ hi

handed_on :
    (packets_write (listen_packet initial_sizes picked (some 1, none)).0 (λ d. none) hi random).0
    ≡ ok (2, none, some datagram)
unfolding packets_write listen_packet packet_conn write_packet packed pack seal_with read_full full
    gather meta_cipher meta_encrypter meta_salt_size meta_key_size aes_gcm new_aes is_aes_key
handed_on = refl

picked_packets_example : Arrives initial_sizes (λ d. none) random hi datagram 100 2 none picked
picked_packets_example =
    picked_packets toy_crypto toy_crypto-IsCrypto initial_sizes (λ d. none) random hi datagram 100 2
      none (ascii "aes-128-gcm") shared_key [] picked picks handed_on (omega arith)
