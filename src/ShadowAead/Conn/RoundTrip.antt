-- ===== src/ShadowAead/Conn/RoundTrip.antt =====
-- Two ends of a `streamConn` over one cipher: the bytes that one side was given are the bytes that
-- the other side hands over.
use go_shadowsocks.Prelude.{
  ℕ, ◌≤◌, ◌≡◌, refl, ◌∙◌, ap, sym, List, [], ◌++◌, none, some, length, take, replicate, concat,
  concat-append, All, All-append, append-nil, append_assoc, length-append, length-take, take-append,
  drop-append, arith,
}
use go_shadowsocks.Errors.{eof, ok}
use go_shadowsocks.Io.Reads.{copy_error}
use go_shadowsocks.Io.{Source, closed, pending, ending, read_full}
use go_shadowsocks.Io.ReadFull.{read_full_enough}
use go_shadowsocks.ShadowAead.Aead.{Aead}
use go_shadowsocks.ShadowAead.Cipher.{Cipher}
use go_shadowsocks.ShadowAead.Cipher.Keys.{IsCipher}
use go_shadowsocks.ShadowAead.Stream.{new_reader, new_writer, buffer_of, writer_write}
use go_shadowsocks.ShadowAead.Stream.Encode.{
  frames, frames-append, past, past-append, IsChunk, faultless, read_from-Copies,
}
use go_shadowsocks.ShadowAead.Stream.Decode.{IsMask, at}
use go_shadowsocks.ShadowAead.Stream.RoundTrip.{write_to-Holds}
use go_shadowsocks.ShadowAead.Conn.{
  ReadSide, raw_in, opened_in, WriteSide, raw_out, opened_out, init_reader, get_reader, init_writer,
  get_writer, conn_write_to, conn_read_from, conn_write,
}

-- What a write side has put on the wire.
abbrev pub wire : WriteSide → List ℕ
wire (raw_out w) = w.sent
wire (opened_out a w) = w.sink.sent

abbrev pub zeros : Aead → List ℕ
zeros a = replicate a.nonce_size 0

-- A write side over a connection that never fails, which was given the bytes `p` so far: it sent the
-- salt and the records of some chunks of `p`, each sealed under a nonce of its own.
pub record Sent (mask : ℕ) (ciph : Cipher) (side : WriteSide) (p : List ℕ) : Type 0 where
  pub aead : Aead
  pub salt : List ℕ
  pub chunks : List (List ℕ)
  pub salted : length salt ≡ ciph.salt_len
  pub keyed : ciph.encrypter salt ≡ ok aead
  pub are_chunks : All (IsChunk mask) chunks
  pub total : p ≡ concat chunks
  pub state :
      side
      ≡ opened_out aead
          (faultless (salt ++ frames aead (zeros aead) chunks) (past (zeros aead) chunks))

module _ (ciph : Cipher) (laws : IsCipher ciph) (mask : ℕ) (m : IsMask mask) where
  pub conn_read_from-Sent :
      (rand r : Source) (side : WriteSide) (p : List ℕ)
      → Sent mask ciph side p
      → (side' : WriteSide) × (conn_read_from ciph mask rand r side
          ≡ some (length (pending r), copy_error (ending r), side', closed (ending r)))
        × Sent mask ciph side' (p ++ pending r)
  unfolding conn_read_from get_writer
  conn_read_from-Sent rand r side p h =
      let out = h.salt ++ frames h.aead (zeros h.aead) h.chunks in
      let n = past (zeros h.aead) h.chunks in
      let (cs, copies) = read_from-Copies h.aead mask (omega (arith, m.wide)) r out n in
      (
        opened_out h.aead (faultless (out ++ frames h.aead n cs) (past n cs)),
        ground (arith, h.state, copies.0),
        record {
          aead = h.aead;
          salt = h.salt;
          chunks = h.chunks ++ cs;
          salted = h.salted;
          keyed = h.keyed;
          are_chunks = All-append (IsChunk mask) h.chunks cs h.are_chunks copies.2;
          total =
              rw h.total
                (ap (◌++◌ (concat h.chunks)) (sym copies.1) ∙ sym (concat-append h.chunks cs));
          state = cc (
            append_assoc h.salt (frames h.aead (zeros h.aead) h.chunks) (frames h.aead n cs),
            frames-append h.aead (zeros h.aead) h.chunks cs,
            past-append (zeros h.aead) h.chunks cs,
          );
        },
      )

  -- `Write(b)` likewise adds `b`, and returns its length and nil.
  pub conn_write-Sent :
      (rand : Source) (b : List ℕ) (side : WriteSide) (p : List ℕ)
      → Sent mask ciph side p
      → (side' : WriteSide) × (conn_write ciph mask rand b side ≡ some (length b, none, side'))
        × Sent mask ciph side' (p ++ b)
  unfolding conn_write conn_read_from get_writer writer_write
  conn_write-Sent rand b side p h =
      let out = h.salt ++ frames h.aead (zeros h.aead) h.chunks in
      let n = past (zeros h.aead) h.chunks in
      let (cs, copies) = read_from-Copies h.aead mask (omega (arith, m.wide)) (buffer_of b) out n in
      let (side', run, sent) = conn_read_from-Sent rand (buffer_of b) side p h in
      (side', ground (arith, h.state, run, copies.0, append-nil b), rw (append-nil b) at sent)

  -- The peer, over any reader that delivers what was sent and then ends: `WriteTo` hands over exactly
  -- the bytes that the write side was given, and reports no error.
  pub conn_write_to-Sent :
      (side : WriteSide) (p : List ℕ) (s : Source)
      → Sent mask ciph side p
      → pending s ≡ wire side
      → ending s ≡ eof
      → (side' : ReadSide) × (conn_write_to ciph mask (raw_in s) (record { sent = []; faults = [] })
          ≡ some (length p, none, side', record { sent = p; faults = [] }))
  unfolding conn_write_to get_reader init_reader new_reader
  conn_write_to-Sent side p s h e end =
      let rest = frames h.aead (zeros h.aead) h.chunks in
      let came : pending s ≡ h.salt ++ rest = ground (arith, h.state) in
      let (got, left, same) =
        read_full_enough ciph.salt_len s
          (rw came (omega (arith, length-append h.salt rest, h.salted))) in
      let s' = (read_full ciph.salt_len s).1 in
      let after : pending s' ≡ rest = left ∙ rw came (drop-append h.salt rest _ (sym h.salted)) in
      let first : take ciph.salt_len (pending s) ≡ h.salt =
        rw came (take-append h.salt rest _ (sym h.salted)) in
      let (s₂, n₂, run) =
        write_to-Holds h.aead (laws.lawful h.salt h.aead h.keyed) mask m (at s' (zeros h.aead) []) p
          []
          (record {
            chunks = h.chunks;
            are_chunks = h.are_chunks;
            coming = after;
            total = h.total;
          }) in
      (
        opened_in h.aead (at s₂ n₂ []),
        ground (arith, got, first, run, same, end, laws.agrees h.salt, h.keyed),
      )

-- `Write(b)` on a new connection, with enough random bytes for a salt that the cipher accepts, sends
-- the salt and the records of `b`, and returns the length of `b` and nil.
pub first_conn_write-Sent :
    (ciph : Cipher) (laws : IsCipher ciph) (mask : ℕ) (m : IsMask mask) (rand : Source) (a : Aead)
    (b : List ℕ)
    → ciph.salt_len ≤ length (pending rand)
    → ciph.encrypter (take ciph.salt_len (pending rand)) ≡ ok a
    → (side : WriteSide) × (conn_write ciph mask rand b
          (raw_out (record { sent = []; faults = [] }))
        ≡ some (length b, none, side))
      × Sent mask ciph side b
unfolding conn_write get_writer init_writer new_writer
first_conn_write-Sent ciph laws mask m rand a b h e =
    let salt = take ciph.salt_len (pending rand) in
    let fresh : WriteSide = opened_out a (faultless salt (zeros a)) in
    let begun : Sent mask ciph fresh [] = record {
      aead = a;
      salt = salt;
      chunks = [];
      salted = omega (arith, length-take ciph.salt_len (pending rand));
      keyed = e;
      are_chunks = tt;
      total = refl;
      state = ap (λ t. opened_out a (faultless t (zeros a))) (sym (append-nil salt));
    } in
    let (side, run, sent) = conn_write-Sent ciph laws mask m rand b fresh [] begun in
    (side, ground (arith, read_full_enough ciph.salt_len rand h, run), sent)
