-- ===== src/ShadowAead/Conn/Queue.antt =====
-- The read side of a `streamConn` as a queue of bytes.
use go_shadowsocks.Prelude.{
  ℕ, ◌≡◌, refl, ◌∙◌, sym, List, [], ◌++◌, some, length, take, length-append, take-append,
  drop-append, arith,
}
use go_shadowsocks.Errors.{Err, ok}
use go_shadowsocks.Io.{Source, pending, ending, read_full}
use go_shadowsocks.Io.Reads.{copy_error}
use go_shadowsocks.Io.ReadFull.{read_full_enough}
use go_shadowsocks.Io.Fill.{IsQueue}
use go_shadowsocks.ShadowAead.Aead.{Aead, IsAead}
use go_shadowsocks.ShadowAead.Cipher.{Cipher}
use go_shadowsocks.ShadowAead.Cipher.Keys.{IsCipher}
use go_shadowsocks.ShadowAead.Stream.{Reader, new_reader}
use go_shadowsocks.ShadowAead.Stream.Encode.{frames}
use go_shadowsocks.ShadowAead.Stream.Decode.{IsMask, at}
use go_shadowsocks.ShadowAead.Stream.RoundTrip.{Holds, reader_read-Holds, write_to-Holds}
use go_shadowsocks.ShadowAead.Conn.{
  ReadSide, raw_in, opened_in, WriteSide, init_reader, get_reader, conn_read, conn_write_to,
}
use go_shadowsocks.ShadowAead.Conn.RoundTrip.{wire, zeros, Sent}

module _ (ciph : Cipher) (laws : IsCipher ciph) (mask : ℕ) (m : IsMask mask) (e : Err) where
  -- A read side that has the bytes `p` still to hand over, and the error `e` behind them.
  pub record Delivers (side : ReadSide) (p : List ℕ) : Type 0 where
    pub aead : Aead
    pub keeps : IsAead aead
    pub reader : Reader
    pub opens : get_reader ciph side ≡ (ok (aead, reader), opened_in aead reader)
    pub holds : Holds aead keeps mask m reader p
    pub ends : ending reader.source ≡ e

  pub conn_read-IsQueue : IsQueue Delivers (conn_read ciph mask)
  unfolding conn_read get_reader
  conn_read-IsQueue room side p h ne d =
      let (b, r', rest, (got, cut, some_byte, fits, holds, same)) =
        reader_read-Holds d.aead d.keeps mask m room d.reader p h ne d.holds in
      (
        b,
        opened_in d.aead r',
        rest,
        ground (arith, d.opens, got),
        cut,
        some_byte,
        fits,
        record {
          aead = d.aead;
          keeps = d.keeps;
          reader = r';
          opens = refl;
          holds = holds;
          ends = same ∙ d.ends;
        },
      )

  pub conn_write_to-Delivers :
      (side : ReadSide) (p : List ℕ)
      → Delivers side p
      → (side' : ReadSide) × (conn_write_to ciph mask side (record { sent = []; faults = [] })
          ≡ some (length p, copy_error e, side', record { sent = p; faults = [] }))
  unfolding conn_write_to
  conn_write_to-Delivers side p d =
      let (s, n, run) = write_to-Holds d.aead d.keeps mask m d.reader p [] d.holds in
      (opened_in d.aead (at s n []), ground (arith, d.opens, run, d.ends))

  -- A new connection over what the peer sent.
  pub raw_in-Delivers :
      (side : WriteSide) (p : List ℕ) (s : Source)
      → Sent mask ciph side p
      → pending s ≡ wire side
      → ending s ≡ e
      → Delivers (raw_in s) p
  unfolding get_reader init_reader new_reader
  raw_in-Delivers side p s h sent end =
      let rest = frames h.aead (zeros h.aead) h.chunks in
      let came : pending s ≡ h.salt ++ rest = ground (arith, sent, h.state) in
      let (got, left, same) =
        read_full_enough ciph.salt_len s
          (rw came (omega (arith, length-append h.salt rest, h.salted))) in
      let s' = (read_full ciph.salt_len s).1 in
      let first : take ciph.salt_len (pending s) ≡ h.salt =
        rw came (take-append h.salt rest _ (sym h.salted)) in
      record {
        aead = h.aead;
        keeps = laws.lawful h.salt h.aead h.keyed;
        reader = at s' (zeros h.aead) [];
        opens = ground (arith, got, first, laws.agrees h.salt, h.keyed);
        holds = record {
          chunks = h.chunks;
          are_chunks = h.are_chunks;
          coming = left ∙ rw came (drop-append h.salt rest _ (sym h.salted));
          total = h.total;
        };
        ends = same ∙ end;
      }
