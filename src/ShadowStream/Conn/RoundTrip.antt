-- ===== src/ShadowStream/Conn/RoundTrip.antt =====
-- Two ends of a `conn` over one cipher.
use go_shadowsocks.Prelude.{
  ℕ, ◌≤◌, ◌≡◌, refl, ◌∙◌, sym, List, [], ◌++◌, none, some, length, take, append-nil, append_assoc,
  length-append, length-take, take-append, drop-append, arith,
}
use go_shadowsocks.Errors.{Err, eof}
use go_shadowsocks.Io.Reads.{copy_error, read_facts}
use go_shadowsocks.Io.{read, Source, closed, chunk, pending, ending, turns, read, read_full}
use go_shadowsocks.Io.Separate.{Separate, read_full-Separate}
use go_shadowsocks.Io.ReadFull.{read_full_enough}
use go_shadowsocks.ShadowStream.Cipher.{Cipher, xor_from}
use go_shadowsocks.ShadowStream.Cipher.Laws.{
  IsCipher, xor_from-append, xor_from-undoes_all, length-xor_from,
}
use go_shadowsocks.ShadowStream.Stream.{writer_write}
use go_shadowsocks.ShadowStream.Stream.Copy.{
  faultless, read_from-Copied, read_from_loop-Copied, reading, open_sink, write_to-Drained,
}
use go_shadowsocks.ShadowStream.Conn.{
  ReadSide, raw_in, opened_in, WriteSide, raw_out, opened_out, init_reader, get_reader, init_writer,
  get_writer, conn_write_to, conn_read_from, conn_write,
}

-- What a write side has put on the wire.
abbrev pub wire : WriteSide → List ℕ
wire (raw_out w) = w.sent
wire (opened_out w) = w.sink.sent

module _ (ciph : Cipher) (laws : IsCipher ciph) where
  -- A write side over a connection that never fails, which was given the bytes `p` so far: it sent an
  -- IV and their encryption as one stream.
  pub record Sent (side : WriteSide) (p : List ℕ) : Type 0 where
    pub iv : List ℕ
    pub sized : length iv ≡ ciph.iv_size
    pub state : side ≡ opened_out (faultless (laws.enc iv) (iv ++ xor_from (laws.enc iv) [] p) p)

module _ (ciph : Cipher) (laws : IsCipher ciph) (buf_len : ℕ) (wide : 1 ≤ buf_len)
    (fits : ciph.iv_size ≤ buf_len) where
  -- `Write(b)` on a new connection sends the IV and the encryption of `b`.
  pub first_write-Sent :
      (rand : Source) (b : List ℕ)
      → ciph.iv_size ≤ length (pending rand)
      → (side : WriteSide) × (conn_write ciph buf_len rand b (raw_out (open_sink []))
          ≡ some (length b, none, side))
        × Sent ciph laws side b
  unfolding conn_write get_writer init_writer writer_write
  first_write-Sent rand b h =
      let iv = take ciph.iv_size (pending rand) in
      let sized : length iv ≡ ciph.iv_size =
        omega (arith, length-take ciph.iv_size (pending rand)) in
      (
        opened_out (faultless (laws.enc iv) (iv ++ xor_from (laws.enc iv) [] b) b),
        ground (
          arith,
          read_full_enough ciph.iv_size rand h,
          laws.encrypts iv sized,
          read_from-Copied buf_len wide (laws.enc iv) (chunk b (closed eof)) iv [],
          append-nil b,
        ),
        record { iv = iv; sized = sized; state = refl },
      )

  -- A further `Write(b)` continues the stream.
  pub stream_write-Sent :
      (rand : Source) (b : List ℕ) (side : WriteSide) (p : List ℕ)
      → Sent ciph laws side p
      → (side' : WriteSide) × (conn_write ciph buf_len rand b side ≡ some (length b, none, side'))
        × Sent ciph laws side' (p ++ b)
  unfolding conn_write get_writer writer_write
  stream_write-Sent rand b side p h =
      let out = h.iv ++ xor_from (laws.enc h.iv) [] p in
      (
        opened_out (faultless (laws.enc h.iv) (out ++ xor_from (laws.enc h.iv) p b) (p ++ b)),
        ground (
          arith,
          h.state,
          read_from-Copied buf_len wide (laws.enc h.iv) (chunk b (closed eof)) out p,
          append-nil b,
        ),
        record {
          iv = h.iv;
          sized = h.sized;
          state = cc (
            append_assoc h.iv (xor_from (laws.enc h.iv) [] p) (xor_from (laws.enc h.iv) p b),
            xor_from-append (laws.enc h.iv) [] p b,
          );
        },
      )

  -- The peer, over any reader that delivers what was sent and then ends by an EOF of its own:
  -- `WriteTo` hands over exactly the bytes that the write side was given, and reports no error.
  pub stream_write_to-Sent :
      (side : WriteSide) (p : List ℕ) (s : Source)
      → Sent ciph laws side p
      → Separate s
      → pending s ≡ wire side
      → ending s ≡ eof
      → (side' : ReadSide) × (conn_write_to ciph buf_len (raw_in s) (open_sink [])
          ≡ some (length p, none, side', open_sink p))
  unfolding conn_write_to get_reader init_reader
  stream_write_to-Sent side p s h d e end =
      let enc = laws.enc h.iv in
      let c = xor_from enc [] p in
      let came : pending s ≡ h.iv ++ c = ground (arith, h.state) in
      let (got, left, same) =
        read_full_enough ciph.iv_size s (rw came (omega (arith, length-append h.iv c, h.sized))) in
      let s' = (read_full ciph.iv_size s).1 in
      let after : pending s' ≡ c = left ∙ rw came (drop-append h.iv c _ (sym h.sized)) in
      let first : take ciph.iv_size (pending s) ≡ h.iv =
        rw came (take-append h.iv c _ (sym h.sized)) in
      let run = write_to-Drained buf_len wide (laws.dec h.iv) s' [] [] (read_full-Separate _ s d) in
      (
        opened_in (reading (laws.dec h.iv) (closed eof) c),
        ground (
          arith,
          got,
          first,
          run,
          after,
          same,
          end,
          laws.decrypts h.iv h.sized,
          length-xor_from enc [] p,
          xor_from-undoes_all (laws.dec h.iv) enc (laws.undoes h.iv) p,
        ),
      )

  -- `ReadFrom` on a reader at its end returns the end as an error, sends nothing, and leaves a writer
  -- behind: the next `Write(b)` then sends the encryption of `b` without its IV.
  pub iv_lost :
      (rand rand' : Source) (e : Err) (b : List ℕ)
      → ciph.iv_size ≤ length (pending rand)
      → (side : WriteSide) × (side' : WriteSide) × (conn_read_from ciph buf_len rand
            (closed e)
            (raw_out (open_sink []))
          ≡ some (0, some e, side, closed e))
        × (wire side ≡ [])
        × (conn_write ciph buf_len rand' b side ≡ some (length b, none, side'))
        × (wire side' ≡ xor_from (laws.enc (take ciph.iv_size (pending rand))) [] b)
  unfolding conn_read_from conn_write get_writer writer_write
  iv_lost rand rand' e b h =
      let iv = take ciph.iv_size (pending rand) in
      let enc = laws.enc iv in
      let sized : length iv ≡ ciph.iv_size =
        omega (arith, length-take ciph.iv_size (pending rand)) in
      (
        opened_out (faultless enc [] []),
        opened_out (faultless enc (xor_from enc [] b) b),
        ground (arith, read_full_enough ciph.iv_size rand h, laws.encrypts iv sized),
        refl,
        ground
            (arith, read_from-Copied buf_len wide enc (chunk b (closed eof)) [] [], append-nil b),
        refl,
      )

  -- `ReadFrom(r)` on a new connection, where the first read brings bytes: it sends the IV and the
  -- encryption of everything that `r` delivers, and returns the length and the reader's error, nil at
  -- EOF.
  pub first_read_from-Sent :
      (rand r : Source)
      → ciph.iv_size ≤ length (pending rand)
      → (read buf_len r).1 ≡ none
      → 1 ≤ length (read buf_len r).0
      → (side : WriteSide) × (conn_read_from ciph buf_len rand r (raw_out (open_sink []))
          ≡ some (length (pending r), copy_error (ending r), side, closed (ending r)))
        × Sent ciph laws side (pending r)
  unfolding conn_read_from
  first_read_from-Sent rand r h more some_bytes =
      let iv = take ciph.iv_size (pending rand) in
      let enc = laws.enc iv in
      let sized : length iv ≡ ciph.iv_size =
        omega (arith, length-take ciph.iv_size (pending rand)) in
      let q = (read buf_len r).0 in
      let r' = (read buf_len r).2 in
      let (cut, same, fit, rest) = read_facts buf_len r wide in
      let loop =
        read_from_loop-Copied buf_len wide enc (turns r') r' (iv ++ xor_from enc [] q) q (length q)
          (omega arith) in
      (
        opened_out (faultless enc (iv ++ xor_from enc [] (pending r)) (pending r)),
        ground (
          arith,
          read_full_enough ciph.iv_size rand h,
          laws.encrypts iv sized,
          loop,
          cut,
          same,
          length-append q (pending r'),
          append_assoc iv (xor_from enc [] q) (xor_from enc q (pending r')),
          xor_from-append enc [] q (pending r'),
        ),
        record { iv = iv; sized = sized; state = refl },
      )
