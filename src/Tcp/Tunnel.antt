-- ===== src/Tcp/Tunnel.antt =====
-- The two ends of a tunnel of tcp.go together.
use go_shadowsocks.Prelude.{
  ℕ, ◌≤◌, ◌≡◌, List, [], ◌++◌, none, some, length, take, drop, IsBytes, append_cancel, arith,
}
use go_shadowsocks.Errors.{Err, eof, Result, ok}
use go_shadowsocks.Io.{Source, closed, pending, ending, Sink}
use go_shadowsocks.Io.Reads.{copy_error}
use go_shadowsocks.Io.Fill.{fill-IsQueue}
use go_shadowsocks.Socks.Addr.{split_addr}
use go_shadowsocks.Socks.Addr.Split.{split_addr_self_delimiting}
use go_shadowsocks.Socks.Addr.Queue.{read_addr-Gives}
use go_shadowsocks.ShadowAead.Aead.{Aead}
use go_shadowsocks.ShadowAead.Cipher.{Cipher}
use go_shadowsocks.ShadowAead.Cipher.Keys.{IsCipher}
use go_shadowsocks.ShadowAead.Stream.Decode.{IsMask}
use go_shadowsocks.ShadowAead.Conn.{ReadSide, raw_in, WriteSide}
use go_shadowsocks.ShadowAead.Conn.RoundTrip.{
  wire, Sent, first_conn_write-Sent, conn_read_from-Sent,
}
use go_shadowsocks.ShadowAead.Conn.Queue.{
  Delivers, conn_read-IsQueue, conn_write_to-Delivers, raw_in-Delivers,
}
use go_shadowsocks.Tcp.{local_end, conn_read_full, remote_end}

module _ (ciph : Cipher) (laws : IsCipher ciph) (mask : ℕ) (m : IsMask mask) where
  -- The local end, with enough random bytes for a salt that the cipher accepts, sends the target and
  -- then everything that the client sends, and ends with the client's error, nil at EOF.
  pub local_end-Sent :
      (rand client : Source) (a : Aead) (tgt : List ℕ)
      → ciph.salt_len ≤ length (pending rand)
      → ciph.encrypter (take ciph.salt_len (pending rand)) ≡ ok a
      → (side : WriteSide) × (local_end ciph mask rand tgt client
            (record { sent = []; faults = [] })
          ≡ some (copy_error (ending client), side, closed (ending client)))
        × Sent mask ciph side (tgt ++ pending client)
  unfolding local_end
  local_end-Sent rand client a tgt h e =
      let (side, run, sent) = first_conn_write-Sent ciph laws mask m rand a tgt h e in
      let (side', run', sent') = conn_read_from-Sent ciph laws mask m rand client side tgt sent in
      (side', ground (arith, run, run'), sent')

  conn_read_full-Delivers :
      (e : Err) (k : ℕ) (side : ReadSide) (p : List ℕ)
      → k ≤ length p
      → Delivers ciph laws mask m e side p
      → (side' : ReadSide) × (conn_read_full ciph mask k side ≡ (ok (take k p), side'))
        × Delivers ciph laws mask m e side' (drop k p)
  unfolding conn_read_full
  conn_read_full-Delivers e k side p h d =
      fill-IsQueue (Delivers ciph laws mask m e) _ (conn_read-IsQueue ciph laws mask m e) _ 0 k side
        p (omega arith) h d

  -- The remote end, over any reader that delivers what a local end sent for the target address `tgt`
  -- and the bytes `p` of its client, and so ends: it dials `tgt`, and where that succeeds with a
  -- target that takes every byte, the target is sent exactly `p`, with no error.
  pub remote_end-Sent :
      (dial : List ℕ → Result Sink) (side : WriteSide) (tgt p : List ℕ) (s : Source)
      → IsBytes tgt
      → split_addr tgt ≡ some tgt
      → Sent mask ciph side (tgt ++ p)
      → pending s ≡ wire side
      → ending s ≡ eof
      → dial tgt ≡ ok (record { sent = []; faults = [] })
      → (side' : ReadSide) × (remote_end ciph mask dial s
          ≡ ok (tgt, some (length p, none, side', record { sent = p; faults = [] })))
  unfolding remote_end
  remote_end-Sent dial side tgt p s bytes addr sent came end dials =
      let start = raw_in-Delivers ciph laws mask m eof side (tgt ++ p) s sent came end in
      let (_, _, whole) = split_addr_self_delimiting tgt tgt p bytes addr in
      let (side₁, rest, got, cut, d) =
        read_addr-Gives (Delivers ciph laws mask m eof) (conn_read_full ciph mask)
          (conn_read_full-Delivers eof) (raw_in s) (tgt ++ p) tgt whole start in
      let same : p ≡ rest = append_cancel tgt p rest cut in
      let (side₂, run) = conn_write_to-Delivers ciph laws mask m eof side₁ rest d in
      (side₂, ground (arith, got, dials, run, same))
