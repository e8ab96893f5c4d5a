-- ===== src/Vpn/DtlsEngine/Sample.antt =====
-- An SSL object that passes records through unencrypted: the assumptions on OpenSSL can be met.
use ocserv_rs.Base.{ℕ, zero, suc, ◌<◌, ◌≡◌, true, Result, ok, err, take, arith}
use ocserv_rs.Base.Text.{Bytes}
use ocserv_rs.Vpn.DtlsEngine.{MemoryStream, write, Ssl, SslError, want_read}
use ocserv_rs.Vpn.DtlsEngine.Laws.{unread}

-- `ssl_read` of a cleartext object with one record waiting at most, which it counts in `Conn`.
unfoldable pub pass_read : ℕ → MemoryStream → ℕ × MemoryStream × Result SslError Bytes
pass_read zero s = (zero, s, err want_read)
pass_read (suc n) s = (n, s, ok (take 4096 (unread s)))

pub pass_read_pending :
    (c d : ℕ) (s t : MemoryStream) (packet : Bytes) → pass_read c s ≡ (d, t, ok packet) → d < c
unfolding pass_read
pass_read_pending zero d s t packet e = cc
pass_read_pending (suc n) d s t packet e = omega (arith, ap_fst e)
  where
    ap_fst :
        ◌≡◌ {A = ℕ × MemoryStream × Result SslError Bytes}
          (n, s, ok (take 4096 (unread s)))
          (d, t, ok packet)
        → n ≡ d
    ap_fst e = λ i. (e i).0

abbrev pub pass_through : Ssl
pass_through = record {
  Conn = ℕ;
  ssl_read = pass_read;
  ssl_write = λ c s buf. (c, write s buf, true);
  pending = λ c s. c;
  read_pending = pass_read_pending;
}
