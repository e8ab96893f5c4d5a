-- ===== src/Http/RawConnect/Plain.antt =====
-- The lines of the response to CONNECT have no carriage return.
use ocserv_rs.Base.{
  ℕ, ◌/◌, ◌%◌, ◌≡◌, refl, Option, none, some, Bool, true, false, List, [], ◌∷◌, ◌++◌, map, All,
}
use ocserv_rs.Base.Text.{Text, text, decimal}
use ocserv_rs.Base.Eq.{nat_eq}
use ocserv_rs.Config.{NetworkConfig}
use ocserv_rs.Http.Response.Framing.{IsPlain, IsPlain-append, IsPlain-of, is_plain, decimal-IsPlain}
use ocserv_rs.Http.RawConnect.{
  DtlsConfig, psk, legacy, display_ip, data_mtu, cipher_name, dns_line, route_line, core_lines,
  dtls_lines, connect_lines,
}

-- No carriage return in what comes from outside.
abbrev pub DtlsIsPlain : Option DtlsConfig → Type 0
DtlsIsPlain none = Unit
DtlsIsPlain (some (psk dtls)) = IsPlain dtls.app_id
DtlsIsPlain (some (legacy dtls)) = IsPlain dtls.session_id × IsPlain dtls.ciphersuite

pub record IsClean (config : NetworkConfig) (dtls_config : Option DtlsConfig) : Type 0 where
  pub dns_plain : All IsPlain config.dns_servers
  pub routes_plain : All IsPlain config.split_include
  pub dtls_plain : DtlsIsPlain dtls_config

labelled : (label s : Text) → is_plain label ≡ true → IsPlain s → IsPlain (label ++ s)
labelled label s e h = IsPlain-append label s (IsPlain-of label e) h

labelled-All :
    (label : Text) (ss : List Text)
    → is_plain label ≡ true
    → All IsPlain ss
    → All IsPlain (map (λ s. label ++ s) ss)
labelled-All label [] e h = tt
labelled-All label (s ∷ ss) e (h, hs) = (labelled label s e h, labelled-All label ss e hs)

All-append : (xs ys : List Text) → All IsPlain xs → All IsPlain ys → All IsPlain (xs ++ ys)
All-append [] ys h k = k
All-append (x ∷ xs) ys (h, hs) k = (h, All-append xs ys hs k)

display_ip-IsPlain : (ip : ℕ) → IsPlain (display_ip ip)
unfolding display_ip is_plain text
display_ip-IsPlain ip =
    let dot = IsPlain-of (text ".") refl in
    IsPlain-append _ _ (decimal-IsPlain (ip / 16_777_216)) (
      IsPlain-append (text ".") _ dot (
        IsPlain-append _ _ (decimal-IsPlain (ip / 65_536 % 256)) (
          IsPlain-append (text ".") _ dot (
            IsPlain-append _ _ (decimal-IsPlain (ip / 256 % 256))
              (IsPlain-append (text ".") _ dot (decimal-IsPlain (ip % 256)))))))

core_lines-IsPlain : (config : NetworkConfig) (ip : ℕ) → All IsPlain (core_lines config ip)
unfolding core_lines text is_plain
core_lines-IsPlain config ip = (
  IsPlain-of (text "HTTP/1.1 200 OK") refl,
  (
    IsPlain-of (text "X-CSTP-Version: 1") refl,
    (
      labelled (text "X-CSTP-Address: ") (display_ip ip) refl (display_ip-IsPlain ip),
      (
        IsPlain-of (text "X-CSTP-Netmask: 255.255.255.255") refl,
        (
          IsPlain-of (text "X-CSTP-Lease-Duration: 86400") refl,
          (
            IsPlain-of (text "X-CSTP-Session-Timeout: 0") refl,
            (
              IsPlain-of (text "X-CSTP-Idle-Timeout: 0") refl,
              (
                IsPlain-of (text "X-CSTP-Disconnected-Timeout: 0") refl,
                (
                  IsPlain-of (text "X-CSTP-Keepalive: 30") refl,
                  (
                    IsPlain-of (text "X-CSTP-DPD: 30") refl,
                    (
                      labelled (text "X-CSTP-Base-MTU: ") (decimal config.mtu) refl
                          (decimal-IsPlain config.mtu),
                      (
                        labelled (text "X-CSTP-MTU: ") (decimal (data_mtu config)) refl
                            (decimal-IsPlain (data_mtu config)),
                        (
                          IsPlain-of (text "X-CSTP-Tunnel-All-DNS: false") refl,
                          (
                            IsPlain-of (text "X-CSTP-Keep: true") refl,
                            (
                              IsPlain-of (text "X-CSTP-TCP-Keepalive: true") refl,
                              (
                                IsPlain-of (text "X-CSTP-License: accept") refl,
                                (IsPlain-of (text "X-CSTP-Rekey-Method: new-tunnel") refl, tt),
                              ),
                            ),
                          ),
                        ),
                      ),
                    ),
                  ),
                ),
              ),
            ),
          ),
        ),
      ),
    ),
  ),
)

cipher_name-IsPlain : (b : Bool) (s : Text) → IsPlain s → IsPlain (cipher_name b ++ s)
unfolding text is_plain
cipher_name-IsPlain true s h = labelled (text "X-DTLS12-CipherSuite: ") s refl h
cipher_name-IsPlain false s h = labelled (text "X-DTLS-CipherSuite: ") s refl h

dtls_lines-IsPlain :
    (config : NetworkConfig) (dtls_config : Option DtlsConfig)
    → DtlsIsPlain dtls_config
    → All IsPlain (dtls_lines config dtls_config)
unfolding dtls_lines text is_plain
dtls_lines-IsPlain config none h = tt
dtls_lines-IsPlain config (some (psk dtls)) h = (
  labelled (text "X-DTLS-Port: ") (decimal dtls.port) refl (decimal-IsPlain dtls.port),
  (
    IsPlain-of (text "X-DTLS-CipherSuite: PSK-NEGOTIATE") refl,
    (
      labelled (text "X-DTLS-App-ID: ") (dtls.app_id) refl h,
      (
        labelled (text "X-DTLS-Rekey-Time: ") (decimal dtls.rekey_time) refl
            (decimal-IsPlain dtls.rekey_time),
        (
          IsPlain-of (text "X-DTLS-Rekey-Method: ssl") refl,
          (
            labelled (text "X-DTLS-Keepalive: ") (decimal dtls.keepalive) refl
                (decimal-IsPlain dtls.keepalive),
            (IsPlain-of (text "X-DTLS-DPD: 30") refl, tt),
          ),
        ),
      ),
    ),
  ),
)
dtls_lines-IsPlain config (some (legacy dtls)) (h, k) = (
  labelled (text "X-DTLS-Port: ") (decimal dtls.port) refl (decimal-IsPlain dtls.port),
  (
    labelled (text "X-DTLS-Session-ID: ") (dtls.session_id) refl h,
    (
      cipher_name-IsPlain dtls.ciphersuite_is_dtls12 dtls.ciphersuite k,
      (
        labelled (text "X-DTLS-Rekey-Time: ") (decimal dtls.rekey_time) refl
            (decimal-IsPlain dtls.rekey_time),
        (
          IsPlain-of (text "X-DTLS-Rekey-Method: ssl") refl,
          (
            labelled (text "X-DTLS-Keepalive: ") (decimal dtls.keepalive) refl
                (decimal-IsPlain dtls.keepalive),
            (
              IsPlain-of (text "X-DTLS-DPD: 30") refl,
              (
                labelled (text "X-DTLS-MTU: ") (decimal (data_mtu config)) refl
                    (decimal-IsPlain (data_mtu config)),
                tt,
              ),
            ),
          ),
        ),
      ),
    ),
  ),
)

pub connect_lines-IsPlain :
    (config : NetworkConfig) (dtls_config : Option DtlsConfig) (ip : ℕ)
    → IsClean config dtls_config
    → All IsPlain (connect_lines config dtls_config ip)
unfolding connect_lines text is_plain
connect_lines-IsPlain config dtls_config ip h =
    All-append (core_lines config ip) _ (core_lines-IsPlain config ip) (
      All-append (map dns_line config.dns_servers) _
        (labelled-All (text "X-CSTP-DNS: ") config.dns_servers refl h.dns_plain)
        (All-append (map route_line config.split_include) (dtls_lines config dtls_config)
          (labelled-All (text "X-CSTP-Split-Include: ") config.split_include refl h.routes_plain)
          (dtls_lines-IsPlain config dtls_config h.dtls_plain)))
