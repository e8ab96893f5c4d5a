-- ===== src/Vpn/Dtls/Hello/Laws.antt =====
-- Which packets carry a session id.
use ocserv_rs.Base.{
  ℕ, zero, suc, ◌+◌, ◌≤◌, ◌<◌, ◌≡◌, ◌↔◌, refl, ap, some, [], ◌∷◌, ◌++◌, length, take, drop, arith,
  length-append, take-append-drop, drop-drop, drop-length-append, take-length-append, length-take,
  length-drop, subst, sym, ◌∙◌,
}
use ocserv_rs.Base.Text.{Text, Bytes}
use ocserv_rs.Base.Eq.{nat_eq}
use ocserv_rs.Vpn.Dtls.Hello.{byte_at, extract_session_id, extract_session_id_from_client_hello}

-- A handshake record with a ClientHello that carries a session id: 59 bytes up to the end of the
-- random, the length of the id, the id, and the rest.
pub record ClientHello (packet session_id : Bytes) : Type 0 where
  pub head : Bytes
  pub rest : Bytes
  pub layout : packet ≡ head ++ length session_id ∷ (session_id ++ rest)
  pub head_length : length head ≡ 59
  pub content_type : byte_at 0 head ≡ 22
  pub handshake_type : byte_at 13 head ≡ 1
  pub nonempty : 0 < length session_id

byte_at-append : (i : ℕ) (s t : Bytes) → i < length s → byte_at i (s ++ t) ≡ byte_at i s
byte_at-append i [] t h = absurd (omega arith)
byte_at-append zero (c ∷ s) t h = refl
byte_at-append (suc i) (c ∷ s) t h = byte_at-append i s t (omega arith)

byte_at-end : (s t : Bytes) (c : ℕ) → byte_at (length s) (s ++ c ∷ t) ≡ c
byte_at-end [] t c = refl
byte_at-end (b ∷ s) t c = byte_at-end s t c

drop-byte : (i : ℕ) (s : Bytes) → i < length s → drop i s ≡ byte_at i s ∷ drop (suc i) s
drop-byte i [] h = absurd (omega arith)
drop-byte zero (c ∷ s) h = refl
drop-byte (suc i) (c ∷ s) h = drop-byte i s (omega arith)

byte_at-take : (i n : ℕ) (s : Bytes) → i < n → byte_at i (take n s) ≡ byte_at i s
byte_at-take i zero s h = absurd (omega arith)
byte_at-take i (suc n) [] h = refl
byte_at-take zero (suc n) (c ∷ s) h = refl
byte_at-take (suc i) (suc n) (c ∷ s) h = byte_at-take i n s (omega arith)

drop-head : (head t : Bytes) (c : ℕ) → length head ≡ 59 → drop 60 (head ++ c ∷ t) ≡ t
drop-head head t c h =
    subst (λ n. drop (n + 1) (head ++ c ∷ t) ≡ t) h
      (rw (drop-drop (length head) 1 (head ++ c ∷ t), drop-length-append head (c ∷ t)) refl)

-- The tests that a packet passes, with the session id that is then taken from it.
record Passes (packet : Bytes) : Type 0 where
  pub content_type : byte_at 0 packet ≡ 22
  pub handshake_type : byte_at 13 packet ≡ 1
  pub nonempty : 0 < byte_at 59 packet
  pub long_enough : 60 + byte_at 59 packet ≤ length packet

abbrev id_of : Bytes → Bytes
id_of packet = take (byte_at 59 packet) (drop 60 packet)

extract-Passes :
    (hex : Bytes → Text) (packet : Bytes)
    → Passes packet
    → extract_session_id_from_client_hello hex packet ≡ some (hex (id_of packet))
unfolding extract_session_id_from_client_hello extract_session_id
extract-Passes hex packet h =
    ground (arith, h.content_type, h.handshake_type, h.nonempty, h.long_enough)

Passes-of_extract :
    (hex : Bytes → Text) (packet : Bytes) (id : Text)
    → extract_session_id_from_client_hello hex packet ≡ some id
    → Passes packet × (hex (id_of packet) ≡ id)
unfolding extract_session_id_from_client_hello extract_session_id
Passes-of_extract hex packet id e = (
  record {
    content_type = ground arith;
    handshake_type = ground arith;
    nonempty = ground arith;
    long_enough = ground arith;
  },
  ground arith,
)

byte_59 : (head t : Bytes) (c : ℕ) → length head ≡ 59 → byte_at 59 (head ++ c ∷ t) ≡ c
byte_59 head t c h = subst (λ n. byte_at n (head ++ c ∷ t) ≡ c) h (byte_at-end head t c)

Passes-hello :
    (head session_id rest : Bytes)
    → length head ≡ 59
    → byte_at 0 head ≡ 22
    → byte_at 13 head ≡ 1
    → 0 < length session_id
    → Passes (head ++ length session_id ∷ (session_id ++ rest))
Passes-hello head session_id rest l c t n =
    let body = length session_id ∷ (session_id ++ rest) in
    let n59 = byte_59 head (session_id ++ rest) (length session_id) l in
    record {
      content_type = byte_at-append 0 head body (omega arith) ∙ c;
      handshake_type = byte_at-append 13 head body (omega arith) ∙ t;
      nonempty = omega (arith, n59);
      long_enough = omega (arith, n59, length-append head body, length-append session_id rest);
    }

id_of-hello :
    (head session_id rest : Bytes)
    → length head ≡ 59
    → id_of (head ++ length session_id ∷ (session_id ++ rest)) ≡ session_id
id_of-hello head session_id rest l =
    rw
      (
        byte_59 head (session_id ++ rest) (length session_id) l,
        drop-head head (session_id ++ rest) (length session_id) l,
      )
      (take-length-append session_id rest)

-- A ClientHello's session id is extracted.
pub extract-ClientHello :
    (hex : Bytes → Text) (packet session_id : Bytes)
    → ClientHello packet session_id
    → extract_session_id_from_client_hello hex packet ≡ some (hex session_id)
extract-ClientHello hex packet sid h =
    let packed = h.head ++ length sid ∷ (sid ++ h.rest) in
    subst (λ p. extract_session_id_from_client_hello hex p ≡ some (hex sid)) (sym h.layout)
      (extract-Passes hex packed
          (Passes-hello h.head sid h.rest h.head_length h.content_type h.handshake_type h.nonempty)
        ∙ ap (λ i. some (hex i)) (id_of-hello h.head sid h.rest h.head_length))

length-id_of : (packet : Bytes) → Passes packet → length (id_of packet) ≡ byte_at 59 packet
length-id_of packet h =
    omega (
      arith,
      h.long_enough,
      length-take (byte_at 59 packet) (drop 60 packet),
      length-drop 60 packet,
    )

ClientHello_of_Passes : (packet : Bytes) → Passes packet → ClientHello packet (id_of packet)
ClientHello_of_Passes packet h = record {
  head = take 59 packet;
  rest = drop (byte_at 59 packet) (drop 60 packet);
  layout =
      sym (take-append-drop 59 packet)
      ∙ ap (◌++◌ (take 59 packet)) (
          rw
            (
              drop-byte 59 packet (omega (arith, h.long_enough)),
              length-id_of packet h,
              take-append-drop (byte_at 59 packet) (drop 60 packet),
            )
            refl);
  head_length = omega (arith, length-take 59 packet, h.long_enough);
  content_type = byte_at-take 0 59 packet (omega arith) ∙ h.content_type;
  handshake_type = byte_at-take 13 59 packet (omega arith) ∙ h.handshake_type;
  nonempty = omega (arith, length-id_of packet h, h.nonempty);
}

-- A session id is extracted from nothing but a ClientHello that carries it.
pub ClientHello_of_extract :
    (hex : Bytes → Text) (packet : Bytes) (id : Text)
    → extract_session_id_from_client_hello hex packet ≡ some id
    → (session_id : Bytes) × ClientHello packet session_id × (hex session_id ≡ id)
ClientHello_of_extract hex packet id e =
    let (h, same) = Passes-of_extract hex packet id e in
    (id_of packet, ClientHello_of_Passes packet h, same)

-- A session id is extracted from a ClientHello that carries it and from no other packet.
pub extract_iff :
    (hex : Bytes → Text) (packet : Bytes) (id : Text)
    → (extract_session_id_from_client_hello hex packet ≡ some id)
      ↔ ((session_id : Bytes) × ClientHello packet session_id × (hex session_id ≡ id))
extract_iff hex packet id = (
  ClientHello_of_extract hex packet id,
  λ (session_id, h, same). rw (← same) (extract-ClientHello hex packet session_id h),
)
