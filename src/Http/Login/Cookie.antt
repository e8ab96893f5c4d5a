-- ===== src/Http/Login/Cookie.antt =====
-- The cookie of a login, and the session that it opens.
use ocserv_rs.Base.{
  ℕ, ◌≡◌, ◌≢◌, refl, ap, sym, subst, ◌∙◌, ok, Option, none, some, Bool, true, false, not, ◌&&◌,
  nat_beq, [], ◌∷◌, ◌++◌, reverse, All, arith, List, if◌then◌else◌, nat_beq_iff,
}
use ocserv_rs.Base.Text.{Text, Bytes, text, trim, trim_start, is_space, starts_with}
use ocserv_rs.Base.Split.{Lacks, split-one}
use ocserv_rs.Base.Utf8.{from_utf8, is_utf8}
use mathlib.Core.List.{reverse-cons, reverse-reverse}
use ocserv_rs.Base.Eq.{◌==◌, bytes_eq, eq_refl, list_beq}
use ocserv_rs.Http.State.{LoginState}
use ocserv_rs.Auth.User.{UserInfo}
use ocserv_rs.Auth.Session.{create_session, new_session, get_session, get_session_by_token}
use ocserv_rs.Auth.Session.Fresh.{create_session_fresh}
use ocserv_rs.Http.Login.{
  Handlers, Template, auth_complete_for, or_text, default_banner, to_uppercase, log_in,
  create_auth_success_response_for_session,
}
use ocserv_rs.Http.Response.{with_header, with_body, ok_response, new}
use ocserv_rs.Http.Cookie.{extract_webvpn_token, token_in, decode_token}

-- A byte that a cookie's value may have: no semicolon and no white space.
abbrev pub IsCookieByte : ℕ → Type 0
IsCookieByte c = (c ≢ b';') × (is_space c ≡ false)

pub IsCookieByte-Lacks : (s : Text) → All IsCookieByte s → Lacks b';' s
IsCookieByte-Lacks [] h = tt
IsCookieByte-Lacks (c ∷ s) ((n, sp), hs) = (n, IsCookieByte-Lacks s hs)

-- The same as a test.
abbrev clean : Text → Bool
clean [] = true
clean (c ∷ s) = not (nat_beq c b';') && (not (is_space c) && clean s)

pub clean-IsCookieByte : (s : Text) → clean s ≡ true → All IsCookieByte s
clean-IsCookieByte [] h = tt
clean-IsCookieByte (c ∷ s) h = ((ground arith, ground arith), clean-IsCookieByte s (ground arith))

trim_start-none : (s : Text) → All IsCookieByte s → trim_start s ≡ s
unfolding trim_start
trim_start-none [] h = refl
trim_start-none (c ∷ s) ((n, sp), h) = rw sp refl

All-snoc : (s : Text) (c : ℕ) → All IsCookieByte s → IsCookieByte c → All IsCookieByte (s ++ c ∷ [])
All-snoc [] c h k = (k, tt)
All-snoc (b ∷ s) c (h, hs) k = (h, All-snoc s c hs k)

All-reverse : (s : Text) → All IsCookieByte s → All IsCookieByte (reverse s)
All-reverse [] h = tt
All-reverse (c ∷ s) (h, hs) =
    subst (All IsCookieByte) (sym (reverse-cons c s)) (All-snoc (reverse s) c (All-reverse s hs) h)

pub trim-none : (s : Text) → All IsCookieByte s → trim s ≡ s
unfolding trim
trim-none s h =
    ap (λ t. reverse (trim_start (reverse t))) (trim_start-none s h)
    ∙ (ap reverse (trim_start-none (reverse s) (All-reverse s h)) ∙ reverse-reverse s)

pub IsCookieByte-append :
    (s t : Text) → All IsCookieByte s → All IsCookieByte t → All IsCookieByte (s ++ t)
IsCookieByte-append [] t h k = k
IsCookieByte-append (c ∷ s) t (h, hs) k = (h, IsCookieByte-append s t hs k)

name-IsCookieByte : All IsCookieByte (text "webvpn=")
unfolding text is_space
name-IsCookieByte = clean-IsCookieByte (text "webvpn=") refl

-- The cookie with an encoded token gives the token back.
extract-webvpn :
    (decode : Text → Option Bytes) (encoded token : Text)
    → All IsCookieByte encoded
    → decode encoded ≡ some token
    → is_utf8 token ≡ true
    → extract_webvpn_token decode (text "webvpn=" ++ encoded) ≡ some token
unfolding extract_webvpn_token token_in decode_token from_utf8
extract-webvpn decode encoded token clean d u =
    let whole = IsCookieByte-append (text "webvpn=") encoded name-IsCookieByte clean in
    rw
      (
        split-one b';' (text "webvpn=" ++ encoded)
            (IsCookieByte-Lacks (text "webvpn=" ++ encoded) whole),
        trim-none (text "webvpn=" ++ encoded) whole,
        d,
        u,
      )
      refl

-- A header as a client keeps it: the part of a value before its first semicolon.
abbrev pub before_semicolon : Text → Text
before_semicolon [] = []
before_semicolon (c ∷ s) = let rest = before_semicolon s in if nat_beq c b';' then [] else c ∷ rest

abbrev or_earlier : Option Text → Option Text → Option Text
or_earlier none earlier = earlier
or_earlier (some cookie) earlier = some cookie

abbrev kept_from : Text → Text × Text → Option Text
kept_from name (k, v) =
    if k == text "Set-Cookie" && starts_with (name ++ text "=") v
    then some (before_semicolon v)
    else none

-- What a client sends back as its cookie of this name: of the response's headers Set-Cookie, the last
-- one with the name, without its attributes.
unfoldable pub kept_cookie : Text → List (Text × Text) → Option Text
unfolding starts_with list_beq text
kept_cookie name [] = none
kept_cookie name (h ∷ headers) = or_earlier (kept_cookie name headers) (kept_from name h)

before_semicolon-append :
    (s rest : Text) → All IsCookieByte s → before_semicolon (s ++ b';' ∷ rest) ≡ s
before_semicolon-append [] rest h = refl
before_semicolon-append (c ∷ s) rest ((n, sp), h) =
    ground (arith, before_semicolon-append s rest h, nat_beq_iff c b';')

-- Every template is rendered.
abbrev pub Renders : Handlers → Type 0
Renders h = (t : Template) → (xml : Text) × (h.render t ≡ ok xml)

-- The answer to a login leaves a client with the cookie of the session's token.
kept_cookie-answer :
    (h : Handlers) (token id : Text)
    → Renders h
    → All IsCookieByte (h.around.crypto.base64_encode token)
    → kept_cookie (text "webvpn") (create_auth_success_response_for_session h token id).headers
      ≡ some (text "webvpn=" ++ h.around.crypto.base64_encode token)
unfolding create_auth_success_response_for_session kept_cookie with_header with_body ok_response new
    text starts_with list_beq
kept_cookie-answer h token id renders clean =
    let (xml, e) =
      renders
        (auth_complete_for (or_text h.banner default_banner) id token (to_uppercase h.cert_hash)) in
    rw e (ap (λ t. some (text "webvpn=" ++ t)) (before_semicolon-append _ _ clean))

-- The answer to a user whom the manager has accepted leaves a client with a cookie that opens a session:
-- the cookie gives the token drawn, and it finds the new session of the user. Conditions: the templates
-- are rendered, the base64 of the token has neither semicolons nor white space and is decoded to the
-- token, which is text, and no session has the id and the token drawn.
pub login_opens :
    (h : Handlers) (info : UserInfo) (m : LoginState)
    → Renders h
    → All IsCookieByte (h.around.crypto.base64_encode h.around.drawn_token)
    → h.around.crypto.base64_decode (h.around.crypto.base64_encode h.around.drawn_token)
      ≡ some h.around.drawn_token
    → is_utf8 h.around.drawn_token ≡ true
    → get_session h.around.drawn_id m.sessions ≡ none
    → get_session_by_token h.around.drawn_token m.sessions ≡ none
    → (cookie : Text) × (kept_cookie (text "webvpn") (log_in h (ok info) m).1.headers ≡ some cookie)
      × (extract_webvpn_token h.around.crypto.base64_decode cookie ≡ some h.around.drawn_token)
      × (get_session_by_token h.around.drawn_token (log_in h (ok info) m).0.sessions
          ≡ some (new_session h.around.drawn_id h.around.drawn_token h.around.now info none))
unfolding log_in create_session new_session
login_opens h info m renders clean d u no_id no_token =
    let (_, found) =
      create_session_fresh h.around.drawn_id h.around.drawn_token h.around.now info none m.sessions
        h.around.drawn_id h.around.drawn_token no_id no_token in
    (
      text "webvpn=" ++ h.around.crypto.base64_encode h.around.drawn_token,
      kept_cookie-answer h h.around.drawn_token h.around.drawn_id renders clean,
      extract-webvpn h.around.crypto.base64_decode
          (h.around.crypto.base64_encode h.around.drawn_token) h.around.drawn_token clean d u,
      found ∙ rw (eq_refl h.around.drawn_token) refl,
    )
