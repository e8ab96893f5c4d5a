-- ===== src/Auth/Session/Fresh.antt =====
-- New sessions: what a fresh draw of id and token gives, and what a repeated id does.
use ocserv_rs.Base.{
  ℕ, ◌≡◌, ◌≢◌, refl, ◌∙◌, Option, none, some, [], ◌∷◌, if◌then◌else◌, arith, Bool-cases, inl, inr,
}
use ocserv_rs.Base.Text.{Text}
use ocserv_rs.Base.Eq.{◌==◌, bytes_eq, list_beq_iff}
use ocserv_rs.Base.HashMap
use ocserv_rs.Base.HashMap.{HashMap}
use ocserv_rs.Auth.User.{UserInfo}
use ocserv_rs.Auth.Session.{
  VpnSession, Sessions, new_session, create_session, get_session, get_session_by_token,
}

-- No two sessions have one token.
abbrev pub TokensDistinct : Sessions → Type 0
TokensDistinct [] = Unit
TokensDistinct ((k, s) ∷ m) = (get_session_by_token s.session_token m ≡ none) × TokensDistinct m

abbrev or_else : Option VpnSession → Option VpnSession → Option VpnSession
or_else none o = o
or_else (some s) o = some s

by_token-insert :
    (k t : Text) (s : VpnSession) (m : Sessions)
    → HashMap.get k m ≡ none
    → get_session_by_token t (HashMap.insert k s m)
      ≡ or_else (get_session_by_token t m) (if s.session_token == t then some s else none)
unfolding get_session_by_token HashMap.insert HashMap.get
by_token-insert k t s [] h = refl
by_token-insert k t s ((j, x) ∷ m) h = ground (arith, by_token-insert k t s m)

-- With an id and a token that no session has, the new session is found by its id and by its token,
-- with no tunnel, and every other id and token leads where it led before.
pub create_session_fresh :
    (id token : Text) (now : ℕ) (user : UserInfo) (ctx : Option Text) (m : Sessions) (i t : Text)
    → get_session id m ≡ none
    → get_session_by_token token m ≡ none
    → let s = new_session id token now user ctx in
      let after = (create_session id token now user ctx m).0 in
      (get_session i after ≡ (if id == i then some s else get_session i m))
      × (get_session_by_token t after ≡ (if token == t then some s else get_session_by_token t m))
unfolding create_session get_session new_session
create_session_fresh id token now user ctx m i t h k =
    (HashMap.get-insert id i _ m, by_token-insert id t _ m h ∙ ground (arith, list_beq_iff token t))

by_token_of_get :
    (k : Text) (s : VpnSession) (m : Sessions)
    → HashMap.get k m ≡ some s
    → get_session_by_token s.session_token m ≢ none
unfolding get_session_by_token HashMap.get
by_token_of_get k s [] h = λ e. cc
by_token_of_get k s ((j, x) ∷ m) h =
    ground (arith, by_token_of_get k s m, list_beq_iff s.session_token s.session_token)

by_token-insert_over :
    (k : Text) (old s : VpnSession) (m : Sessions)
    → TokensDistinct m
    → HashMap.get k m ≡ some old
    → s.session_token ≢ old.session_token
    → get_session_by_token old.session_token (HashMap.insert k s m) ≡ none
unfolding get_session_by_token HashMap.insert HashMap.get
by_token-insert_over k old s [] d h n = cc
by_token-insert_over k old s ((j, x) ∷ m) d h n = elim (Bool-cases (j == k)) [
  | inl same ↦ rw same (ground (arith, d.0, list_beq_iff s.session_token old.session_token))
  | inr other ↦ rw other (
      ground (
        arith,
        d.0,
        by_token_of_get k old m,
        list_beq_iff x.session_token old.session_token,
        by_token-insert_over k old s m d.1,
      ))
]

-- The session id is a random number of 32 bits, and nothing checks that it is free: a draw that
-- repeats the id of a session overwrites it, so the token of that session's user is refused from
-- then on.
pub create_session_collision :
    (id token : Text) (now : ℕ) (user : UserInfo) (ctx : Option Text) (m : Sessions)
    (old : VpnSession)
    → TokensDistinct m
    → get_session id m ≡ some old
    → token ≢ old.session_token
    → get_session_by_token old.session_token (create_session id token now user ctx m).0 ≡ none
unfolding create_session get_session new_session
create_session_collision id token now user ctx m old d h n = by_token-insert_over id old _ m d h n
