-- ===== src/Control/Laws.antt =====
-- Who is shown, and when.
use ocserv_rs.Base.{
  ℕ, ◌≤◌, ◌≡◌, ◌≢◌, refl, ap, sym, ◌∙◌, Option, none, some, Bool, true, false, List, [], ◌∷◌, ◌++◌,
  All, length, find_first, arith, Bool-cases, inl, inr, map, if◌then◌else◌,
}
use ocserv_rs.Base.Text.{Text}
use ocserv_rs.Base.Eq.{◌==◌, bytes_eq}
use ocserv_rs.Auth.Session.{
  SocketAddr, VpnSession, Sessions, values, get_session_by_token, register_tunnel, connect,
}
use ocserv_rs.Control.{Clock, UserSessionInfo, info_of, push_active, active, active_users}

-- A list with one more entry at some place.
pub record IsInserted (u : UserSessionInfo) (before_all after_all : List UserSessionInfo)
    : Type 0 where
  pub before : List UserSessionInfo
  pub behind : List UserSessionInfo
  pub old : before_all ≡ before ++ behind
  pub inserted : after_all ≡ before ++ u ∷ behind

push-IsInserted :
    (clock : Clock) (s : VpnSession) (o : Option Text) (u : UserSessionInfo)
    (xs ys : List UserSessionInfo)
    → IsInserted u xs ys
    → IsInserted u (push_active clock s o xs) (push_active clock s o ys)
push-IsInserted clock s none u xs ys h = h
push-IsInserted clock s (some ip) u xs ys h = record {
  before = info_of clock s ip ∷ h.before;
  behind = h.behind;
  old = ap (◌∷◌ (info_of clock s ip)) h.old;
  inserted = ap (◌∷◌ (info_of clock s ip)) h.inserted;
}

-- When a tunnel is registered on a session that had none, the list of active users gains exactly one
-- entry, that session's, with the tunnel's address; the others stay as they are.
pub active_users-register_tunnel :
    (clock : Clock) (token vpn_ip agent : Text) (peer : SocketAddr) (now : ℕ) (m : Sessions)
    (s : VpnSession)
    → get_session_by_token token m ≡ some s
    → s.vpn_ip ≡ none
    → IsInserted
        (info_of clock (connect vpn_ip peer agent now s) vpn_ip)
        (active_users clock m)
        (active_users clock (register_tunnel token vpn_ip peer agent now m))
unfolding active_users register_tunnel get_session_by_token connect
active_users-register_tunnel clock token vpn_ip agent peer now [] s e h = cc
active_users-register_tunnel clock token vpn_ip agent peer now ((k, x) ∷ m) s e h =
    elim (Bool-cases (x.session_token == token)) [
      | inl same ↦ record {
        before = [];
        behind = active clock (values m);
        old = ground arith;
        inserted = ground arith;
      }
      | inr other ↦ rw other (
          push-IsInserted clock x x.vpn_ip _ _ _
            (active_users-register_tunnel clock token vpn_ip agent peer now m s (rw other at e) h))
    ]

-- Whoever is listed has a tunnel address, and there are no more entries than sessions.
pub active_users_have_ip :
    (clock : Clock) (m : Sessions)
    → All (λ u. u.vpn_ip ≢ none) (active_users clock m) × (length (active_users clock m) ≤ length m)
unfolding active_users info_of
active_users_have_ip clock [] = (tt, omega arith)
active_users_have_ip clock ((k, s) ∷ m) = go s.vpn_ip (active_users_have_ip clock m)
  where
    go :
        (o : Option Text)
        → All (λ u. u.vpn_ip ≢ none) (active clock (values m))
          × (length (active clock (values m)) ≤ length m)
        → All (λ u. u.vpn_ip ≢ none) (push_active clock s o (active clock (values m)))
          × (length (push_active clock s o (active clock (values m)))
              ≤ ocserv_rs.Base.suc (length m))
    go none (h, l) = (h, omega arith)
    go (some ip) (h, l) = (((λ e. cc), h), omega arith)
