-- ===== src/Auth/Revoked.antt =====
-- A session that was revoked stays revoked: no statement of src/database/auth-repository.ts opens it again,
-- and none stores a second session with its token.
use micro_jbase.Base.{
  arith, ℕ, ◌≡◌, refl, ◌∙◌, subst, true, false, ◌&&◌, Bool-cases, inl, inr, Option, none, some,
  List, [], ◌∷◌, All, map, Returned, Returned-if, Result, Text, text_eq, text_eq→eq,
}
use micro_jbase.Errors.{Thrown}
use micro_jbase.Platform.{Platform}
use micro_jbase.Transactions.Kept.{QueryKeeps}
use micro_jbase.Auth.{Bytes, Session, UserRecord}
use micro_jbase.Auth.Repository.{
  AuthTables, if_some, has_token_hash, find_active, is_live, is_open, revoked, revoke_sessions,
  insert_user, insert_session, find_user_by_email, find_user_by_id,
}

pub Returned-if_some :
    {A B : Type 0} (P : B → Type 0) (found : Option A) (m n : Result Thrown B)
    → Returned P m
    → Returned P n
    → Returned P (if_some found m n)
Returned-if_some P none m n h k = k
Returned-if_some P (some a) m n h k = h

module _ (hash : Bytes) where
  -- not an open session of this token
  abbrev pub IsShut : Session → Type 0
  IsShut s = (text_eq s.token_hash hash && is_open s.revoked_at) ≡ false

  -- There is a session of the token, and none of them is open.
  abbrev pub IsRevoked : AuthTables → Type 0
  IsRevoked t = (has_token_hash hash t.sessions ≡ true) × All IsShut t.sessions

  pub find_active-none :
      (now : ℕ) (users : List UserRecord) (sessions : List Session)
      → All IsShut sessions
      → find_active hash now users sessions ≡ none
  unfolding find_active is_live
  find_active-none now users [] h = refl
  find_active-none now users (s ∷ ss) h = ground (arith, find_active-none now users ss h.1)

  other_hash :
      (new : Bytes) (sessions : List Session)
      → has_token_hash new sessions ≡ false
      → has_token_hash hash sessions ≡ true
      → text_eq new hash ≡ false
  other_hash new sessions h k = elim (Bool-cases (text_eq new hash)) [
    | inl same ↦
        let both = subst (λ n. has_token_hash n sessions ≡ false) (text_eq→eq new hash same) h in
        cc both
    | inr other ↦ other
  ]

  module _ (platform : Platform) (uuid : ℕ → Text) where
    pub insert_user-keeps :
        (email password_hash : Text)
        → QueryKeeps IsRevoked (insert_user platform uuid email password_hash)
    unfolding insert_user
    insert_user-keeps email password_hash t h =
        Returned-if_some (λ r. IsRevoked r.1) (find_user_by_email email t.users) _ _ tt h

    pub insert_session-keeps :
        (user_id : Text) (new : Bytes) (expires : ℕ)
        → QueryKeeps IsRevoked (insert_session platform uuid user_id new expires)
    unfolding insert_session has_token_hash
    insert_session-keeps user_id new expires t h =
        Returned-if (λ r. IsRevoked r.1) (has_token_hash new t.sessions) _ _ (λ known. tt)
          λ fresh.
            Returned-if_some (λ r. IsRevoked r.1) (find_user_by_id user_id t.users) _ _
              (added (other_hash new t.sessions fresh h.0)) tt
      where
        added :
            text_eq new hash ≡ false
            → (has_token_hash hash (
                  record {
                    id = uuid t.next;
                    user_id = user_id;
                    token_hash = new;
                    expires_at = expires;
                    created_at = t.clock;
                    revoked_at = none;
                  }
                  ∷ t.sessions)
                ≡ true)
              × All IsShut (
                  record {
                    id = uuid t.next;
                    user_id = user_id;
                    token_hash = new;
                    expires_at = expires;
                    created_at = t.clock;
                    revoked_at = none;
                  }
                  ∷ t.sessions)
        added other = (rw other h.0, (rw other refl, h.1))

  revoke-All :
      (other : Bytes) (at : ℕ) (sessions : List Session)
      → All IsShut sessions
      → All IsShut (map (revoked other at) sessions)
  revoke-All other at [] h = tt
  revoke-All other at (s ∷ ss) h = (ground arith, revoke-All other at ss h.1)

  revoke_has :
      (other : Bytes) (at : ℕ) (sessions : List Session)
      → has_token_hash hash (map (revoked other at) sessions) ≡ has_token_hash hash sessions
  unfolding has_token_hash
  revoke_has other at [] = refl
  revoke_has other at (s ∷ ss) = ground (arith, revoke_has other at ss)

  pub revoke_sessions-keeps :
      (other : Bytes) (at : ℕ) → QueryKeeps IsRevoked (revoke_sessions other at)
  unfolding revoke_sessions
  revoke_sessions-keeps other at t h =
      (revoke_has other at t.sessions ∙ h.0, revoke-All other at t.sessions h.1)

  revoke_shuts : (at : ℕ) (sessions : List Session) → All IsShut (map (revoked hash at) sessions)
  revoke_shuts at [] = tt
  revoke_shuts at (s ∷ ss) = (ground arith, revoke_shuts at ss)

  -- after the revocation no session of the token is open
  pub revoke_sessions-IsRevoked :
      (at : ℕ) (t : AuthTables)
      → has_token_hash hash t.sessions ≡ true
      → Returned (λ r. IsRevoked r.1) (revoke_sessions hash at t)
  unfolding revoke_sessions
  revoke_sessions-IsRevoked at t h = (revoke_has hash at t.sessions ∙ h, revoke_shuts at t.sessions)
