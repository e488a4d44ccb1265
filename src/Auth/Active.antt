-- ===== src/Auth/Active.antt =====
-- Whom `authenticate` of src/auth/service.ts accepts: the user of a session of the token that is neither
-- revoked nor expired.
use micro_jbase.Base.{
  ℕ, ◌<◌, ◌≡◌, refl, ok_subst, true, ◌&&◌, &&-true, Bool-cases, inl, inr, Option, none, some, List,
  [], ◌∷◌, Result, ok, err, Text, text_eq, text_eq→eq, ltb, ltb→lt,
}
use mathlib.Core.List.{Memᴰ}
use micro_jbase.Errors.{Thrown}
use micro_jbase.Platform.{Platform}
use micro_jbase.Transactions.{Database}
use micro_jbase.Auth.{Bytes, Crypto, Session, UserRecord, AuthenticatedUser}
use micro_jbase.Auth.Tokens.{hash_raw_token}
use micro_jbase.Auth.Repository.{
  AuthTables, find_user_by_id, find_active, find_active_user_by_token_hash, is_live, is_open,
  authenticated, or_later,
}
use micro_jbase.Auth.Service.{and_then, authenticate, authenticate_hash, or_unauthenticated}
use micro_jbase.Auth.Sessions.{Answers, pool_query-Answers}
use micro_jbase.Auth.Accounts.{postgres_repository}

-- the predicate on what is found, if anything is
abbrev pub Found : {A : Type 0} → (A → Type 0) → Option A → Type 0
Found P none = Unit
Found P (some a) = P a

Found-map :
    {A : Type 0} (P Q : A → Type 0) (found : Option A)
    → ((a : A) → P a → Q a)
    → Found P found
    → Found Q found
Found-map P Q none f h = tt
Found-map P Q (some a) f h = f a h

-- The account has this id.
abbrev Owns : Text → List UserRecord → UserRecord → Type 0
Owns id users found = Memᴰ found users × (found.user.id ≡ id)

find_user_by_id-Owns :
    (id : Text) (users : List UserRecord) → Found (Owns id users) (find_user_by_id id users)
unfolding find_user_by_id
find_user_by_id-Owns id [] = tt
find_user_by_id-Owns id (u ∷ us) = elim (Bool-cases (text_eq u.user.id id)) [
  | inl same ↦ rw same (Memᴰ.head refl, text_eq→eq u.user.id id same)
  | inr other ↦ rw other (
      Found-map (Owns id us) (Owns id (u ∷ us)) (find_user_by_id id us)
        (λ found h. (Memᴰ.tail h.0, h.1)) (find_user_by_id-Owns id us))
]

-- The user has a session of the token that is neither revoked nor expired.
abbrev pub IsActive : Bytes → ℕ → List UserRecord → List Session → AuthenticatedUser → Type 0
IsActive hash now users sessions user =
    (session : Session) × (account : UserRecord) × Memᴰ session sessions
    × Memᴰ account users
    × (session.token_hash ≡ hash)
    × (session.revoked_at ≡ none)
    × (now < session.expires_at)
    × (account.user.id ≡ session.user_id)
    × (user ≡ authenticated account)

open-eq-none : (revoked_at : Option ℕ) → is_open revoked_at ≡ true → revoked_at ≡ none
open-eq-none none h = refl
open-eq-none (some t) h = cc

module _ (hash : Bytes) (now : ℕ) (users : List UserRecord) where
  later-IsActive :
      (s : Session) (ss : List Session) (user : AuthenticatedUser)
      → IsActive hash now users ss user
      → IsActive hash now users (s ∷ ss) user
  later-IsActive s ss user (session, account, m, n, a, b, c, d, e) =
      (session, account, Memᴰ.tail m, n, a, b, c, d, e)

  joined :
      (s : Session) (ss : List Session) (owner : Option UserRecord)
      (later : Option AuthenticatedUser)
      → is_live hash now s ≡ true
      → Found (Owns s.user_id users) owner
      → Found (IsActive hash now users ss) later
      → Found (IsActive hash now users (s ∷ ss)) (or_later owner later)
  unfolding is_live
  joined s ss none later live h k =
      Found-map (IsActive hash now users ss) (IsActive hash now users (s ∷ ss)) later
        (later-IsActive s ss) k
  joined s ss (some u) later live h k =
      let tests =
        &&-true (text_eq s.token_hash hash) (is_open s.revoked_at && ltb now s.expires_at) live in
      let times = &&-true (is_open s.revoked_at) (ltb now s.expires_at) tests.1 in
      (
        s,
        u,
        Memᴰ.head refl,
        h.0,
        text_eq→eq s.token_hash hash tests.0,
        open-eq-none s.revoked_at times.0,
        ltb→lt now s.expires_at times.1,
        h.1,
        refl,
      )

  find_active-IsActive :
      (sessions : List Session)
      → Found (IsActive hash now users sessions) (find_active hash now users sessions)
  unfolding find_active
  find_active-IsActive [] = tt
  find_active-IsActive (s ∷ ss) = elim (Bool-cases (is_live hash now s)) [
    | inl live ↦ rw live (
        joined s ss (find_user_by_id s.user_id users) (find_active hash now users ss) live
          (find_user_by_id-Owns s.user_id users) (find_active-IsActive ss))
    | inr dead ↦ rw dead (
        Found-map (IsActive hash now users ss) (IsActive hash now users (s ∷ ss))
          (find_active hash now users ss) (later-IsActive s ss) (find_active-IsActive ss))
  ]

module _ (platform : Platform) (uuid : ℕ → Text) (crypto : Crypto) (ttl : ℕ) (now : ℕ)
    (s : Database AuthTables) where
  found-IsActive :
      (hash : Bytes) (run : Result Thrown (Option AuthenticatedUser) × Database AuthTables)
      (user : AuthenticatedUser)
      → Answers platform (λ t. ok (find_active hash now t.users t.sessions, t)) s run
      → (and_then run
          (or_unauthenticated platform crypto ttl (postgres_repository platform uuid))).0
        ≡ ok user
      → IsActive hash now s.committed.users s.committed.sessions user
  found-IsActive hash (ok none, t) user answer e = cc
  found-IsActive hash (ok (some found), t) user answer e =
      let active = find_active-IsActive hash now s.committed.users s.committed.sessions in
      let same =
        ok_subst (λ r. Found (IsActive hash now s.committed.users s.committed.sessions) r.0)
          (find_active hash now s.committed.users s.committed.sessions, s.committed) answer
          active in
      ok_subst (IsActive hash now s.committed.users s.committed.sessions) found e same
  found-IsActive hash (err thrown, t) user answer e = cc

  of_hash :
      (hash : Option Bytes) (user : AuthenticatedUser)
      → (authenticate_hash platform crypto ttl (postgres_repository platform uuid) now hash s).0
        ≡ ok user
      → (h : Bytes) × (hash ≡ some h) × IsActive h now s.committed.users s.committed.sessions user
  of_hash none user e = cc
  of_hash (some h) user e = (
    h,
    refl,
    found-IsActive h (find_active_user_by_token_hash platform uuid h now s) user
        (unfold find_active_user_by_token_hash in
          pool_query-Answers platform (λ t. ok (find_active h now t.users t.sessions, t)) s)
        e,
  )

  -- Whoever is authenticated has an account, of which the committed tables hold a session of the token's
  -- hash that is not revoked and has not expired.
  pub authenticate-IsActive :
      (token : Text) (user : AuthenticatedUser)
      → (authenticate platform crypto ttl (postgres_repository platform uuid) now token s).0
        ≡ ok user
      → (hash : Bytes) × (hash_raw_token crypto token ≡ some hash)
        × IsActive hash now s.committed.users s.committed.sessions user
  unfolding authenticate
  authenticate-IsActive token user e = of_hash (hash_raw_token crypto token) user e
