-- ===== src/Auth/Service/Logins.antt =====
-- Who can log in: the answers of `login` of src/auth/service.ts, whatever the repository is.
use micro_jbase.Base.{
  ◌≡◌, ◌⊎◌, inl, inr, refl, sym, ap, ok_subst, ◌∙◌, true, false, Option, none, some, Result, ok,
  err, Text, ℕ, Bool-cases,
}
use micro_jbase.Errors.{Thrown}
use micro_jbase.Platform.{Platform}
use micro_jbase.Auth.{Bytes, Crypto, User, UserRecord, Session, AuthResult}
use micro_jbase.Auth.Email.{normalise_email}
use micro_jbase.Auth.Tokens.{generate_session_token}
use micro_jbase.Auth.Service.{
  AuthRepository, Context, login, check_login, open_session, verify_password, bad_credentials,
  logged_in, step, and_then, expiry,
}

module _ {W : Type 0} (platform : Platform) (crypto : Crypto) (ttl : ℕ)
    (repository : AuthRepository W) (context : Context) (raw_email password email : Text) where
  -- The repository knows the address, and the password matches its record.
  abbrev pub IsProven : W → W → UserRecord → Type 0
  IsProven w v found =
      (repository.find_by_email email w ≡ (ok (some found), v))
      × (verify_password platform crypto ttl repository found.password_hash password ≡ true)

  -- There is no account, or the password does not match.
  abbrev pub IsUnproven : W → W → Type 0
  IsUnproven w v =
      (repository.find_by_email email w ≡ (ok none, v))
      ⊎ ((found : UserRecord) × (repository.find_by_email email w ≡ (ok (some found), v))
          × (verify_password platform crypto ttl repository found.password_hash password ≡ false))

  asked :
      (w : W)
      → normalise_email platform crypto raw_email ≡ ok email
      → login platform crypto ttl repository context raw_email password w
        ≡ and_then
            (repository.find_by_email email w)
            (check_login platform crypto ttl repository context password)
  unfolding login
  asked w normal = rw normal refl

  refused :
      (w v : W)
      → IsUnproven w v
      → and_then
          (repository.find_by_email email w)
          (check_login platform crypto ttl repository context password)
        ≡ (err bad_credentials, v)
  unfolding check_login
  refused w v (inl unknown) = rw unknown refl
  refused w v (inr (found, known, wrong)) = rw known (rw wrong refl)

  opened :
      (user : User) (token : Result Thrown (Text × Bytes)) (v end : W) (result : AuthResult)
      → step token (open_session platform crypto ttl repository context user) v ≡ (ok result, end)
      → result.user ≡ user
  unfolding open_session
  opened user (err e) v end result h = cc
  opened user (ok (raw, hash)) v end result h =
      made
        (repository.create_session user.id hash (expiry platform crypto ttl repository context) v) h
    where
      made :
          (run : Result Thrown Session × W)
          → and_then run
              (λ session u. (ok (logged_in platform crypto ttl repository user raw session), u))
            ≡ (ok result, end)
          → result.user ≡ user
      made (ok session, u) e =
          ok_subst (λ r. r.user ≡ user) (logged_in platform crypto ttl repository user raw session)
            (ap (λ p. p.0) e) refl
      made (err e, u) h2 = cc

  proven :
      (w end : W) (result : AuthResult) (answer : Result Thrown (Option UserRecord) × W)
      → repository.find_by_email email w ≡ answer
      → and_then answer (check_login platform crypto ttl repository context password)
        ≡ (ok result, end)
      → (found : UserRecord) × (v : W) × IsProven w v found × (result.user ≡ found.user)
  unfolding check_login
  proven w end result (err e, v) asks h = cc
  proven w end result (ok none, v) asks h = cc
  proven w end result (ok (some found), v) asks h =
      elim (Bool-cases
        (verify_password platform crypto ttl repository found.password_hash password)) [
          | inl right ↦ (
            found,
            v,
            (asks, right),
            opened found.user (generate_session_token crypto context.random) v end result
                (rw right at h),
          )
          | inr wrong ↦ let bad = rw wrong at h in cc
        ]

  -- Where the address has a normal form, an unknown address and a wrong password are answered by one
  -- error, and the repository is asked for nothing more; and a login that succeeds is of the account that
  -- the repository found, with a password that matches.
  pub login_exact :
      (w : W)
      → normalise_email platform crypto raw_email ≡ ok email
      → ((v : W)
          → IsUnproven w v
          → login platform crypto ttl repository context raw_email password w
            ≡ (err bad_credentials, v))
        × ((result : AuthResult) (end : W)
            → login platform crypto ttl repository context raw_email password w ≡ (ok result, end)
            → (found : UserRecord) × (v : W) × IsProven w v found × (result.user ≡ found.user))
  login_exact w normal = (
    λ v h. asked w normal ∙ refused w v h,
    λ result end h.
        proven w end result (repository.find_by_email email w) refl (sym (asked w normal) ∙ h),
  )
