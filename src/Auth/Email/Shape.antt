-- ===== src/Auth/Email/Shape.antt =====
-- The addresses that src/auth/email.ts accepts: a local part, a host and a top domain around the signs
-- `@` and `.`, each of them not empty and without white space.
use micro_jbase.Base.{
  arith, ℕ, ◌≤◌, ◌≡◌, ◌↔◌, refl, sym, ap, subst, ◌∙◌, true, false, not, ◌&&◌, [], ◌∷◌, ◌++◌, ◌==◌,
  null, all, all-append, &&-true, Bool-cases, ◌⊎◌, inl, inr, ok, err, Text,
}
use micro_jbase.Platform.{Platform}
use micro_jbase.Auth.{Crypto}
use micro_jbase.Auth.Email.{
  is_space, is_part, dot_then, is_domain, after_local, is_pragmatic_email, check_email,
  normalise_email, utf8_length, has_control, max_email_utf8_bytes, trim_start, trim_end,
  invalid_email,
}

-- `[^\s@]+`
abbrev pub IsPart : Text → Type 0
IsPart t = (null t ≡ false) × (all is_part t ≡ true)

-- The text is a match of the pattern of src/auth/email.ts.
abbrev pub IsAddress : Text → Type 0
IsAddress t =
    (local : Text) × (host : Text) × (top : Text) × (t ≡ local ++ (b'@' ∷ (host ++ (b'.' ∷ top))))
    × IsPart local
    × IsPart host
    × IsPart top

dot_then_sound :
    (t : Text)
    → dot_then t ≡ true
    → (host : Text) × (top : Text) × (t ≡ host ++ (b'.' ∷ top)) × (null top ≡ false)
unfolding dot_then
dot_then_sound [] h = cc
dot_then_sound (c ∷ cs) h = elim (Bool-cases (c == b'.' && not (null cs))) [
  | inl here ↦ ([], cs, ground arith, ground arith)
  | inr later ↦
      let found = dot_then_sound cs (ground arith) in
      (c ∷ found.0, found.1, ap (λ r. c ∷ r) found.2, found.3)
]

dot_then_complete : (host top : Text) → null top ≡ false → dot_then (host ++ (b'.' ∷ top)) ≡ true
unfolding dot_then
dot_then_complete [] top h = ground arith
dot_then_complete (c ∷ host) top h = ground (arith, dot_then_complete host top h)

after_local_sound :
    (t : Text)
    → after_local t ≡ true
    → (local : Text) × (domain : Text) × (t ≡ local ++ (b'@' ∷ domain))
      × (all is_part local ≡ true)
      × (is_domain domain ≡ true)
unfolding after_local
after_local_sound [] h = cc
after_local_sound (c ∷ cs) h = elim (Bool-cases (c == b'@')) [
  | inl here ↦ ([], cs, ground arith, refl, ground arith)
  | inr later ↦
      let found = after_local_sound cs (ground arith) in
      (
        c ∷ found.0,
        found.1,
        ap {A = Text} {B = Text} (λ r. c ∷ r) {x = cs} {y = found.0 ++ (b'@' ∷ found.1)} found.2,
        ground arith,
        found.4,
      )
]

part-ne-at : (c : ℕ) → is_part c ≡ true → (c == b'@') ≡ false
unfolding is_part
part-ne-at c h = ground arith

after_local_complete :
    (local domain : Text)
    → all is_part local ≡ true
    → is_domain domain ≡ true
    → after_local (local ++ (b'@' ∷ domain)) ≡ true
unfolding after_local
after_local_complete [] domain h k = k
after_local_complete (c ∷ local) domain h k =
    let parts = &&-true (is_part c) (all is_part local) h in
    rw (part-ne-at c parts.0, parts.0) (after_local_complete local domain parts.1 k)

dot-part : is_part b'.' ≡ true
unfolding is_part is_space
dot-part = refl

all-around :
    (host top : Text)
    → all is_part (host ++ (b'.' ∷ top)) ≡ true
    → (all is_part host ≡ true) × (all is_part top ≡ true)
all-around host top h =
    let split =
      &&-true (all is_part host) (all is_part (b'.' ∷ top))
        (sym (all-append is_part host (b'.' ∷ top)) ∙ h) in
    (split.0, (&&-true (is_part b'.') (all is_part top) split.1).1)

is_domain_sound :
    (t : Text)
    → is_domain t ≡ true
    → (host : Text) × (top : Text) × (t ≡ host ++ (b'.' ∷ top)) × IsPart host × IsPart top
unfolding is_domain
is_domain_sound [] h = cc
is_domain_sound (c ∷ cs) h =
    let tests = &&-true (all is_part (c ∷ cs)) (dot_then cs) h in
    let found = dot_then_sound cs tests.1 in
    let whole : c ∷ cs ≡ c ∷ (found.0 ++ (b'.' ∷ found.1)) = ap (λ r. c ∷ r) found.2 in
    let parts =
      all-around (c ∷ found.0) found.1 (subst (λ r. all is_part r ≡ true) whole tests.0) in
    (c ∷ found.0, found.1, whole, (refl, parts.0), (found.3, parts.1))

is_domain_complete :
    (host top : Text) → IsPart host → IsPart top → is_domain (host ++ (b'.' ∷ top)) ≡ true
unfolding is_domain
is_domain_complete [] top h k = cc (h.0)
is_domain_complete (c ∷ host) top h k =
    let parts : all is_part ((c ∷ host) ++ (b'.' ∷ top)) ≡ true =
      all-append is_part (c ∷ host) (b'.' ∷ top) ∙ rw (h.1, dot-part, k.1) refl in
    rw (parts, dot_then_complete host top k.0) refl

pragmatic_sound : (t : Text) → is_pragmatic_email t ≡ true → IsAddress t
unfolding is_pragmatic_email
pragmatic_sound [] h = cc
pragmatic_sound (c ∷ cs) h =
    let tests = &&-true (is_part c) (after_local cs) h in
    let found = after_local_sound cs tests.1 in
    let domain = is_domain_sound found.1 found.4 in
    let whole : c ∷ cs ≡ c ∷ (found.0 ++ (b'@' ∷ (domain.0 ++ (b'.' ∷ domain.1)))) =
      ap (λ r. c ∷ r) (found.2 ∙ ap (λ r. found.0 ++ (b'@' ∷ r)) domain.2) in
    (c ∷ found.0, domain.0, domain.1, whole, (refl, rw (tests.0, found.3) refl), domain.3, domain.4)

pragmatic_at :
    (local domain : Text)
    → IsPart local
    → is_domain domain ≡ true
    → is_pragmatic_email (local ++ (b'@' ∷ domain)) ≡ true
unfolding is_pragmatic_email
pragmatic_at [] domain h k = cc (h.0)
pragmatic_at (c ∷ local) domain h k =
    let parts = &&-true (is_part c) (all is_part local) h.1 in
    rw (parts.0, after_local_complete local domain parts.1 k) refl

pragmatic_complete : (t : Text) → IsAddress t → is_pragmatic_email t ≡ true
pragmatic_complete t (local, host, top, whole, l, h, k) =
    rw whole (pragmatic_at local (host ++ (b'.' ∷ top)) l (is_domain_complete host top h k))

pub pragmatic_email_iff : (t : Text) → (is_pragmatic_email t ≡ true) ↔ IsAddress t
pragmatic_email_iff t = (pragmatic_sound t, pragmatic_complete t)

IsAddress-ne-null : (t : Text) → IsAddress t → null t ≡ false
IsAddress-ne-null [] (local, host, top, whole, l, h, k) = absurd (no_address local host top l whole)
  where
    no_address : (p host top : Text) → IsPart p → ¬ ([] ≡ p ++ (b'@' ∷ (host ++ (b'.' ∷ top))))
    no_address [] host top h e = cc (h.0)
    no_address (c ∷ p) host top h e = cc
IsAddress-ne-null (c ∷ cs) h = refl

-- what an accepted address is
abbrev pub IsAccepted : Text → Type 0
IsAccepted email =
    IsAddress email × (utf8_length email ≤ max_email_utf8_bytes) × (has_control email ≡ false)

check_email_sound : (email : Text) → check_email email ≡ ok email → IsAccepted email
unfolding check_email
check_email_sound email h = (pragmatic_sound email (ground arith), ground arith, ground arith)

check_email_complete : (email : Text) → IsAccepted email → check_email email ≡ ok email
unfolding check_email
check_email_complete email h =
    ground (arith, IsAddress-ne-null email h.0, pragmatic_complete email h.0)

check_email-cases :
    (email : Text) → (check_email email ≡ ok email) ⊎ (check_email email ≡ err invalid_email)
unfolding check_email
check_email-cases email = ground arith

module _ (platform : Platform) (crypto : Crypto) (raw : Text) where
  -- the normal form of an address
  abbrev pub normal_form : Text
  normal_form = platform.to_lower (crypto.normalize_nfc (trim_end (trim_start raw)))

  refused-unless : ¬ IsAccepted normal_form → check_email normal_form ≡ err invalid_email
  refused-unless no_address = elim (check_email-cases normal_form) [
    | inl accepted ↦ absurd (no_address (check_email_sound normal_form accepted))
    | inr refused ↦ refused
  ]

  -- An address is accepted, in its normal form, exactly where that form is a local part, `@`, a host, `.`
  -- and a top domain, each of these parts not empty and without white space and `@`, of at most 254 bytes
  -- and without control characters; any other is refused with one error.
  pub normalise_email_exact :
      ((normalise_email platform crypto raw ≡ ok normal_form) ↔ IsAccepted normal_form)
      × ((¬ IsAccepted normal_form) → normalise_email platform crypto raw ≡ err invalid_email)
  unfolding normalise_email
  normalise_email_exact =
      ((check_email_sound normal_form, check_email_complete normal_form), refused-unless)
