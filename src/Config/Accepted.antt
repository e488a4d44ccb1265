-- ===== src/Config/Accepted.antt =====
-- What each parser of src/core/config.ts accepts: ports and counts, the digest, the level, the two connections.
use micro_jbase.Base.{
  ℕ, ◌≤◌, ◌≡◌, ◌≢◌, arith, Bool, true, false, guard, includes, not, ◌||◌, negsuc, between, pos_inf,
  neg_inf, nan, refl, sym, ap, ◌∙◌, Returned, Returned-guard, Returned-eq, ok_subst, text_eq,
  text_eq_iff, text_eq_refl, Option, none, some, ok, Text, lit, Number, int, pos,
}
use micro_jbase.Errors.{Thrown}
use micro_jbase.Platform.{Platform}
use micro_jbase.Config.{
  is_port, is_positive_int, is_sha256_hex, read_number, level_of, valid_log_levels, is_given,
  same_surface_error, same_parts, normalize_postgres_url, Surface, Urls, given,
  parse_admin_token_digest, assert_schema_admin_config_pairing, assert_schema_admin_url_distinct,
  parse_port, parse_log_level, parse_positive_int,
}

abbrev pub IsIntFrom1 : Number → Type 0
IsIntFrom1 v = (n : ℕ) × (v ≡ int (pos n)) × (1 ≤ n)

abbrev pub IsPort : Number → Type 0
IsPort v = (n : ℕ) × (v ≡ int (pos n)) × (1 ≤ n) × (n ≤ 65535)

abbrev pub IsDigest : Option Text → Type 0
IsDigest none = Unit
IsDigest (some t) = is_sha256_hex t ≡ true

module _ (platform : Platform) where
  is_port-IsPort : (v : Number) → is_port platform v ≡ true → IsPort v
  is_port-IsPort (int (pos n)) h = (n, refl, ground arith, ground arith)
  is_port-IsPort (int (negsuc n)) h = absurd (ground arith)
  is_port-IsPort (between z) h = cc
  is_port-IsPort pos_inf h = cc
  is_port-IsPort neg_inf h = cc
  is_port-IsPort nan h = cc

  is_positive_int-IsIntFrom1 : (v : Number) → is_positive_int platform v ≡ true → IsIntFrom1 v
  is_positive_int-IsIntFrom1 (int (pos n)) h = (n, refl, ground arith)
  is_positive_int-IsIntFrom1 (int (negsuc n)) h = absurd (ground arith)
  is_positive_int-IsIntFrom1 (between z) h = cc
  is_positive_int-IsIntFrom1 pos_inf h = cc
  is_positive_int-IsIntFrom1 neg_inf h = cc
  is_positive_int-IsIntFrom1 nan h = cc

  read_number-Returned :
      (P : Number → Type 0) (raw : Option Text) (default : Number) (test : Number → Bool)
      (e : Thrown)
      → P default
      → ((v : Number) → test v ≡ true → P v)
      → Returned P (read_number platform raw default test e)
  read_number-Returned P none default test e d k = d
  read_number-Returned P (some raw) default test e d k =
      Returned-guard P (test (platform.to_number raw)) e (λ u. ok (platform.to_number raw))
        (k (platform.to_number raw))

  pub parse_port-IsPort : (raw : Option Text) → Returned IsPort (parse_port platform raw)
  unfolding parse_port
  parse_port-IsPort raw =
      read_number-Returned IsPort (given platform raw) _ (is_port platform) _
        (3000, refl, omega arith, omega arith) is_port-IsPort

  pub parse_positive_int-IsIntFrom1 :
      (raw : Option Text) (n : ℕ) (variable : Text)
      → 1 ≤ n
      → Returned IsIntFrom1 (parse_positive_int platform raw (int (pos n)) variable)
  unfolding parse_positive_int
  parse_positive_int-IsIntFrom1 raw n variable h =
      read_number-Returned IsIntFrom1 (given platform raw) _ (is_positive_int platform) _
        (n, refl, h) is_positive_int-IsIntFrom1

  pub parse_admin_token_digest-IsDigest :
      (raw : Option Text) → Returned IsDigest (parse_admin_token_digest platform raw)
  unfolding parse_admin_token_digest
  parse_admin_token_digest-IsDigest none = tt
  parse_admin_token_digest-IsDigest (some raw) =
      Returned-guard IsDigest (is_sha256_hex (platform.to_lower (platform.trim raw))) _ _ (λ h. h)

  abbrev pub IsLevel : Text → Type 0
  IsLevel t = includes valid_log_levels t ≡ true

  level_of-IsLevel : (raw : Option Text) → Returned IsLevel (level_of platform raw)
  level_of-IsLevel none = unfold includes lit text_eq in refl
  level_of-IsLevel (some raw) =
      Returned-guard IsLevel (includes valid_log_levels (platform.to_lower (platform.trim raw))) _ _
        (λ h. h)

  pub parse_log_level-IsLevel :
      (raw : Option Text) → Returned IsLevel (parse_log_level platform raw)
  unfolding parse_log_level
  parse_log_level-IsLevel raw = level_of-IsLevel (given platform raw)

pub assert-ArePaired :
    (url token : Option Text)
    → Returned (λ u. is_given url ≡ is_given token) (assert_schema_admin_config_pairing url token)
unfolding assert_schema_admin_config_pairing
assert-ArePaired none none = refl
assert-ArePaired none (some t) = tt
assert-ArePaired (some s) none = tt
assert-ArePaired (some s) (some t) = refl

module _ (platform : Platform) (urls : Urls) where
  -- The schema lane has another URL, and where both URLs are read as URLs of PostgreSQL, not all of user, host,
  -- port and database are the same.
  abbrev pub AreLanes : Text → Option Text → Type 0
  AreLanes database_url none = Unit
  AreLanes database_url (some schema_url) =
      (schema_url ≢ database_url)
      × ((a b : Surface)
          → normalize_postgres_url platform urls database_url ≡ ok (some a)
          → normalize_postgres_url platform urls schema_url ≡ ok (some b)
          → a ≢ b)

  same_parts_refl : (a : Surface) → same_parts (some a) (some a) ≡ true
  unfolding same_parts
  same_parts_refl a =
      rw (text_eq_refl a.username, text_eq_refl a.host, text_eq_refl a.database) (ground arith)

  pub assert-AreLanes :
      (database_url : Text) (schema_url : Option Text)
      → Returned
          (λ u. AreLanes database_url schema_url)
          (assert_schema_admin_url_distinct platform urls database_url schema_url)
  unfolding assert_schema_admin_url_distinct
  assert-AreLanes database_url none = tt
  assert-AreLanes database_url (some schema_url) =
      let P : Unit {0} → Type 0 = λ u. AreLanes database_url (some schema_url) in
      Returned-eq P (normalize_postgres_url platform urls database_url) _ λ runtime known.
        Returned-eq P (normalize_postgres_url platform urls schema_url) _ λ admin found.
          differ runtime admin known found
            (text_eq schema_url database_url || same_parts runtime admin) refl
    where
      differ :
          (runtime admin : Option Surface)
          → normalize_postgres_url platform urls database_url ≡ ok runtime
          → normalize_postgres_url platform urls schema_url ≡ ok admin
          → (b : Bool) → text_eq schema_url database_url || same_parts runtime admin ≡ b
          → Returned
              (λ u. AreLanes database_url (some schema_url))
              (guard (not b) same_surface_error)
      differ runtime admin known found true h = tt
      differ runtime admin known found false h = (
        λ same. cc (h, (text_eq_iff schema_url database_url).1 same),
        λ a b left right same.
            let one : runtime ≡ some a =
              ok_subst (λ r. runtime ≡ r) runtime (sym known ∙ left) refl in
            let two : admin ≡ some a =
              ok_subst (λ r. admin ≡ r) admin
                (sym found ∙ (right ∙ ap (λ s. ok (some s)) (sym same))) refl in
            let equal : same_parts runtime admin ≡ true = rw (one, two) (same_parts_refl a) in
            ground arith,
      )
