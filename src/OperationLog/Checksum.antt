-- ===== src/OperationLog/Checksum.antt =====
-- The checksum and the actor fingerprint of src/database/schema-operation-log.ts.
use micro_jbase.Base.{
  Bool, true, false, ◌||◌, ◌&&◌, List, [], ◌∷◌, ◌++◌, if◌then◌else◌, ◌==◌, ltb, Text, lit, join,
  concat, map, Number, is_finite,
}
use micro_jbase.Platform.{Platform}

-- JsonValue of the contracts; the members of an object in their order of insertion.
mutual
  pub data Json : Type 0 where
    null : Json
    bool : Bool → Json
    number : Number → Json
    string : Text → Json
    array : Jsons → Json
    object : Members → Json

  pub data Jsons : Type 0 where
    no_item : Jsons
    item : Json → Jsons → Jsons

  pub data Members : Type 0 where
    no_member : Members
    member : Text → Json → Members → Members

abbrev pub is_object : Json → Bool
is_object (object members) = true
is_object _ = false

-- the order of Array.prototype.sort on strings, by code units
unfoldable pub text_le : Text → Text → Bool
text_le [] t = true
text_le (x ∷ xs) [] = false
text_le (x ∷ xs) (y ∷ ys) = ltb x y || (x == y && text_le xs ys)

-- the pairs of key and rendered value, sorted by key
unfoldable pub insert_pair : Text × Text → List (Text × Text) → List (Text × Text)
unfolding text_le
insert_pair p [] = p ∷ []
insert_pair p (q ∷ qs) =
    let rest = insert_pair p qs in if text_le p.0 q.0 then p ∷ (q ∷ qs) else q ∷ rest

unfoldable pub sort_pairs : List (Text × Text) → List (Text × Text)
unfolding insert_pair
sort_pairs [] = []
sort_pairs (p ∷ ps) = insert_pair p (sort_pairs ps)

module _ (platform : Platform) where
  -- `${JSON.stringify(key)}:${value}`
  abbrev pub print_member : Text × Text → Text
  print_member p = concat (platform.quote_string p.0 ∷ lit ":" ∷ p.1 ∷ [])

  abbrev pub print_object : List (Text × Text) → Text
  print_object pairs =
      concat (lit "{" ∷ join (lit ",") (map print_member (sort_pairs pairs)) ∷ lit "}" ∷ [])

  unfoldable mutual
    pub canonical_json : Json → Text
    canonical_json Json.null = lit "null"
    canonical_json (bool b) = if b then lit "true" else lit "false"
    canonical_json (number n) = if is_finite n then platform.print_number n else lit "null"
    canonical_json (string t) = platform.quote_string t
    canonical_json (array items) =
        concat (lit "[" ∷ join (lit ",") (canonical_items items) ∷ lit "]" ∷ [])
    canonical_json (object members) = print_object (rendered_members members)

    pub canonical_items : Jsons → List Text
    canonical_items no_item = []
    canonical_items (item v vs) = canonical_json v ∷ canonical_items vs

    pub rendered_members : Members → List (Text × Text)
    rendered_members no_member = []
    rendered_members (member key v ms) = (key, canonical_json v) ∷ rendered_members ms

  unfoldable pub compute_operation_checksum : Text → Json → List Text → Text
  unfolding canonical_json
  compute_operation_checksum command_type command statements = platform.sha256_hex (
      concat (
        lit "v1|"
        ∷ command_type
        ∷ lit "|"
        ∷ canonical_json command
        ∷ lit "|["
        ∷ join (lit ",") (map platform.quote_string statements)
        ∷ lit "]"
        ∷ []))

  unfoldable pub compute_actor_fingerprint : Text → Text → Text
  compute_actor_fingerprint secret actor =
      platform.hmac_sha256_hex secret (lit "v1|actor|" ++ platform.to_lower (platform.trim actor))
