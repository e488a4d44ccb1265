-- ===== src/Config/Tests.antt =====
-- An environment, and mappings that are written and read back.
use micro_jbase.Base.{
  ◌≡◌, ◌||◌, refl, none, some, List, [], ◌∷◌, ◌++◌, Text, All, ok, if◌then◌else◌, lit, text_eq, int,
  pos, Returned, includes, matches_head_rest,
}
use micro_jbase.Fixtures.{plain_platform, notes, public_schema}
use micro_jbase.Ddl.Identifiers.{is_simple_identifier}
use micro_jbase.Tables.{ExposedTableMapping}
use micro_jbase.Exposure.{is_alias}
use micro_jbase.Exposure.Payload.{IsMapping}
use micro_jbase.Config.{Env, Urls, given, parse_port}
use micro_jbase.Config.Registry.{
  HaveTargets, parse_mappings, parse_registrations, parse_registered,
  parse_mappings-parse_table_mappings,
}
use micro_jbase.Config.Mappings.{
  HaveAliases, split_on, cut_at, parse_table_target, parse_table_mappings,
}
use micro_jbase.Config.Start.{IsAccepted, parse_config, parse_config-IsAccepted}
use micro_jbase.Config.RoundTrip.{print_mappings, parse_table_mappings-print_mappings}

abbrev urls : Urls
urls = record { new_url = λ t. none; decode_component = λ t. ok t }

abbrev env : Env
env key =
    if text_eq key (lit "DATABASE_URL") || text_eq key (lit "PORT")
    then some public_schema
    else none

env_port : parse_port plain_platform (some public_schema) ≡ ok (int (pos 7))
unfolding parse_port given
env_port = refl

parse_config-IsAccepted_example :
    Returned (IsAccepted plain_platform urls) (parse_config plain_platform urls env)
parse_config-IsAccepted_example = parse_config-IsAccepted plain_platform urls env

abbrev mappings : List ExposedTableMapping
mappings =
    record { alias = notes; schema = public_schema; table = notes }
    ∷ record { alias = public_schema; schema = public_schema; table = public_schema }
    ∷ []

mappings-IsMapping : All (IsMapping plain_platform) mappings
unfolding is_alias is_simple_identifier matches_head_rest includes text_eq lit
mappings-IsMapping = (
  record { alias_form = refl; schema_form = refl; table_form = refl; allowed = refl },
  (record { alias_form = refl; schema_form = refl; table_form = refl; allowed = refl }, tt),
)

mappings-HaveAliases : HaveAliases plain_platform [] mappings
unfolding is_alias matches_head_rest includes text_eq lit
mappings-HaveAliases = ((refl, refl, refl, refl), refl, ((refl, refl, refl, refl), refl, tt))

parse_table_mappings-print_mappings_example :
    parse_table_mappings plain_platform (some (print_mappings mappings)) ≡ ok mappings
parse_table_mappings-print_mappings_example =
    parse_table_mappings-print_mappings plain_platform (λ t h. refl) mappings mappings-IsMapping
      mappings-HaveAliases

abbrev setting : Text
setting = notes ++ (b'=' ∷ (public_schema ++ (b'.' ∷ notes)))

setting_read :
    parse_mappings plain_platform (some setting)
    ≡ ok (record { alias = notes; schema = public_schema; table = notes } ∷ [])
unfolding parse_mappings parse_registrations parse_registered parse_table_target split_on cut_at
    given is_alias matches_head_rest includes text_eq lit
setting_read = refl

parse_mappings-parse_table_mappings_example :
    Returned
      (λ ms. (parse_table_mappings plain_platform (some setting) ≡ ok ms) × HaveTargets [] ms)
      (parse_mappings plain_platform (some setting))
parse_mappings-parse_table_mappings_example =
    parse_mappings-parse_table_mappings plain_platform (some setting)
