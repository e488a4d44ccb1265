-- ===== src/Config/Start.antt =====
-- What an accepted configuration promises: parseConfig of src/core/config.ts.
use micro_jbase.Base.{
  ◌≡◌, false, [], Result, ok, ◌>>=◌, lit, int, pos, arith, Returned, Returned-bind, Returned-after,
}
use micro_jbase.Errors.{Thrown}
use micro_jbase.Platform.{Platform}
use micro_jbase.Config.{
  Env, Urls, AppConfig, or_default, optional_non_empty_string, require_variable, is_given,
  parse_admin_token_digest, assert_schema_admin_config_pairing, assert_schema_admin_url_distinct,
  parse_port, parse_log_level, parse_positive_int, parse_boolean,
}
use micro_jbase.Config.Mappings.{
  HaveAliases, parse_table_mappings, parse_table_mappings-HaveAliases,
}
use micro_jbase.Config.Accepted.{
  IsIntFrom1, IsPort, IsDigest, IsLevel, AreLanes, parse_port-IsPort, parse_positive_int-IsIntFrom1,
  parse_admin_token_digest-IsDigest, parse_log_level-IsLevel, assert-ArePaired, assert-AreLanes,
}

module _ (platform : Platform) (urls : Urls) where
  unfoldable pub parse_config : Env → Result Thrown AppConfig
  parse_config env = do
    database_url ← require_variable platform env (lit "DATABASE_URL")
    let migration_database_url =
        optional_non_empty_string platform env (lit "MIGRATION_DATABASE_URL")
    let schema_database_url = optional_non_empty_string platform env (lit "SCHEMA_DATABASE_URL")
    admin_token_sha256 ←
        parse_admin_token_digest platform
          (optional_non_empty_string platform env (lit "MICROJBASE_ADMIN_TOKEN_SHA256"))
    paired ← assert_schema_admin_config_pairing schema_database_url admin_token_sha256
    distinct ← assert_schema_admin_url_distinct platform urls database_url schema_database_url
    port ← parse_port platform (env (lit "PORT"))
    log_level ← parse_log_level platform (env (lit "LOG_LEVEL"))
    session_ttl_seconds ←
        parse_positive_int platform (env (lit "SESSION_TTL_SECONDS")) (int (pos 604800))
          (lit "SESSION_TTL_SECONDS")
    trust_proxy ← parse_boolean platform (env (lit "TRUST_PROXY")) false
    max_body_bytes ←
        parse_positive_int platform (env (lit "MAX_BODY_BYTES")) (int (pos 1048576))
          (lit "MAX_BODY_BYTES")
    tables ← parse_table_mappings platform (env (lit "MICROJBASE_TABLES"))
    ok (record {
      database_url = database_url;
      migration_database_url = migration_database_url;
      schema_database_url = schema_database_url;
      admin_token_sha256 = admin_token_sha256;
      host = or_default (env (lit "HOST")) (lit "127.0.0.1");
      port = port;
      log_level = log_level;
      session_ttl_seconds = session_ttl_seconds;
      tables = tables;
      trust_proxy = trust_proxy;
      max_body_bytes = max_body_bytes;
    })

  -- The numbers are in range, the level is known, both or none of the settings of the schema lane are there, its
  -- URL is not that of the data lane, and the mappings are usable, with distinct aliases.
  pub record IsAccepted (config : AppConfig) : Type 0 where
    pub port : IsPort config.port
    pub ttl : IsIntFrom1 config.session_ttl_seconds
    pub body : IsIntFrom1 config.max_body_bytes
    pub level : IsLevel platform config.log_level
    pub digest : IsDigest config.admin_token_sha256
    pub paired : is_given config.schema_database_url ≡ is_given config.admin_token_sha256
    pub lanes : AreLanes platform urls config.database_url config.schema_database_url
    pub tables : HaveAliases platform [] config.tables

  -- Whatever the environment, a configuration is refused, or its port lies between 1 and 65535, its lifetime of
  -- sessions and its limit of bodies are at least 1, its log level is known, its digest has 64 hexadecimal
  -- digits, the URL of the schema lane and the digest are both there or both missing, that URL does not name the
  -- data lane's user, host, port and database, and its mappings have valid, distinct aliases and schemas that
  -- may be exposed.
  pub parse_config-IsAccepted : (env : Env) → Returned IsAccepted (parse_config env)
  unfolding parse_config
  parse_config-IsAccepted env =
      let schema_url = optional_non_empty_string platform env (lit "SCHEMA_DATABASE_URL") in
      Returned-after IsAccepted (require_variable platform env (lit "DATABASE_URL")) _ λ url.
        Returned-bind IsDigest IsAccepted (parse_admin_token_digest platform _) _
          (parse_admin_token_digest-IsDigest platform _)
          λ token digest.
            Returned-bind (λ u. is_given schema_url ≡ is_given token) IsAccepted
              (assert_schema_admin_config_pairing schema_url token) _
              (assert-ArePaired schema_url token)
              λ u paired.
                Returned-bind (λ u. AreLanes platform urls url schema_url) IsAccepted
                  (assert_schema_admin_url_distinct platform urls url schema_url) _
                  (assert-AreLanes platform urls url schema_url)
                  λ u lanes.
                    Returned-bind IsPort IsAccepted (parse_port platform (env (lit "PORT"))) _
                      (parse_port-IsPort platform _)
                      λ port range.
                        Returned-bind (IsLevel platform) IsAccepted
                          (parse_log_level platform (env (lit "LOG_LEVEL"))) _
                          (parse_log_level-IsLevel platform _)
                          λ level known.
                            Returned-bind IsIntFrom1 IsAccepted
                              (parse_positive_int platform (env (lit "SESSION_TTL_SECONDS")) _ _) _
                              (parse_positive_int-IsIntFrom1 platform _ 604800 _ (omega arith))
                              λ ttl long.
                                Returned-after IsAccepted
                                  (parse_boolean platform (env (lit "TRUST_PROXY")) false) _
                                  λ trust.
                                    Returned-bind IsIntFrom1 IsAccepted
                                      (parse_positive_int platform (env (lit "MAX_BODY_BYTES")) _ _)
                                      _
                                      (parse_positive_int-IsIntFrom1 platform _ 1048576 _
                                        (omega arith))
                                      λ body large.
                                        Returned-bind (HaveAliases platform []) IsAccepted
                                          (parse_table_mappings platform
                                            (env (lit "MICROJBASE_TABLES")))
                                          _ (parse_table_mappings-HaveAliases platform _)
                                          λ tables usable. record {
                                            port = range;
                                            ttl = long;
                                            body = large;
                                            level = known;
                                            digest = digest;
                                            paired = paired;
                                            lanes = lanes;
                                            tables = usable;
                                          }
