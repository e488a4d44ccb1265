-- ===== src/Platform.antt =====
-- What the program calls of JavaScript and Node and does not implement: case mapping, the printing
-- and reading of numbers and strings, hashes.
use micro_jbase.Base.{Text, Number}

pub record Platform : Type 0 where
  pub to_lower : Text → Text  -- String.prototype.toLowerCase
  pub to_upper : Text → Text  -- String.prototype.toUpperCase
  pub print_number : Number → Text  -- String(x)
  pub to_number : Text → Number  -- Number(text)
  pub quote_string : Text → Text  -- JSON.stringify(text)
  pub sha256_hex : Text → Text  -- createHash("sha256").update(text, "utf8").digest("hex")
  pub hmac_sha256_hex : Text → Text → Text  -- createHmac("sha256", key).update(text).digest("hex")
  pub trim : Text → Text  -- String.prototype.trim
