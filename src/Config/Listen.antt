-- ===== src/Config/Listen.antt =====
-- Where the server listens: src/config.rs `SmppConfig::listen`, `string_or_null`, `strings_or_null`.
use siphon_smpp.Common.{ℕ, Option, List, [], map, or_else, unwrap_or, code_points}
use siphon_smpp.Tlv.{Text}
use siphon_smpp.Config.Types.{SmppConfig}

-- An empty field is the empty text.
unfoldable pub string_or_null : Option Text → Text
string_or_null field = unwrap_or field []

unfoldable pub strings_or_null : List (Option Text) → List Text
unfolding string_or_null
strings_or_null fields = map string_or_null fields

unfoldable pub listen : SmppConfig → Text × ℕ
listen cfg = (
  unwrap_or (or_else cfg.server.bind_address cfg.bind_address) (code_points "0.0.0.0"),
  unwrap_or (or_else cfg.server.port cfg.port) 2775,
)
