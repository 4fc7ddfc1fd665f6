-- ===== src/Text/Tests.antt =====
-- Texts that are escaped, and texts that are not.
use near_indexer_for_explore.Base.{◌≡◌, refl}
use near_indexer_for_explore.Text.{escape_default}

null_escaped : escape_default "a\0\"" ≡ "a\\u{0}\\\""
unfolding escape_default
null_escaped = refl
