-- ===== src/Config.antt =====
-- The list of download tokens of src/config/load.rs.
pub mod Tokens
use rd_rs.Prelude.{Bool, true, false, List, [], ◌∷◌, ◌++◌, String, if◌then◌else◌}
use rd_rs.Prelude.Map.{contains, string_keys}

-- The fields of the configuration that are read here.
pub record Config : Type 0 where
  pub token : String
  pub download_tokens : List String

unfoldable pub push_missing : List String → List String → List String
push_missing tokens [] = tokens
push_missing tokens (t ∷ ts) =
    push_missing (if contains tokens t then tokens else tokens ++ (t ∷ [])) ts

unfoldable pub all_download_tokens : Config → List String
unfolding push_missing
all_download_tokens config = push_missing (config.token ∷ []) config.download_tokens
