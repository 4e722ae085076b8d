-- ===== src/Platform/Config.antt =====
-- pkg/config/config.go: the settings.
--
-- `Host` is what Load meets: the environment, whether there is a home directory with a readable
-- config.toml in it, and what toml.DecodeFile makes of the settings so far, `none` where it fails.
use fuse_stream_mvp.Base.{
  ◌≡◌, Bool, true, false, ◌||◌, Option, none, some, [], ◌∷◌, arith, if◌then◌else◌,
}
use fuse_stream_mvp.Base.Maps.{Text, text_beq}
use fuse_stream_mvp.Base.Words.{ℤ, pos}

pub record Config : Type 0 where
  pub api_base : Text
  pub client_id : Text
  pub client_secret : Text
  pub mountpoint : Text
  pub fetch_mode : Text
  pub temp_dir : Text
  pub chunk_size : ℤ
  pub max_concurrent_requests : ℤ
  pub cache_size : ℤ
  pub enable_app_nap : Bool
  pub debug_skip_eviction : Bool
  pub debug_fskit_single_thread : Bool

pub record Host : Type 0 where
  pub darwin : Bool
  pub getenv : Text → Text
  pub has_file : Bool
  pub decode : Config → Option Config

-- "https://api.xvid.com/v1"
abbrev pub default_api_base : Text
default_api_base =
    b'h' ∷ b't' ∷ b't' ∷ b'p' ∷ b's' ∷ b':' ∷ b'/' ∷ b'/' ∷ b'a' ∷ b'p' ∷ b'i' ∷ b'.' ∷ b'x' ∷ b'v'
    ∷ b'i' ∷ b'd' ∷ b'.' ∷ b'c' ∷ b'o' ∷ b'm' ∷ b'/' ∷ b'v' ∷ b'1' ∷ []

-- "temp-file"
abbrev pub temp_file_mode : Text
temp_file_mode = b't' ∷ b'e' ∷ b'm' ∷ b'p' ∷ b'-' ∷ b'f' ∷ b'i' ∷ b'l' ∷ b'e' ∷ []

-- "/Volumes/FuseStream"
abbrev pub volumes_mountpoint : Text
volumes_mountpoint =
    b'/' ∷ b'V' ∷ b'o' ∷ b'l' ∷ b'u' ∷ b'm' ∷ b'e' ∷ b's' ∷ b'/' ∷ b'F' ∷ b'u' ∷ b's' ∷ b'e' ∷ b'S'
    ∷ b't' ∷ b'r' ∷ b'e' ∷ b'a' ∷ b'm' ∷ []

-- "/mnt/fusestream"
abbrev pub mnt_mountpoint : Text
mnt_mountpoint =
    b'/' ∷ b'm' ∷ b'n' ∷ b't' ∷ b'/' ∷ b'f' ∷ b'u' ∷ b's' ∷ b'e' ∷ b's' ∷ b't' ∷ b'r' ∷ b'e' ∷ b'a'
    ∷ b'm' ∷ []

-- "FSMVP_API_BASE"
abbrev pub env_api_base : Text
env_api_base =
    b'F' ∷ b'S' ∷ b'M' ∷ b'V' ∷ b'P' ∷ b'_' ∷ b'A' ∷ b'P' ∷ b'I' ∷ b'_' ∷ b'B' ∷ b'A' ∷ b'S' ∷ b'E'
    ∷ []

-- "FSMVP_CLIENT_ID"
abbrev pub env_client_id : Text
env_client_id =
    b'F' ∷ b'S' ∷ b'M' ∷ b'V' ∷ b'P' ∷ b'_' ∷ b'C' ∷ b'L' ∷ b'I' ∷ b'E' ∷ b'N' ∷ b'T' ∷ b'_' ∷ b'I'
    ∷ b'D' ∷ []

-- "FSMVP_CLIENT_SECRET"
abbrev pub env_client_secret : Text
env_client_secret =
    b'F' ∷ b'S' ∷ b'M' ∷ b'V' ∷ b'P' ∷ b'_' ∷ b'C' ∷ b'L' ∷ b'I' ∷ b'E' ∷ b'N' ∷ b'T' ∷ b'_' ∷ b'S'
    ∷ b'E' ∷ b'C' ∷ b'R' ∷ b'E' ∷ b'T' ∷ []

-- "FSMVP_MOUNTPOINT"
abbrev pub env_mountpoint : Text
env_mountpoint =
    b'F' ∷ b'S' ∷ b'M' ∷ b'V' ∷ b'P' ∷ b'_' ∷ b'M' ∷ b'O' ∷ b'U' ∷ b'N' ∷ b'T' ∷ b'P' ∷ b'O' ∷ b'I'
    ∷ b'N' ∷ b'T' ∷ []

-- "FSMVP_FETCH_MODE"
abbrev pub env_fetch_mode : Text
env_fetch_mode =
    b'F' ∷ b'S' ∷ b'M' ∷ b'V' ∷ b'P' ∷ b'_' ∷ b'F' ∷ b'E' ∷ b'T' ∷ b'C' ∷ b'H' ∷ b'_' ∷ b'M' ∷ b'O'
    ∷ b'D' ∷ b'E' ∷ []

-- "FSMVP_TEMP_DIR"
abbrev pub env_temp_dir : Text
env_temp_dir =
    b'F' ∷ b'S' ∷ b'M' ∷ b'V' ∷ b'P' ∷ b'_' ∷ b'T' ∷ b'E' ∷ b'M' ∷ b'P' ∷ b'_' ∷ b'D' ∷ b'I' ∷ b'R'
    ∷ []

-- "FSMVP_ENABLE_APP_NAP"
abbrev pub env_enable_app_nap : Text
env_enable_app_nap =
    b'F' ∷ b'S' ∷ b'M' ∷ b'V' ∷ b'P' ∷ b'_' ∷ b'E' ∷ b'N' ∷ b'A' ∷ b'B' ∷ b'L' ∷ b'E' ∷ b'_' ∷ b'A'
    ∷ b'P' ∷ b'P' ∷ b'_' ∷ b'N' ∷ b'A' ∷ b'P' ∷ []

-- "true"
abbrev pub word_true : Text
word_true = b't' ∷ b'r' ∷ b'u' ∷ b'e' ∷ []

-- "1"
abbrev pub word_1 : Text
word_1 = b'1' ∷ []

-- "yes"
abbrev pub word_yes : Text
word_yes = b'y' ∷ b'e' ∷ b's' ∷ []

unfoldable pub default_config : Bool → Config
default_config darwin = record {
  api_base = default_api_base;
  client_id = [];
  client_secret = [];
  mountpoint = if darwin then volumes_mountpoint else mnt_mountpoint;
  fetch_mode = temp_file_mode;
  temp_dir = [];
  chunk_size = pos 4194304;
  max_concurrent_requests = pos 4;
  cache_size = pos 8;
  enable_app_nap = false;
  debug_skip_eviction = false;
  debug_fskit_single_thread = false;
}

-- A setting and the variable that may override it.
unfoldable pub override : Text → Text → Text
override v old = if text_beq v [] then old else v

unfoldable pub override_flag : Text → Bool → Bool
override_flag v old =
    if text_beq v []
    then old
    else text_beq v word_true || (text_beq v word_1 || text_beq v word_yes)

unfoldable pub apply_environment : (Text → Text) → Config → Config
apply_environment getenv c = record c {
  api_base = override (getenv env_api_base) c.api_base;
  client_id = override (getenv env_client_id) c.client_id;
  client_secret = override (getenv env_client_secret) c.client_secret;
  mountpoint = override (getenv env_mountpoint) c.mountpoint;
  fetch_mode = override (getenv env_fetch_mode) c.fetch_mode;
  temp_dir = override (getenv env_temp_dir) c.temp_dir;
  enable_app_nap = override_flag (getenv env_enable_app_nap) c.enable_app_nap;
}

unfoldable pub decode_file : Host → Config → Option Config
decode_file host c = if host.has_file then host.decode c else some c

-- `none` is an error.
unfoldable pub load : Host → Option Config
load host = elim (decode_file host (default_config host.darwin)) [
  | none ↦ none
  | some c ↦ some (apply_environment host.getenv c)
]

-- Load fails only over a file that cannot be decoded.
pub load-fails : (host : Host) → load host ≡ none → host.has_file ≡ true
unfolding load decode_file
load-fails host e = ground arith
