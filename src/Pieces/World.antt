-- ===== src/Pieces/World.antt =====
-- What `Resolve` of internal/pieces/pieces.go calls and returns: reads and their outcomes, hashes and
-- signatures, the options, and the set of pieces.
use cnimbus.Common.{Bool, List, Option, Result, err, none, ok, some}
use cnimbus.Common.Text.{Text}
use cnimbus.Pieces.Hashes.{Applet, Failure, fetch_failed, missing_piece, stale}

pub data Fetched : Type 0 where
  found : Text → Fetched
  absent failed : Fetched

pub record Provenance : Type 0 where
  pub arch : Text
  pub vga : Bool
  pub boot_profile : Text
  pub wifi_firmware : List Text
  pub ethernet_firmware : List Text

-- What the code calls: reads over HTTP or from a directory, the files of the cache directory of a
-- source, SHA-256 in hexadecimal, the decoders of JSON and of hexadecimal, and Ed25519.
pub record World : Type 0 where
  pub fetch : Text → Text → Fetched
  pub cached : Text → Text → Option Text
  pub sha256 : Text → Text
  pub unmarshal : Text → Option Provenance
  pub decode_hex : Text → Option Text
  pub verify : Text → Text → Text → Bool

pub record ResolveOptions : Type 0 where
  pub allow_insecure_http : Bool
  pub cache_dir : Bool
  pub require_verified_pieces : Bool
  pub verify_key : Option Text

-- Firmware by its path.
abbrev pub Firmware : Type 0
Firmware = List (Text × Text)

pub record PieceSet : Type 0 where
  pub vmlinuz : Text
  pub busybox : Text
  pub applets : List Applet
  pub manifest : Text
  pub iptables : Option Text
  pub supplicant : Option Text
  pub wifi_firmware : Firmware
  pub ethernet_firmware : Firmware
  pub hashes_verified : Bool
  pub provenance : Option Provenance

abbrev pub piece_of : Fetched → Result Failure Text
piece_of (found content) = ok content
piece_of _ = err missing_piece

abbrev pub optional_of : Fetched → Result Failure (Option Text)
optional_of (found content) = ok (some content)
optional_of absent = ok none
optional_of failed = err fetch_failed

-- A piece that may be missing for whatever reason.
abbrev pub tolerated : Fetched → Option Text
tolerated (found content) = some content
tolerated _ = none

abbrev pub required : Option Text → Result Failure Text
required (some content) = ok content
required none = err stale
