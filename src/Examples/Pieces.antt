-- ===== src/Examples/Pieces.antt =====
-- A run of `Resolve` on a signed directory of pieces; the first character stands for the hash.
use cnimbus.Common.{Holds, Holds-ok, Option, [], false, none, ok, refl, some, take, true, ◌∷◌, ◌≡◌}
use cnimbus.Common.Text.{Text, codes, eqt, has_prefix}
use cnimbus.Pieces.Firmware.{HasFirmware, fetch_all-HasFirmware}
use cnimbus.Pieces.Hashes.{Hashes, check_hash, hash_of, parse_hashes, parse_manifest}
use cnimbus.Pieces.Resolve.{
  check_all, check_others, check_signature, fetch_all, fetch_others, is_http, resolve_pieces,
  resolve_source, resolve_with, source_of,
}
use cnimbus.Pieces.Signed.{resolve_pieces-Trusted}
use cnimbus.Pieces.Trust.{Trusted}
use cnimbus.Pieces.World.{Fetched, PieceSet, Provenance, ResolveOptions, World, absent, found}

abbrev files : Hashes
files =
    (codes "pieces.sha256", codes "K  vmlinuz\nb  busybox\nm  busybox-manifest.tsv\n")
    ∷ (codes "pieces.sha256.sig", codes "key\n")
    ∷ (codes "vmlinuz", codes "kernel")
    ∷ (codes "busybox", codes "binary")
    ∷ (codes "busybox-manifest.tsv", codes "m\tbusybox\n")
    ∷ []

abbrev fetched : Option Text → Fetched
fetched none = absent
fetched (some content) = found content

abbrev small_world : World
small_world = record {
  fetch = λ source name. fetched (hash_of name files);
  cached = λ source name. none;
  sha256 = take 1;
  unmarshal = λ content. none;
  decode_hex = λ text. some text;
  verify = λ key content sig. eqt key sig;
}

abbrev signed_options : ResolveOptions
signed_options = record {
  allow_insecure_http = false;
  cache_dir = true;
  require_verified_pieces = true;
  verify_key = some (codes "key");
}

abbrev small_set : PieceSet
small_set = record {
  vmlinuz = codes "kernel";
  busybox = codes "binary";
  applets = record { path = codes "m"; target = codes "busybox" } ∷ [];
  manifest = codes "m\tbusybox\n";
  iptables = none;
  supplicant = none;
  wifi_firmware = [];
  ethernet_firmware = [];
  hashes_verified = true;
  provenance = none;
}

resolve_small :
    resolve_pieces small_world (codes "pieces/") (codes "amd64") signed_options ≡ ok small_set
unfolding resolve_pieces resolve_source resolve_with check_signature fetch_all fetch_others
    check_all check_others check_hash hash_of parse_hashes parse_manifest is_http source_of eqt
    has_prefix
resolve_small = refl

resolve_pieces-Trusted_example :
    Holds
      (Trusted small_world (source_of small_world (codes "pieces/") (codes "amd64")) (codes "key"))
      (resolve_pieces small_world (codes "pieces/") (codes "amd64") signed_options)
resolve_pieces-Trusted_example =
    resolve_pieces-Trusted small_world (codes "pieces/") (codes "amd64") (codes "key")
      signed_options refl

-- A source of a WiFi image with one file of firmware; every provenance is read as that of it.
abbrev wifi_provenance : Provenance
wifi_provenance = record {
  arch = codes "amd64";
  vga = false;
  boot_profile = codes "wifi";
  wifi_firmware = codes "iwl.ucode" ∷ [];
  ethernet_firmware = [];
}

abbrev wifi_files : Hashes
wifi_files =
    (codes "vmlinuz", codes "kernel")
    ∷ (codes "busybox", codes "binary")
    ∷ (codes "busybox-manifest.tsv", codes "m\tbusybox\n")
    ∷ (codes "pieces.json", codes "{}")
    ∷ (codes "firmware/iwl.ucode", codes "radio")
    ∷ []

abbrev wifi_world : World
wifi_world = record small_world {
  fetch = λ source name. fetched (hash_of name wifi_files);
  unmarshal = λ content. some wifi_provenance;
}

abbrev wifi_set : PieceSet
wifi_set = record small_set {
  wifi_firmware = (codes "iwl.ucode", codes "radio") ∷ [];
  hashes_verified = false;
  provenance = some wifi_provenance;
}

fetch_wifi : fetch_all wifi_world (codes "pieces") none ≡ ok wifi_set
unfolding fetch_all fetch_others
fetch_wifi = refl

fetch_all-HasFirmware_example : HasFirmware wifi_world (codes "pieces") wifi_set
fetch_all-HasFirmware_example =
    Holds-ok (HasFirmware wifi_world (codes "pieces"))
      (fetch_all-HasFirmware wifi_world (codes "pieces") none) fetch_wifi
