-- ===== src/Pieces/Resolve.antt =====
-- `Resolve`, `loadFromCache`, `readPiece` and `readOptionalPiece` of internal/pieces/pieces.go, and
-- `verifySignature` of sign.go. Every file is read once; what a read gives depends on its source
-- and name. The files that `saveToCache` writes are not modelled: nothing here reads them again.
use mathlib.Core.List.{reverse}
use cnimbus.Common.{
  Bool, List, Option, Result, [], err, false, if◌then◌else◌, none, not, ok, some, true, ◌&&◌, ◌++◌,
  ◌>>=◌, ◌||◌, ◌∷◌,
}
use cnimbus.Common.Text.{Text, codes, has_prefix, trim_prefix, trim_space}
use cnimbus.Nimbus.Checks.{has_wifi_driver}
use cnimbus.Pieces.Hashes.{
  Applet, Failure, Hashes, bad_provenance, check_hash, insecure_http, no_hashes, parse_hashes,
  parse_manifest, signature_invalid,
}
use cnimbus.Pieces.World.{
  Firmware, PieceSet, Provenance, ResolveOptions, World, optional_of, piece_of, required, tolerated,
}
use cnimbus.Rootfs.Tree.{paths}

module _ (w : World) where
  abbrev pub check : Hashes → Text → Text → Result Failure (Unit {0})
  check hashes name content = check_hash w.sha256 hashes name content

  -- A check of a piece that need not be there.
  abbrev pub check_optional : Hashes → Text → Option Text → Result Failure (Unit {0})
  check_optional hashes name none = ok tt
  check_optional hashes name (some content) = check hashes name content

  abbrev pub check_firmware : Hashes → Firmware → Result Failure (Unit {0})
  check_firmware hashes [] = ok tt
  check_firmware hashes ((path, content) ∷ rest) = do
    _ ← check hashes (codes "firmware/" ++ path) content
    check_firmware hashes rest

  abbrev pub provenance_of : Option Text → Result Failure (Option Provenance)
  provenance_of none = ok none
  provenance_of (some content) = elim (w.unmarshal content) [
    | none ↦ err bad_provenance
    | some p ↦ ok (some p)
  ]

  -- In the cache a file that cannot be decoded counts as none.
  abbrev pub cached_provenance : Option Text → Option Provenance
  cached_provenance none = none
  cached_provenance (some content) = w.unmarshal content

  -- `loadFromCache` behind the reads of the three files that must be there.
  unfoldable pub check_cached : Text → Hashes → Text → Text → Text → Result Failure PieceSet
  unfolding check_hash parse_manifest
  check_cached source hashes vmlinuz busybox manifest = do
    _ ← check hashes (codes "vmlinuz") vmlinuz
    _ ← check hashes (codes "busybox") busybox
    _ ← check hashes (codes "busybox-manifest.tsv") manifest
    applets ← parse_manifest manifest
    let iptables = w.cached source (codes "iptables")
    _ ← check_optional hashes (codes "iptables") iptables
    let pieces_json = w.cached source (codes "pieces.json")
    _ ← check_optional hashes (codes "pieces.json") pieces_json
    ok (record {
      vmlinuz = vmlinuz;
      busybox = busybox;
      applets = applets;
      manifest = manifest;
      iptables = iptables;
      supplicant = none;
      wifi_firmware = [];
      ethernet_firmware = [];
      hashes_verified = true;
      provenance = cached_provenance pieces_json;
    })

  -- `loadFromCache`; every error is a miss.
  unfoldable pub load_from_cache : Text → Hashes → Result Failure PieceSet
  unfolding check_cached
  load_from_cache source hashes = do
    vmlinuz ← required (w.cached source (codes "vmlinuz"))
    busybox ← required (w.cached source (codes "busybox"))
    manifest ← required (w.cached source (codes "busybox-manifest.tsv"))
    check_cached source hashes vmlinuz busybox manifest

  abbrev pub read_firmware : Text → List Text → Result Failure Firmware
  read_firmware source [] = ok []
  read_firmware source (path ∷ paths) = do
    content ← piece_of (w.fetch source (codes "firmware/" ++ path))
    rest ← read_firmware source paths
    ok ((path, content) ∷ rest)

  abbrev pub read_supplicant : Text → Option Provenance → Option Text
  read_supplicant source none = none
  read_supplicant source (some p) =
      if has_wifi_driver p.boot_profile
      then tolerated (w.fetch source (codes "wpa_supplicant"))
      else none

  abbrev pub wifi_paths : Option Provenance → List Text
  wifi_paths none = []
  wifi_paths (some p) = p.wifi_firmware

  abbrev pub ethernet_paths : Option Provenance → List Text
  ethernet_paths none = []
  ethernet_paths (some p) = p.ethernet_firmware

  -- The block of checks behind `if hashes != nil`; it gives `hashesVerified`.
  unfoldable pub check_others : Hashes → PieceSet → Option Text → Result Failure Bool
  unfolding check_hash
  check_others hashes s pieces_json = do
    _ ← check_optional hashes (codes "iptables") s.iptables
    _ ← check_optional hashes (codes "wpa_supplicant") s.supplicant
    _ ← check_firmware hashes s.wifi_firmware
    _ ← check_firmware hashes s.ethernet_firmware
    _ ← check_optional hashes (codes "pieces.json") pieces_json
    ok true

  unfoldable pub check_all : Option Hashes → PieceSet → Option Text → Result Failure Bool
  unfolding check_others
  check_all none s pieces_json = ok false
  check_all (some hashes) s pieces_json = do
    _ ← check hashes (codes "vmlinuz") s.vmlinuz
    _ ← check hashes (codes "busybox") s.busybox
    _ ← check hashes (codes "busybox-manifest.tsv") s.manifest
    check_others hashes s pieces_json

  -- The pieces read from the source, from `iptables` on.
  unfoldable pub fetch_others :
      Text → Option Hashes → Text → Text → Text → List Applet → Result Failure PieceSet
  unfolding check_all has_wifi_driver
  fetch_others source hashes vmlinuz busybox manifest applets = do
    let iptables = tolerated (w.fetch source (codes "iptables"))
    pieces_json ← optional_of (w.fetch source (codes "pieces.json"))
    provenance ← provenance_of pieces_json
    let supplicant = read_supplicant source provenance
    wifi ← read_firmware source (wifi_paths provenance)
    ethernet ← read_firmware source (ethernet_paths provenance)
    let unchecked : PieceSet = record {
      vmlinuz = vmlinuz;
      busybox = busybox;
      applets = applets;
      manifest = manifest;
      iptables = iptables;
      supplicant = supplicant;
      wifi_firmware = wifi;
      ethernet_firmware = ethernet;
      hashes_verified = false;
      provenance = provenance;
    }
    verified ← check_all hashes unchecked pieces_json
    ok (record unchecked { hashes_verified = verified })

  unfoldable pub fetch_all : Text → Option Hashes → Result Failure PieceSet
  unfolding fetch_others parse_manifest
  fetch_all source hashes = do
    vmlinuz ← piece_of (w.fetch source (codes "vmlinuz"))
    busybox ← piece_of (w.fetch source (codes "busybox"))
    manifest ← piece_of (w.fetch source (codes "busybox-manifest.tsv"))
    applets ← parse_manifest manifest
    fetch_others source hashes vmlinuz busybox manifest applets

  abbrev pub hashes_of : Option Text → Bool → Result Failure (Option Hashes)
  hashes_of (some content) refused = parse_hashes content >>= λ (h : Hashes). ok (some h)
  hashes_of none refused = if refused then err no_hashes else ok none

  abbrev pub verify_decoded : Text → Text → Option Text → Result Failure (Unit {0})
  verify_decoded key content none = err signature_invalid
  verify_decoded key content (some sig) =
      if w.verify key content sig then ok tt else err signature_invalid

  abbrev pub verify_signature : Text → Text → Option Text → Result Failure (Unit {0})
  verify_signature key content none = err signature_invalid
  verify_signature key content (some sig) =
      verify_decoded key content (w.decode_hex (trim_space sig))

  -- The block behind `if opts.VerifyKey != nil`.
  unfoldable pub check_signature : Text → Option Text → Option Text → Result Failure (Unit {0})
  unfolding trim_space
  check_signature source none hash_data = ok tt
  check_signature source (some key) none = err signature_invalid
  check_signature source (some key) (some content) = do
    sig ← optional_of (w.fetch source (codes "pieces.sha256.sig"))
    verify_signature key content sig

  abbrev pub or_fetch : Text → Option Hashes → Result Failure PieceSet → Result Failure PieceSet
  or_fetch source hashes (ok s) = ok s
  or_fetch source hashes (err e) = fetch_all source hashes

  -- A cache is looked at only with a list of hashes.
  abbrev pub from_cache_or_source : Text → Bool → Option Hashes → Result Failure PieceSet
  from_cache_or_source source may_cache none = fetch_all source none
  from_cache_or_source source may_cache (some hashes) =
      if may_cache
      then or_fetch source (some hashes) (load_from_cache source hashes)
      else fetch_all source (some hashes)

  unfoldable pub is_http : Text → Bool
  unfolding has_prefix
  is_http source = has_prefix source (codes "http://") || has_prefix source (codes "https://")

  -- `Resolve` from the parsing of `hashData` on.
  unfoldable pub resolve_with : Text → ResolveOptions → Option Text → Result Failure PieceSet
  unfolding parse_hashes check_signature load_from_cache fetch_all is_http
  resolve_with source opts hash_data = do
    hashes ← hashes_of hash_data (is_http source && opts.require_verified_pieces)
    _ ← check_signature source opts.verify_key hash_data
    from_cache_or_source source (is_http source && opts.cache_dir) hashes

  -- `Resolve` behind the test of the scheme; `source` ends in the architecture.
  unfoldable pub resolve_source : Text → ResolveOptions → Result Failure PieceSet
  unfolding resolve_with
  resolve_source source opts = do
    hash_data ← optional_of (w.fetch source (codes "pieces.sha256"))
    resolve_with source opts hash_data

  -- `strings.TrimSuffix(source, "/") + "/" + arch`
  unfoldable pub source_of : Text → Text → Text
  unfolding trim_prefix
  source_of source arch = reverse (trim_prefix (reverse source) (codes "/")) ++ codes "/" ++ arch

  unfoldable pub resolve_pieces : Text → Text → ResolveOptions → Result Failure PieceSet
  unfolding resolve_source source_of
  resolve_pieces source arch opts =
      let full = source_of source arch in
      if has_prefix full (codes "http://") && not opts.allow_insecure_http
      then err insecure_http
      else resolve_source full opts
