-- ===== src/Pieces/Trust.antt =====
-- What the pieces that `Resolve` of internal/pieces/pieces.go returns are known to be.
use mathlib.Core.Path.{subst}
use cnimbus.Common.{
  All, Bool, Holds, Holds-any, Holds-bind, Holds-weaken, List, Option, Result, [], err, false, none,
  ok, refl, some, sym, true, ◌++◌, ◌∷◌, ◌≡◌,
}
use cnimbus.Common.Text.{Text, codes}
use cnimbus.Pieces.Hashes.{
  Applet, Failure, Hashes, Listed, check_hash-Listed, parse_hashes, parse_manifest,
}
use cnimbus.Pieces.Resolve.{
  check, check_all, check_cached, check_firmware, check_optional, check_others, ethernet_paths,
  fetch_all, fetch_others, from_cache_or_source, load_from_cache, or_fetch, provenance_of,
  read_firmware, read_supplicant, wifi_paths,
}
use cnimbus.Pieces.World.{
  Firmware, PieceSet, World, found, optional_of, piece_of, required, tolerated,
}

module _ (w : World) where
  abbrev pub OptionalListed : Hashes → Text → Option Text → Type 0
  OptionalListed hashes name none = Unit
  OptionalListed hashes name (some content) = Listed w.sha256 hashes name content

  -- Every piece of the set has the hash that the list names.
  pub record Verified (hashes : Hashes) (s : PieceSet) : Type 0 where
    pub vmlinuz_listed : Listed w.sha256 hashes (codes "vmlinuz") s.vmlinuz
    pub busybox_listed : Listed w.sha256 hashes (codes "busybox") s.busybox
    pub manifest_listed : Listed w.sha256 hashes (codes "busybox-manifest.tsv") s.manifest
    pub iptables_listed : OptionalListed hashes (codes "iptables") s.iptables
    pub supplicant_listed : OptionalListed hashes (codes "wpa_supplicant") s.supplicant
    pub wifi_listed :
        All
          (λ (f : Text × Text). Listed w.sha256 hashes (codes "firmware/" ++ f.0) f.1)
          s.wifi_firmware
    pub ethernet_listed :
        All
          (λ (f : Text × Text). Listed w.sha256 hashes (codes "firmware/" ++ f.0) f.1)
          s.ethernet_firmware

  -- The list of hashes was published by the source and its signature verifies under the key.
  abbrev pub Trusted : Text → Text → PieceSet → Type 0
  Trusted source key s =
      (content : Text) × (hashes : Hashes) × (sig : Text) × (w.fetch source (codes "pieces.sha256")
        ≡ found content)
      × (parse_hashes content ≡ ok hashes)
      × (w.verify key content sig ≡ true)
      × Verified hashes s
      × (s.hashes_verified ≡ true)

  check_optional-Listed :
      (hashes : Hashes) (name : Text) (o : Option Text)
      → Holds (λ (u : Unit {0}). OptionalListed hashes name o) (check_optional w hashes name o)
  check_optional-Listed hashes name none = tt
  check_optional-Listed hashes name (some content) = check_hash-Listed w.sha256 hashes name content

  check_firmware-Listed :
      (hashes : Hashes) (fs : Firmware)
      → Holds
          (λ (u : Unit {0}).
            All (λ (f : Text × Text). Listed w.sha256 hashes (codes "firmware/" ++ f.0) f.1) fs)
          (check_firmware w hashes fs)
  check_firmware-Listed hashes [] = tt
  check_firmware-Listed hashes ((path, content) ∷ fs) =
      Holds-bind _ _ (check w hashes (codes "firmware/" ++ path) content) _
        (check_hash-Listed w.sha256 hashes (codes "firmware/" ++ path) content)
        (λ u h.
          Holds-weaken _ _ (check_firmware w hashes fs) (λ v k. (h, k))
            (check_firmware-Listed hashes fs))

  check_others-Verified :
      (hashes : Hashes) (s : PieceSet) (pieces_json : Option Text)
      → Listed w.sha256 hashes (codes "vmlinuz") s.vmlinuz
      → Listed w.sha256 hashes (codes "busybox") s.busybox
      → Listed w.sha256 hashes (codes "busybox-manifest.tsv") s.manifest
      → Holds
          (λ (v : Bool). (v ≡ true) × Verified hashes (record s { hashes_verified = true }))
          (check_others w hashes s pieces_json)
  unfolding check_others
  check_others-Verified hashes s pieces_json h1 h2 h3 =
      Holds-bind _ _ (check_optional w hashes (codes "iptables") s.iptables) _
        (check_optional-Listed hashes (codes "iptables") s.iptables)
        (λ u4 h4.
          Holds-bind _ _ (check_optional w hashes (codes "wpa_supplicant") s.supplicant) _
            (check_optional-Listed hashes (codes "wpa_supplicant") s.supplicant)
            (λ u5 h5.
              Holds-bind _ _ (check_firmware w hashes s.wifi_firmware) _
                (check_firmware-Listed hashes s.wifi_firmware)
                (λ u6 h6.
                  Holds-bind _ _ (check_firmware w hashes s.ethernet_firmware) _
                    (check_firmware-Listed hashes s.ethernet_firmware)
                    (λ u7 h7.
                      Holds-any _ (check_optional w hashes (codes "pieces.json") pieces_json) _
                        (λ u8. (
                          refl,
                          record {
                            vmlinuz_listed = h1;
                            busybox_listed = h2;
                            manifest_listed = h3;
                            iptables_listed = h4;
                            supplicant_listed = h5;
                            wifi_listed = h6;
                            ethernet_listed = h7;
                          },
                        ))))))

  check_all-Verified :
      (hashes : Hashes) (s : PieceSet) (pieces_json : Option Text)
      → Holds
          (λ (v : Bool). (v ≡ true) × Verified hashes (record s { hashes_verified = true }))
          (check_all w (some hashes) s pieces_json)
  unfolding check_all
  check_all-Verified hashes s pieces_json =
      Holds-bind _ _ (check w hashes (codes "vmlinuz") s.vmlinuz) _
        (check_hash-Listed w.sha256 hashes (codes "vmlinuz") s.vmlinuz)
        (λ u1 h1.
          Holds-bind _ _ (check w hashes (codes "busybox") s.busybox) _
            (check_hash-Listed w.sha256 hashes (codes "busybox") s.busybox)
            (λ u2 h2.
              Holds-bind _ _ (check w hashes (codes "busybox-manifest.tsv") s.manifest) _
                (check_hash-Listed w.sha256 hashes (codes "busybox-manifest.tsv") s.manifest)
                (λ u3 h3. check_others-Verified hashes s pieces_json h1 h2 h3)))

  check_cached-Verified :
      (source : Text) (hashes : Hashes) (vmlinuz busybox manifest : Text)
      → Holds
          (λ (s : PieceSet). Verified hashes s × (s.hashes_verified ≡ true))
          (check_cached w source hashes vmlinuz busybox manifest)
  unfolding check_cached
  check_cached-Verified source hashes vmlinuz busybox manifest =
      let iptables = w.cached source (codes "iptables") in
      let pieces_json = w.cached source (codes "pieces.json") in
      Holds-bind _ _ (check w hashes (codes "vmlinuz") vmlinuz) _
        (check_hash-Listed w.sha256 hashes (codes "vmlinuz") vmlinuz)
        (λ u1 h1.
          Holds-bind _ _ (check w hashes (codes "busybox") busybox) _
            (check_hash-Listed w.sha256 hashes (codes "busybox") busybox)
            (λ u2 h2.
              Holds-bind _ _ (check w hashes (codes "busybox-manifest.tsv") manifest) _
                (check_hash-Listed w.sha256 hashes (codes "busybox-manifest.tsv") manifest)
                (λ u3 h3. Holds-any _ (parse_manifest manifest) _ (λ applets.
                  Holds-bind _ _ (check_optional w hashes (codes "iptables") iptables) _
                    (check_optional-Listed hashes (codes "iptables") iptables)
                    (λ u4 h4.
                      Holds-any _ (check_optional w hashes (codes "pieces.json") pieces_json) _
                        (λ u5. (
                          record {
                            vmlinuz_listed = h1;
                            busybox_listed = h2;
                            manifest_listed = h3;
                            iptables_listed = h4;
                            supplicant_listed = tt;
                            wifi_listed = tt;
                            ethernet_listed = tt;
                          },
                          refl,
                        )))))))

  load_from_cache-Verified :
      (source : Text) (hashes : Hashes)
      → Holds
          (λ (s : PieceSet). Verified hashes s × (s.hashes_verified ≡ true))
          (load_from_cache w source hashes)
  unfolding load_from_cache
  load_from_cache-Verified source hashes =
      Holds-any _ (required (w.cached source (codes "vmlinuz"))) _ (λ vmlinuz.
        Holds-any _ (required (w.cached source (codes "busybox"))) _ (λ busybox.
          Holds-any _ (required (w.cached source (codes "busybox-manifest.tsv"))) _
            (λ manifest. check_cached-Verified source hashes vmlinuz busybox manifest)))

  fetch_others-Verified :
      (source : Text) (hashes : Hashes) (vmlinuz busybox manifest : Text) (applets : List Applet)
      → Holds
          (λ (s : PieceSet). Verified hashes s × (s.hashes_verified ≡ true))
          (fetch_others w source (some hashes) vmlinuz busybox manifest applets)
  unfolding fetch_others
  fetch_others-Verified source hashes vmlinuz busybox manifest applets =
      Holds-any _ (optional_of (w.fetch source (codes "pieces.json"))) _ (λ pieces_json.
        Holds-any _ (provenance_of w pieces_json) _ (λ provenance.
          Holds-any _ (read_firmware w source (wifi_paths w provenance)) _ (λ wifi.
            Holds-any _ (read_firmware w source (ethernet_paths w provenance)) _ (λ ethernet.
              let s : PieceSet = record {
                vmlinuz = vmlinuz;
                busybox = busybox;
                applets = applets;
                manifest = manifest;
                iptables = tolerated (w.fetch source (codes "iptables"));
                supplicant = read_supplicant w source provenance;
                wifi_firmware = wifi;
                ethernet_firmware = ethernet;
                hashes_verified = false;
                provenance = provenance;
              } in
              Holds-bind _ _ (check_all w (some hashes) s pieces_json) _
                (check_all-Verified hashes s pieces_json)
                (λ v (t, h). (
                  subst (λ (b : Bool). Verified hashes (record s { hashes_verified = b })) (sym t)
                      h,
                  t,
                ))))))

  fetch_all-Verified :
      (source : Text) (hashes : Hashes)
      → Holds
          (λ (s : PieceSet). Verified hashes s × (s.hashes_verified ≡ true))
          (fetch_all w source (some hashes))
  unfolding fetch_all
  fetch_all-Verified source hashes =
      Holds-any _ (piece_of (w.fetch source (codes "vmlinuz"))) _ (λ vmlinuz.
        Holds-any _ (piece_of (w.fetch source (codes "busybox"))) _ (λ busybox.
          Holds-any _ (piece_of (w.fetch source (codes "busybox-manifest.tsv"))) _ (λ manifest.
            Holds-any _ (parse_manifest manifest) _
              (λ applets. fetch_others-Verified source hashes vmlinuz busybox manifest applets))))

  or_fetch-Verified :
      (source : Text) (hashes : Hashes) (r : Result Failure PieceSet)
      → Holds (λ (s : PieceSet). Verified hashes s × (s.hashes_verified ≡ true)) r
      → Holds
          (λ (s : PieceSet). Verified hashes s × (s.hashes_verified ≡ true))
          (or_fetch w source (some hashes) r)
  or_fetch-Verified source hashes (ok s) h = h
  or_fetch-Verified source hashes (err e) h = fetch_all-Verified source hashes

  pub from_cache_or_source-Verified :
      (source : Text) (may_cache : Bool) (hashes : Hashes)
      → Holds
          (λ (s : PieceSet). Verified hashes s × (s.hashes_verified ≡ true))
          (from_cache_or_source w source may_cache (some hashes))
  from_cache_or_source-Verified source true hashes =
      or_fetch-Verified source hashes (load_from_cache w source hashes)
        (load_from_cache-Verified source hashes)
  from_cache_or_source-Verified source false hashes = fetch_all-Verified source hashes
