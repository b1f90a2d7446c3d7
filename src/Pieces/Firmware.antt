-- ===== src/Pieces/Firmware.antt =====
-- The firmware in the pieces of internal/pieces/pieces.go, from the cache and from the source.
use cnimbus.Common.{Holds, Holds-any, Holds-bind, List, Option, [], refl, ◌++◌, ◌∷◌, ◌≡◌}
use cnimbus.Common.Text.{Text, codes}
use cnimbus.Pieces.Hashes.{Applet, Hashes, parse_manifest}
use cnimbus.Pieces.Resolve.{
  check_all, ethernet_paths, fetch_all, fetch_others, provenance_of, read_firmware, wifi_paths,
}
use cnimbus.Pieces.World.{
  Fetched, Firmware, PieceSet, World, absent, failed, found, optional_of, piece_of,
}
use cnimbus.Rootfs.Tree.{paths}

module _ (w : World) (source : Text) where
  -- The files of the paths, in order, each with the bytes that the source serves for it.
  abbrev pub IsServed : List Text → Firmware → Type 0
  IsServed [] [] = Unit
  IsServed (path ∷ paths) ((name, content) ∷ files) =
      (name ≡ path)
      × (w.fetch source (codes "firmware/" ++ path) ≡ found content)
      × IsServed paths files
  IsServed [] (f ∷ files) = ⊥
  IsServed (path ∷ paths) [] = ⊥

  -- All the firmware that the provenance lists.
  abbrev pub HasFirmware : PieceSet → Type 0
  HasFirmware s =
      IsServed (wifi_paths w s.provenance) s.wifi_firmware
      × IsServed (ethernet_paths w s.provenance) s.ethernet_firmware

  served : (f : Fetched) → Holds (λ content. f ≡ found content) (piece_of f)
  served (found content) = refl
  served absent = tt
  served failed = tt

  read_firmware-IsServed :
      (paths : List Text) → Holds (IsServed paths) (read_firmware w source paths)
  read_firmware-IsServed [] = tt
  read_firmware-IsServed (path ∷ paths) =
      Holds-bind (λ content. w.fetch source (codes "firmware/" ++ path) ≡ found content)
        (IsServed (path ∷ paths)) (piece_of (w.fetch source (codes "firmware/" ++ path))) _
        (served (w.fetch source (codes "firmware/" ++ path)))
        (λ content e.
          Holds-bind (IsServed paths) (IsServed (path ∷ paths)) (read_firmware w source paths) _
            (read_firmware-IsServed paths) (λ rest h. (refl, e, h)))

  fetch_others-HasFirmware :
      (hashes : Option Hashes) (vmlinuz busybox manifest : Text) (applets : List Applet)
      → Holds HasFirmware (fetch_others w source hashes vmlinuz busybox manifest applets)
  unfolding fetch_others
  fetch_others-HasFirmware hashes vmlinuz busybox manifest applets =
      Holds-any _ (optional_of (w.fetch source (codes "pieces.json"))) _ (λ pieces_json.
        Holds-any _ (provenance_of w pieces_json) _ (λ provenance.
          Holds-bind _ _ (read_firmware w source (wifi_paths w provenance)) _
            (read_firmware-IsServed (wifi_paths w provenance))
            (λ wifi h.
              Holds-bind _ _ (read_firmware w source (ethernet_paths w provenance)) _
                (read_firmware-IsServed (ethernet_paths w provenance))
                (λ ethernet k. Holds-any _ (check_all w hashes _ pieces_json) _ (λ v. (h, k))))))

  -- The pieces that are fetched from a source, with or without a list of hashes, come with exactly
  -- the firmware that their provenance lists for WiFi and for Ethernet, in order, each file with the
  -- bytes that the source serves for its path.
  pub fetch_all-HasFirmware :
      (hashes : Option Hashes) → Holds HasFirmware (fetch_all w source hashes)
  unfolding fetch_all
  fetch_all-HasFirmware hashes =
      Holds-any _ (piece_of (w.fetch source (codes "vmlinuz"))) _ (λ vmlinuz.
        Holds-any _ (piece_of (w.fetch source (codes "busybox"))) _ (λ busybox.
          Holds-any _ (piece_of (w.fetch source (codes "busybox-manifest.tsv"))) _ (λ manifest.
            Holds-any _ (parse_manifest manifest) _
              (λ applets. fetch_others-HasFirmware hashes vmlinuz busybox manifest applets))))
