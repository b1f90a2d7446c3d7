-- ===== src/Iso/Boots.antt =====
-- Every boot entry of an ISO image names a file that is there, and loads all of it.
use cnimbus.Common.{
  All, Bool, Bool-cases, List, Option, Result, [], ap, arith, err, false, if◌then◌else◌, inl, inr,
  ltb, none, ok, refl, some, true, ℕ, ◌%◌, ◌*◌, ◌++◌, ◌+◌, ◌/◌, ◌<◌, ◌>>=◌, ◌^◌, ◌||◌, ◌∷◌, ◌≡◌,
  ◌≤◌, ◌⊎◌,
}
use cnimbus.Common.Bytes.{Bytes}
use cnimbus.Common.Text.{Text, codes, eqt}
use cnimbus.Iso.Image.{
  IsoFailure, IsoImage, IsoPlan, WorkFile, efi_boot_file_name, efi_load_blocks,
  efi_payload_too_large, metadata_files, or_else, plan_for, plan_of, workspace_files, write_iso,
}

abbrev has_work : Text → List WorkFile → Bool
has_work path [] = false
has_work path (f ∷ fs) = eqt path (47 ∷ f.work_path) || has_work path fs

-- The load size of an EFI entry is that of the whole image, to the sector.
abbrev pub Loads : ℕ → Option ℕ → Type 0
Loads efi_size none = Unit
Loads efi_size (some blocks) =
    (efi_size ≤ blocks * 512) × (blocks * 512 < efi_size + 512) × (blocks < 2 ^ 16)

pub record Boots (efi_size : ℕ) (p : IsoPlan) : Type 0 where
  pub files_there : All (λ e. has_work e.boot_file p.work_files ≡ true) p.boot_entries
  pub loaded : All (λ e. Loads efi_size e.load_blocks) p.boot_entries

-- How a step ends that El Torito's 16-bit count of sectors bounds.
abbrev pub Ends {κ} : {A : Type 0} → ℕ → (A → Type κ) → Result IsoFailure A → Type κ
Ends efi_size P r =
    ((efi_size ≤ 65535 * 512) × ((a : _) × ((r ≡ ok a) × P a)))
    ⊎ ((65535 * 512 < efi_size) × (r ≡ err efi_payload_too_large))

Loads-sectors : (n s : ℕ) → s ≡ (n + 511) / 512 → n ≤ 65535 * 512 → Loads n (some (s % 2 ^ 16))
Loads-sectors n s e h = (omega arith, omega arith, omega arith)

ltb→size : (n s : ℕ) → s ≡ (n + 511) / 512 → ltb 65535 s ≡ true → 65535 * 512 < n
ltb→size n s e h = ground arith

ltb→small : (n s : ℕ) → s ≡ (n + 511) / 512 → ltb 65535 s ≡ false → n ≤ 65535 * 512
ltb→small n s e h = ground arith

abbrev bounded : ℕ → Bool → Result IsoFailure ℕ
bounded sectors b = if b then err efi_payload_too_large else ok (sectors % 2 ^ 16)

efi_load_blocks-Ends :
    (efi_size : ℕ)
    → Ends efi_size (λ blocks. Loads efi_size (some blocks)) (efi_load_blocks efi_size)
unfolding efi_load_blocks
efi_load_blocks-Ends efi_size =
    let sectors = (efi_size + 511) / 512 in
    elim (Bool-cases (ltb 65535 sectors)) [
      | inl h ↦ inr (ltb→size efi_size sectors refl h, ap (bounded sectors) h)
      | inr h ↦
          let small = ltb→small efi_size sectors refl h in
          inl (small, (_, (ap (bounded sectors) h, Loads-sectors efi_size sectors refl small)))
    ]

-- The metadata file is never the FAT image.
has_work-metadata_files :
    (metadata : Bytes) (rest : List WorkFile)
    → has_work (codes "/EFIBOOT.IMG") (metadata_files metadata ++ rest)
      ≡ has_work (codes "/EFIBOOT.IMG") rest
unfolding eqt
has_work-metadata_files [] rest = refl
has_work-metadata_files (x ∷ xs) rest = refl

efi_there :
    (is_amd64 : Bool) (arch : Text) (img : IsoImage) (fat_image : Bytes)
    → has_work
        (codes "/EFIBOOT.IMG")
        (workspace_files is_amd64 (efi_boot_file_name arch) img fat_image)
      ≡ true
unfolding eqt workspace_files
efi_there true arch img fat_image = has_work-metadata_files img.metadata _
efi_there false arch img fat_image = has_work-metadata_files img.metadata _

plan_of-Boots :
    (is_amd64 : Bool) (img : IsoImage) (arch : Text) (fat_image : Bytes) (efi_size blocks : ℕ)
    → Loads efi_size (some blocks)
    → Boots efi_size (plan_of is_amd64 img arch fat_image blocks)
unfolding workspace_files eqt
plan_of-Boots true img arch fat_image efi_size blocks h = record {
  files_there = (refl, (efi_there true arch img fat_image, tt));
  loaded = (tt, (h, tt));
}
plan_of-Boots false img arch fat_image efi_size blocks h = record {
  files_there = (efi_there false arch img fat_image, tt);
  loaded = (h, tt);
}

Ends-map :
    {A B : Type 0} (n : ℕ) (P : A → Type 0) (Q : B → Type 0) (f : A → B) (r : Result IsoFailure A)
    → Ends n P r
    → ((a : A) → P a → Q (f a))
    → Ends n Q (r >>= λ a. ok (f a))
Ends-map n P Q f r (inl (h, (a, (e, p)))) g =
    inl (h, (f a, (ap (λ r. r >>= λ a. ok (f a)) e, g a p)))
Ends-map n P Q f r (inr (h, e)) g = inr (h, ap (λ r. r >>= λ a. ok (f a)) e)

plan_for-Ends :
    (is_amd64 : Bool) (img : IsoImage) (arch : Text) (fat_image : Bytes) (efi_size : ℕ)
    → Ends efi_size (Boots efi_size) (plan_for is_amd64 img arch fat_image efi_size)
plan_for-Ends is_amd64 img arch fat_image efi_size =
    Ends-map efi_size (λ blocks. Loads efi_size (some blocks)) (Boots efi_size)
      (plan_of is_amd64 img arch fat_image) (efi_load_blocks efi_size)
      (efi_load_blocks-Ends efi_size) (plan_of-Boots is_amd64 img arch fat_image efi_size)

-- An ISO image is made exactly when the FAT image has at most 65535 sectors, and is refused as too
-- large otherwise. In one that is made, every boot entry that is given to the library names a file
-- of the workspace, and the load size of the EFI entry is the size of the FAT image, rounded up to
-- sectors, in 16 bits: none of it is cut off.
pub write_iso-Boots :
    (img : IsoImage) (fat_image : Bytes) (efi_size : ℕ)
    → Ends efi_size (Boots efi_size) (write_iso img fat_image efi_size)
unfolding write_iso
write_iso-Boots img fat_image efi_size =
    plan_for-Ends (eqt (or_else img.iso_arch (codes "amd64")) (codes "amd64")) img
      (or_else img.iso_arch (codes "amd64")) fat_image efi_size
