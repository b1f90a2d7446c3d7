-- ===== src/Stage/Mounts.antt =====
-- The directories of the read-only root: a volume can only be mounted on one that is there.
use mathlib.Core.List.{append_assoc, reverse, reverse_aux}
use cnimbus.Common.{
  ==_iff, All, Bool, Bool-cases, List, [], ap, arith, false, inl, inr, not, refl, sym, true, ◌&&◌,
  ◌++◌, ◌==◌, ◌||◌, ◌∙◌, ◌∷◌, ◌≡◌, ◌≢◌, ◌⊎◌,
}
use cnimbus.Common.Text.{Text, codes, eqt, eqt_iff, split, split_loop}
use cnimbus.Nimbus.Types.{Volume}
use cnimbus.Scripts.Shell.{join}
use cnimbus.Stage.Root.{
  add_built, add_elements, add_mountpoint, add_mountpoints, add_new, base_dirs, is_listed,
  mount_path, root_dirs,
}

is_listed-append :
    (d : Text) (xs ys : List Text) → is_listed d (xs ++ ys) ≡ (is_listed d xs || is_listed d ys)
unfolding is_listed
is_listed-append d [] ys = refl
is_listed-append d (x ∷ xs) ys = ground (arith, is_listed-append d xs ys)

eqt_refl : (d : Text) → eqt d d ≡ true
eqt_refl d = (eqt_iff d d).1 refl

-- No name stands twice.
pub is_distinct : List Text → Bool
unfolding is_listed
is_distinct [] = true
is_distinct (d ∷ dirs) = not (is_listed d dirs) && is_distinct dirs

is_distinct-last :
    (dirs : List Text) (d : Text)
    → is_distinct dirs ≡ true
    → is_listed d dirs ≡ false
    → is_distinct (dirs ++ d ∷ []) ≡ true
unfolding is_distinct is_listed
is_distinct-last [] d h new = refl
is_distinct-last (x ∷ dirs) d h new =
    ground
      (arith, is_listed-append x dirs (d ∷ []), eqt_iff d x, eqt_iff x d, is_distinct-last dirs d)

pub record Grown (before after : List Text) : Type 0 where
  pub distinct : is_distinct after ≡ true
  pub longer : (d : Text) → is_listed d before ≡ true → is_listed d after ≡ true

Grown-then : (a b c : List Text) → Grown a b → Grown b c → Grown a c
Grown-then a b c g k = record { distinct = k.distinct; longer = λ d h. k.longer d (g.longer d h) }

add_new-listed : (d : Text) (dirs : List Text) → is_listed d (add_new d dirs) ≡ true
unfolding is_listed
add_new-listed d dirs =
    ground (arith, is_listed-append d dirs (d ∷ []), eqt_refl d, Bool-cases (is_listed d dirs))

add_new-longer :
    (d x : Text) (dirs : List Text) → is_listed x dirs ≡ true → is_listed x (add_new d dirs) ≡ true
add_new-longer d x dirs h =
    ground (arith, is_listed-append x dirs (d ∷ []), Bool-cases (is_listed d dirs))

add_new-distinct :
    (d : Text) (dirs : List Text) → is_distinct dirs ≡ true → is_distinct (add_new d dirs) ≡ true
add_new-distinct d dirs h = ground (arith, is_distinct-last dirs d h, Bool-cases (is_listed d dirs))

add_new-Grown :
    (d : Text) (dirs : List Text) → is_distinct dirs ≡ true → Grown dirs (add_new d dirs)
add_new-Grown d dirs h = record {
  distinct = add_new-distinct d dirs h;
  longer = λ x k. add_new-longer d x dirs k;
}

-- The path that the elements are of, as the loop of the code builds it.
whole : Text → List Text → Text
whole built [] = built
whole built (p ∷ ps) = whole (built ++ 47 ∷ p) ps

add_built-Grown :
    (built : Text) (parts dirs : List Text)
    → is_distinct dirs ≡ true
    → is_listed built dirs ≡ true
    → Grown dirs (add_built built parts dirs)
      × (is_listed (whole built parts) (add_built built parts dirs) ≡ true)
unfolding add_built whole
add_built-Grown built [] dirs h k = (record { distinct = h; longer = λ d l. l }, k)
add_built-Grown built (p ∷ ps) dirs h k =
    let d = built ++ 47 ∷ p in
    let now = add_new d dirs in
    let step = add_new-Grown d dirs h in
    let on = add_built-Grown d ps now step.distinct (add_new-listed d dirs) in
    (Grown-then dirs now (add_built d ps now) step on.0, on.1)

whole-join : (b p : Text) (ps : List Text) → whole b (p ∷ ps) ≡ b ++ 47 ∷ join (codes "/") (p ∷ ps)
unfolding whole join
whole-join b p [] = refl
whole-join b p (q ∷ ps) =
    whole-join (b ++ 47 ∷ p) q ps ∙ append_assoc b (47 ∷ p) (47 ∷ join (codes "/") (q ∷ ps))

whole_is_join : (p : Text) (ps : List Text) → whole p ps ≡ join (codes "/") (p ∷ ps)
unfolding whole join
whole_is_join p [] = refl
whole_is_join p (q ∷ ps) = whole-join p q ps

join-more :
    (t : Text) (ts : List Text)
    → ts ≢ []
    → join (codes "/") (t ∷ ts) ≡ t ++ 47 ∷ join (codes "/") ts
unfolding join
join-more t [] h = absurd (h refl)
join-more t (u ∷ ts) h = refl

split_loop-some : (acc s : Text) → split_loop 47 acc s ≢ []
unfolding split_loop
split_loop-some acc [] e = absurd (ground (arith, e))
split_loop-some acc (c ∷ s) e = absurd (ground (arith, e, split_loop-some (c ∷ acc) s))

reverse_aux-append : (a b : Text) → reverse_aux a b ≡ reverse a ++ b
reverse_aux-append [] b = refl
reverse_aux-append (x ∷ a) b =
    reverse_aux-append a (x ∷ b)
    ∙ sym (append_assoc (reverse a) (x ∷ []) b)
    ∙ ap (λ r. r ++ b) (sym (reverse_aux-append a (x ∷ [])))

join-split_loop : (acc s : Text) → join (codes "/") (split_loop 47 acc s) ≡ reverse_aux acc s
unfolding split_loop join
join-split_loop acc [] = refl
join-split_loop acc (c ∷ s) = elim (Bool-cases (c == 47)) [
  | inl e ↦ rw e (
      join-more (reverse acc) (split_loop 47 [] s) (split_loop-some [] s)
      ∙ ap (λ t. reverse acc ++ 47 ∷ t) (join-split_loop [] s)
      ∙ sym (reverse_aux-append acc (47 ∷ s))
      ∙ ap (λ n. reverse_aux acc (n ∷ s)) (sym ((==_iff c 47).0 e)))
  | inr e ↦ rw e (join-split_loop (c ∷ acc) s)
]

add_elements-Grown :
    (parts dirs : List Text)
    → parts ≢ []
    → is_distinct dirs ≡ true
    → Grown dirs (add_elements parts dirs)
      × (is_listed (join (codes "/") parts) (add_elements parts dirs) ≡ true)
add_elements-Grown [] dirs some_part h = absurd (some_part refl)
add_elements-Grown (p ∷ ps) dirs some_part h =
    let now = add_new p dirs in
    let step = add_new-Grown p dirs h in
    let on = add_built-Grown p ps now step.distinct (add_new-listed p dirs) in
    (
      Grown-then dirs now (add_built p ps now) step on.0,
      ap (λ t. is_listed t (add_built p ps now)) (sym (whole_is_join p ps)) ∙ on.1,
    )

-- A mount point has its directory; the root itself, which is trimmed to nothing, needs none.
abbrev pub IsPlaced : Text → List Text → Type 0
IsPlaced mnt dirs = (mnt ≡ []) ⊎ (is_listed mnt dirs ≡ true)

add_mountpoint-Grown :
    (mnt : Text) (dirs : List Text)
    → is_distinct dirs ≡ true
    → Grown dirs (add_mountpoint mnt dirs) × IsPlaced mnt (add_mountpoint mnt dirs)
unfolding add_mountpoint split
add_mountpoint-Grown [] dirs h = (record { distinct = h; longer = λ d l. l }, inl refl)
add_mountpoint-Grown (c ∷ mnt) dirs h =
    let parts = split_loop 47 [] (c ∷ mnt) in
    let on = add_elements-Grown parts dirs (split_loop-some [] (c ∷ mnt)) h in
    (
      on.0,
      inr (
          ap (λ t. is_listed t (add_elements parts dirs)) (sym (join-split_loop [] (c ∷ mnt)))
          ∙ on.1),
    )

IsPlaced-longer : (mnt : Text) (a b : List Text) → Grown a b → IsPlaced mnt a → IsPlaced mnt b
IsPlaced-longer mnt a b g (inl nothing) = inl nothing
IsPlaced-longer mnt a b g (inr there) = inr (g.longer mnt there)

add_mountpoints-Grown :
    (volumes : List Volume) (dirs : List Text)
    → is_distinct dirs ≡ true
    → Grown dirs (add_mountpoints volumes dirs)
      × All (λ v. IsPlaced (mount_path v) (add_mountpoints volumes dirs)) volumes
unfolding add_mountpoints
add_mountpoints-Grown [] dirs h = (record { distinct = h; longer = λ d l. l }, tt)
add_mountpoints-Grown (v ∷ vs) dirs h =
    let now = add_mountpoint (mount_path v) dirs in
    let one = add_mountpoint-Grown (mount_path v) dirs h in
    let on = add_mountpoints-Grown vs now one.0.distinct in
    (
      Grown-then dirs now (add_mountpoints vs now) one.0 on.0,
      (IsPlaced-longer (mount_path v) now (add_mountpoints vs now) on.0 one.1, on.1),
    )

base-distinct : is_distinct base_dirs ≡ true
unfolding is_listed eqt is_distinct
base-distinct = refl

-- The read-only root has a directory for every volume's mount point, and every directory that it
-- is given is made once only.
pub root_dirs-IsPlaced :
    (volumes : List Volume)
    → (is_distinct (root_dirs volumes) ≡ true)
      × All (λ v. IsPlaced (mount_path v) (root_dirs volumes)) volumes
unfolding root_dirs
root_dirs-IsPlaced volumes =
    let both = add_mountpoints-Grown volumes base_dirs base-distinct in (both.0.distinct, both.1)
