-- ===== src/Rootfs/Path.antt =====
-- The paths of internal/rootfs/tree.go: `cleanPath`, and `filepath.Dir` on a system whose
-- separator is the slash.
use mathlib.Core.List.{reverse}
use cnimbus.Common.{
  Bool, List, [], arith, false, if◌then◌else◌, length, length-append, refl, suc, true, ℕ, ◌++◌, ◌+◌,
  ◌-◌, ◌<◌, ◌==◌, ◌||◌, ◌∷◌, ◌≡◌, ◌≢◌, ◌≤◌,
}
use cnimbus.Common.Bytes.{Bytes}
use cnimbus.Common.Text.{codes, eqt, eqt_iff, length-reverse_text, length-trim_left, trim_left}

unfoldable pub clean_path : Bytes → Bytes
unfolding eqt trim_left
clean_path path = let p = trim_left (λ (c : ℕ). c == 47) path in if eqt p (codes ".") then [] else p

-- The element `c` in a cleaned path whose elements, the last first, are `rev`.
abbrev push_parent : Bool → List Bytes → List Bytes
push_parent true [] = []
push_parent false [] = codes ".." ∷ []
push_parent rooted (d ∷ rev) = if eqt d (codes "..") then codes ".." ∷ d ∷ rev else rev

abbrev push_element : Bool → List Bytes → Bytes → List Bytes
push_element rooted rev c =
    if eqt c [] || eqt c (codes ".")
    then rev
    else if eqt c (codes "..")
    then push_parent rooted rev
    else c ∷ rev

-- All elements but the last, cleaned; `current` is the element being read, backwards.
unfoldable pub dir_elements : Bool → List Bytes → Bytes → Bytes → List Bytes
unfolding eqt
dir_elements rooted rev current [] = rev
dir_elements rooted rev current (c ∷ path) = elim (c == 47) [
  | true ↦ dir_elements rooted (push_element rooted rev (reverse current)) [] path
  | false ↦ dir_elements rooted rev (c ∷ current) path
]

abbrev join_elements : List Bytes → Bytes
join_elements [] = []
join_elements (c ∷ []) = c
join_elements (c ∷ d ∷ rev) = join_elements (d ∷ rev) ++ 47 ∷ c

abbrev pub render : Bool → List Bytes → Bytes
render true rev = 47 ∷ join_elements rev
render false [] = codes "."
render false (c ∷ rev) = join_elements (c ∷ rev)

abbrev pub is_rooted : Bytes → Bool
is_rooted [] = false
is_rooted (c ∷ path) = c == 47

-- `filepath.Dir`
unfoldable pub dir : Bytes → Bytes
unfolding dir_elements
dir path = render (is_rooted path) (dir_elements (is_rooted path) [] [] path)

abbrev pub parent : Bytes → Bytes
parent path = clean_path (dir path)

abbrev weight : List Bytes → ℕ
weight [] = 0
weight (c ∷ cs) = suc (length c) + weight cs

push_parent-weight :
    (rooted : Bool) (rev : List Bytes) → weight (push_parent rooted rev) ≤ weight rev + 3
push_parent-weight true [] = omega arith
push_parent-weight false [] = omega arith
push_parent-weight true (d ∷ rev) = ground arith
push_parent-weight false (d ∷ rev) = ground arith

push_element-weight :
    (rooted : Bool) (rev : List Bytes) (c : Bytes)
    → weight (push_element rooted rev c) ≤ weight rev + suc (length c)
push_element-weight rooted rev c =
    ground (arith, push_parent-weight rooted rev, eqt_iff c (codes ".."))

dir_elements-weight :
    (rooted : Bool) (rev : List Bytes) (current path : Bytes)
    → weight (dir_elements rooted rev current path) ≤ weight rev + length current + length path
unfolding dir_elements
dir_elements-weight rooted rev current [] = omega arith
dir_elements-weight rooted rev current (c ∷ path) =
    let next = push_element rooted rev (reverse current) in
    ground (
      arith,
      dir_elements-weight rooted next [] path,
      push_element-weight rooted rev (reverse current),
      length-reverse_text current,
      dir_elements-weight rooted rev (c ∷ current) path,
    )

join_elements-length :
    (c : Bytes) (rev : List Bytes) → length (join_elements (c ∷ rev)) < weight (c ∷ rev)
join_elements-length c [] = omega arith
join_elements-length c (d ∷ rev) =
    omega (arith, join_elements-length d rev, length-append (join_elements (d ∷ rev)) (47 ∷ c))

pub clean_path-length : (path : Bytes) → length (clean_path path) ≤ length path
unfolding clean_path
clean_path-length path = ground (arith, length-trim_left (λ (c : ℕ). c == 47) path)

clean_path-slash : (path : Bytes) → clean_path (47 ∷ path) ≡ clean_path path
unfolding clean_path trim_left
clean_path-slash path = refl

clean_empty : length (clean_path (47 ∷ [])) ≡ 0
unfolding clean_path
clean_empty = refl

clean_dot : length (clean_path (codes ".")) ≡ 0
unfolding clean_path
clean_dot = refl

clean_render :
    (rooted : Bool) (rev : List Bytes) → length (clean_path (render rooted rev)) ≤ weight rev - 1
clean_render true [] = omega (arith, clean_empty)
clean_render false [] = omega (arith, clean_dot)
clean_render true (c ∷ rev) =
    rw (clean_path-slash (join_elements (c ∷ rev)))
      (omega (arith, clean_path-length (join_elements (c ∷ rev)), join_elements-length c rev))
clean_render false (c ∷ rev) =
    omega (arith, clean_path-length (join_elements (c ∷ rev)), join_elements-length c rev)

-- The parent of a path that is not empty is shorter.
pub parent-length : (path : Bytes) → path ≢ [] → length (parent path) < length path
unfolding dir
parent-length [] h = absurd (h refl)
parent-length (c ∷ path) h =
    let rooted = is_rooted (c ∷ path) in
    let elements = dir_elements rooted [] [] (c ∷ path) in
    omega (arith, clean_render rooted elements, dir_elements-weight rooted [] [] (c ∷ path))
