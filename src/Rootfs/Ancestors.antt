-- ===== src/Rootfs/Ancestors.antt =====
-- The trees that `addDir`, `addFile` and `addSymlink` of internal/rootfs/tree.go build.
use cnimbus.Common.{
  Bool-cases, List, [], ap, arith, false, inl, inr, length, refl, suc, true, zero, ℕ, ◌++◌, ◌<◌,
  ◌∙◌, ◌∷◌, ◌≡◌, ◌≢◌, ◌⊎◌,
}
use cnimbus.Common.Bytes.{Bytes}
use cnimbus.Common.Text.{eqt, eqt_iff}
use cnimbus.Rootfs.Path.{clean_path, clean_path-length, dir, parent, parent-length}
use cnimbus.Rootfs.Tree.{
  FileTree, IsTree, add_dir, add_dir_loop, add_entry, add_file, add_symlink, append_entry,
  append_entry-IsTree, dir_entry, is_seen, is_seen-append, new_file_tree,
}
use cnimbus.Rootfs.Types.{TreeEntry, entry_file, entry_symlink}

-- What adding a directory with the cleaned path `q` does to a tree.
record Added (q : Bytes) (t after : FileTree) : Type 0 where
  tree : IsTree after
  longer : (r : Bytes) → length q < length r → is_seen r after.seen ≡ is_seen r t.seen
  here : (q ≡ []) ⊎ (is_seen q after.seen ≡ true)

eqt-same : (q : Bytes) → eqt q q ≡ true
eqt-same q = (eqt_iff q q).1 refl

eqt-length : (r q : Bytes) → length q < length r → eqt r q ≡ false
eqt-length r q h = elim (Bool-cases (eqt r q)) [
  | inl t ↦ absurd (omega (arith, ap length ((eqt_iff r q).0 t), h))
  | inr f ↦ f
]

is_seen-last : (q : Bytes) (ps : List Bytes) → is_seen q (ps ++ q ∷ []) ≡ true
unfolding is_seen
is_seen-last q ps = ground (arith, is_seen-append q ps (q ∷ []), eqt-same q)

is_seen-longer :
    (r q : Bytes) (ps : List Bytes) → length q < length r → is_seen r (ps ++ q ∷ []) ≡ is_seen r ps
unfolding is_seen
is_seen-longer r q ps h = ground (arith, is_seen-append r ps (q ∷ []), eqt-length r q h)

-- A new directory above which all is there.
append_dir-Added :
    (q : Bytes) (t above : FileTree)
    → q ≢ []
    → is_seen q t.seen ≡ false
    → Added (parent q) t above
    → Added q t (append_entry (dir_entry q) above)
append_dir-Added q t above n new h =
    let shorter = parent-length q n in
    record {
      tree = append_entry-IsTree (dir_entry q) above h.tree (h.longer q shorter ∙ new) h.here;
      longer = λ r k. is_seen-longer r q above.seen k ∙ h.longer r (omega arith);
      here = inr (is_seen-last q above.seen);
    }

add_dir_loop-Added :
    (fuel : ℕ) (path : Bytes) (t : FileTree)
    → length (clean_path path) < fuel
    → IsTree t
    → Added (clean_path path) t (add_dir_loop fuel path t)
unfolding add_dir_loop
add_dir_loop-Added zero path t h k = absurd (omega arith)
add_dir_loop-Added (suc fuel) path t h k =
    let q = clean_path path in
    elim (Bool-cases (eqt q [])) [
      | inl root ↦
          rw root (record { tree = k; longer = λ r l. refl; here = inl ((eqt_iff q []).0 root) })
      | inr below ↦ elim (Bool-cases (is_seen q t.seen)) [
        | inl seen ↦ rw (below, seen) (record { tree = k; longer = λ r l. refl; here = inr seen })
        | inr new ↦
            let n : q ≢ [] = λ e. absurd (ground (arith, (eqt_iff q []).1 e)) in
            rw (below, new)
              (append_dir-Added q t (add_dir_loop fuel (dir q) t) n new
                (add_dir_loop-Added fuel (dir q) t (omega (arith, parent-length q n)) k))
      ]
    ]

add_dir-Added :
    (path : Bytes) (t : FileTree) → IsTree t → Added (clean_path path) t (add_dir path t)
unfolding add_dir
add_dir-Added path t h =
    add_dir_loop-Added (suc (length path)) path t (omega (arith, clean_path-length path)) h

-- A file or a link below directories that are there.
add_entry-IsTree :
    (e : TreeEntry) (t above : FileTree)
    → Added (parent e.path) t above
    → IsTree (add_entry e above)
add_entry-IsTree e t above h = elim (Bool-cases (is_seen e.path above.seen)) [
  | inl seen ↦ rw seen h.tree
  | inr new ↦ rw new (append_entry-IsTree e above h.tree new h.here)
]

-- A call of one of the three operations.
pub data Addition : Type 0 where
  dir_at : Bytes → Addition
  file_at : Bytes → ℕ → Bytes → Addition
  symlink_at : Bytes → Bytes → Addition

unfoldable pub add : Addition → FileTree → FileTree
unfolding add_dir add_file add_symlink
add (dir_at path) t = add_dir path t
add (file_at path perm content) t = add_file path perm content t
add (symlink_at path target) t = add_symlink path target t

unfoldable pub add_all : List Addition → FileTree → FileTree
unfolding add
add_all [] t = t
add_all (a ∷ additions) t = add_all additions (add a t)

add-IsTree : (a : Addition) (t : FileTree) → IsTree t → IsTree (add a t)
unfolding add add_file add_symlink
add-IsTree (dir_at path) t h = (add_dir-Added path t h).tree
add-IsTree (file_at path perm content) t h =
    let q = clean_path path in
    add_entry-IsTree
      (record { path = q; kind = entry_file; perm = perm; content = content; link_target = [] }) t
      (add_dir (dir q) t) (add_dir-Added (dir q) t h)
add-IsTree (symlink_at path target) t h =
    let q = clean_path path in
    add_entry-IsTree
      (record { path = q; kind = entry_symlink; perm = 0; content = []; link_target = target }) t
      (add_dir (dir q) t) (add_dir-Added (dir q) t h)

add_all-from : (additions : List Addition) (t : FileTree) → IsTree t → IsTree (add_all additions t)
unfolding add_all
add_all-from [] t h = h
add_all-from (a ∷ additions) t h = add_all-from additions (add a t) (add-IsTree a t h)

-- However the operations are called on a new tree: no path stands in it twice, every entry's
-- parent is the root or an earlier entry, and the map of seen paths is in step with the entries.
pub add_all-IsTree : (additions : List Addition) → IsTree (add_all additions new_file_tree)
add_all-IsTree additions =
    add_all-from additions new_file_tree (record { in_step = refl; ordered = tt })
