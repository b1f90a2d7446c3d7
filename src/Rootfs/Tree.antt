-- ===== src/Rootfs/Tree.antt =====
-- The operations of `fileTree` in internal/rootfs/tree.go. The keys of the map `seen` are a list.
use mathlib.Core.List.{append-nil, append_assoc}
use mathlib.Core.Path.{subst}
use cnimbus.Common.{
  Bool, List, [], ap, arith, false, if◌then◌else◌, length, refl, suc, sym, true, zero, ℕ, ◌++◌,
  ◌||◌, ◌∙◌, ◌∷◌, ◌≡◌, ◌⊎◌,
}
use cnimbus.Common.Bytes.{Bytes}
use cnimbus.Common.Text.{eqt}
use cnimbus.Rootfs.Path.{clean_path, dir, parent}
use cnimbus.Rootfs.Types.{TreeEntry, entry_dir, entry_file, entry_symlink}

pub record FileTree : Type 0 where
  pub entries : List TreeEntry
  pub seen : List Bytes

abbrev pub new_file_tree : FileTree
new_file_tree = record { entries = []; seen = [] }

unfoldable pub is_seen : Bytes → List Bytes → Bool
unfolding eqt
is_seen q [] = false
is_seen q (p ∷ ps) = eqt q p || is_seen q ps

-- `t.seen[path] = true` and the new entry behind the others
abbrev pub append_entry : TreeEntry → FileTree → FileTree
append_entry e t = record { entries = t.entries ++ e ∷ []; seen = t.seen ++ e.path ∷ [] }

abbrev pub dir_entry : Bytes → TreeEntry
dir_entry path = record { path = path; kind = entry_dir; perm = 0; content = []; link_target = [] }

-- `addDir`; each ancestor takes one unit of fuel.
unfoldable pub add_dir_loop : ℕ → Bytes → FileTree → FileTree
unfolding clean_path dir is_seen
add_dir_loop zero path t = t
add_dir_loop (suc fuel) path t =
    let q = clean_path path in
    let above = add_dir_loop fuel (dir q) t in
    if eqt q [] || is_seen q t.seen then t else append_entry (dir_entry q) above

-- With fuel for the longest chain of ancestors.
unfoldable pub add_dir : Bytes → FileTree → FileTree
unfolding add_dir_loop
add_dir path t = add_dir_loop (suc (length path)) path t

abbrev pub add_entry : TreeEntry → FileTree → FileTree
add_entry e t = if is_seen e.path t.seen then t else append_entry e t

unfoldable pub add_file : Bytes → ℕ → Bytes → FileTree → FileTree
unfolding add_dir
add_file path perm content t =
    let q = clean_path path in
    add_entry
      (record { path = q; kind = entry_file; perm = perm; content = content; link_target = [] })
      (add_dir (dir q) t)

unfoldable pub add_symlink : Bytes → Bytes → FileTree → FileTree
unfolding add_dir
add_symlink path target t =
    let q = clean_path path in
    add_entry
      (record { path = q; kind = entry_symlink; perm = 0; content = []; link_target = target })
      (add_dir (dir q) t)

-- The parent of a path is the root or one of the paths `ps`.
abbrev pub HasParent : List Bytes → Bytes → Type 0
HasParent ps q = (parent q ≡ []) ⊎ (is_seen (parent q) ps ≡ true)

-- Behind entries with the paths `ps`: no path twice, and every parent before its children.
abbrev pub Ordered : List Bytes → List TreeEntry → Type 0
Ordered ps [] = Unit
Ordered ps (e ∷ es) =
    (is_seen e.path ps ≡ false) × HasParent ps e.path × Ordered (ps ++ e.path ∷ []) es

abbrev pub paths : List TreeEntry → List Bytes
paths [] = []
paths (e ∷ es) = e.path ∷ paths es

-- The tree that the kernel's unpacker accepts, and a map of seen paths that is in step with it.
pub record IsTree (t : FileTree) : Type 0 where
  pub in_step : t.seen ≡ paths t.entries
  pub ordered : Ordered [] t.entries

paths-append : (es fs : List TreeEntry) → paths (es ++ fs) ≡ paths es ++ paths fs
paths-append [] fs = refl
paths-append (e ∷ es) fs = ap (◌∷◌ e.path) (paths-append es fs)

pub is_seen-append :
    (q : Bytes) (ps qs : List Bytes) → is_seen q (ps ++ qs) ≡ (is_seen q ps || is_seen q qs)
unfolding is_seen
is_seen-append q [] qs = refl
is_seen-append q (p ∷ ps) qs = ground (arith, is_seen-append q ps qs)

Ordered-append :
    (ps : List Bytes) (es : List TreeEntry) (e : TreeEntry)
    → Ordered ps es
    → is_seen e.path (ps ++ paths es) ≡ false
    → HasParent (ps ++ paths es) e.path
    → Ordered ps (es ++ e ∷ [])
Ordered-append ps [] e h new under = (
  subst (λ (x : List Bytes). is_seen e.path x ≡ false) (append-nil ps) new,
  subst (λ (x : List Bytes). HasParent x e.path) (append-nil ps) under,
  tt,
)
Ordered-append ps (f ∷ es) e h new under =
    let (a, b, c) = h in
    let same = sym (append_assoc ps (f.path ∷ []) (paths es)) in
    (
      a,
      b,
      Ordered-append (ps ++ f.path ∷ []) es e c
          (subst (λ (x : List Bytes). is_seen e.path x ≡ false) same new)
          (subst (λ (x : List Bytes). HasParent x e.path) same under),
    )

pub append_entry-IsTree :
    (e : TreeEntry) (t : FileTree)
    → IsTree t
    → is_seen e.path t.seen ≡ false
    → HasParent t.seen e.path
    → IsTree (append_entry e t)
append_entry-IsTree e t h new under = record {
  in_step =
      ap (λ (ps : List Bytes). ps ++ e.path ∷ []) h.in_step ∙ sym (paths-append t.entries (e ∷ []));
  ordered =
      Ordered-append [] t.entries e h.ordered
        (subst (λ (ps : List Bytes). is_seen e.path ps ≡ false) h.in_step new)
        (subst (λ (ps : List Bytes). HasParent ps e.path) h.in_step under);
}
