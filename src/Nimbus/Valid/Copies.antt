-- ===== src/Nimbus/Valid/Copies.antt =====
-- The COPY and ADD directives keep the invariant.
use cnimbus.Common.{
  All-concat, Bool, Bool-cases, Holds, Holds-bind, [], arith, inl, inr, not, ◌++◌, ◌||◌, ◌∷◌, ◌≡◌,
  ◌≢◌,
}
use cnimbus.Common.Text.{Text, cut, trim_space}
use cnimbus.Nimbus.Copy.{CopyFlags, add_copy, apply_copy, check_chmod, copy_flags, special_bits}
use cnimbus.Nimbus.Lines.{is_empty}
use cnimbus.Nimbus.Types.{CopyOp, Nimbusfile, Runtime}
use cnimbus.Nimbus.Valid.{IsCopy, IsValid, Keeps}
use cnimbus.Nimbus.Valid.Tests.{is_empty→ne}

abbrev HasPlainMode : CopyFlags → Type 0
HasPlainMode f = special_bits f.chmod ≡ 0

copy_flags-HasPlainMode : (rest : Text) → Holds HasPlainMode (copy_flags rest)
unfolding copy_flags check_chmod
copy_flags-HasPlainMode rest = ground arith

IsCopy-of : (c : CopyOp) → (c.src ≢ []) × (c.dest ≢ []) × (special_bits c.chmod ≡ 0) → IsCopy c
unfolding IsCopy
IsCopy-of c g = g

module _ (rt : Runtime) where
  new_copy-IsValid :
      (c : CopyOp) (hf : Nimbusfile)
      → (c.src ≢ []) × (c.dest ≢ []) × (special_bits c.chmod ≡ 0)
      → IsValid rt hf
      → IsValid rt (record hf { copies = hf.copies ++ c ∷ [] })
  new_copy-IsValid c hf g v = ground (arith, All-concat IsCopy hf.copies c v.copies (IsCopy-of c g))

  add_copy-IsValid :
      (is_add : Bool) (f : CopyFlags) (hf : Nimbusfile)
      → special_bits f.chmod ≡ 0
      → IsValid rt hf
      → Holds (IsValid rt) (add_copy is_add f hf)
  unfolding add_copy
  add_copy-IsValid is_add f hf m v =
      let c = cut b' ' f.rest in
      let dest = trim_space c.after in
      elim (Bool-cases (not c.found || is_empty c.before || is_empty dest)) [
        | inl bad ↦ rw bad tt
        | inr good ↦ rw good (
            new_copy-IsValid _ hf
              (is_empty→ne c.before (ground arith), is_empty→ne dest (ground arith), m) v)
      ]

  pub apply_copy-IsValid : (is_add : Bool) → Keeps rt (apply_copy is_add)
  unfolding apply_copy
  apply_copy-IsValid is_add rest hf v =
      Holds-bind HasPlainMode (IsValid rt) (copy_flags rest) _ (copy_flags-HasPlainMode rest)
        (λ f m. add_copy-IsValid is_add f hf m v)
