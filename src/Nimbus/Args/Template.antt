-- ===== src/Nimbus/Args/Template.antt =====
-- What `substituteArgs` means: a text is a template of characters and `${NAME}` references.
use mathlib.Core.List.{append-nil, append_assoc}
use cnimbus.Common.{
  ==_iff, All, Bool-cases, List, Option-cases, Result, [], ap, arith, err, false, if◌then◌else◌,
  inl, inr, length, none, ok, refl, some, suc, sym, take, ℕ, ◌++◌, ◌+◌, ◌==◌, ◌>>=◌, ◌∙◌, ◌∷◌, ◌≡◌,
}
use cnimbus.Common.Text.{Text, contains}
use cnimbus.Nimbus.Args.{Values, expand, index_of, lookup, subst_loop, subst_round, substitute_args}
use cnimbus.Nimbus.Types.{Reason, undefined_arg}

-- A literal dollar is written twice.
pub data Piece : Type 0 where
  lit : ℕ → Piece
  ref : Text → Piece

unfoldable pub render : List Piece → Text
render [] = []
render (lit c ∷ ps) = if c == b'$' then b'$' ∷ b'$' ∷ render ps else c ∷ render ps
render (ref name ∷ ps) = b'$' ∷ b'{' ∷ (name ++ (b'}' ∷ render ps))

-- A name in braces holds no closing brace.
abbrev pub IsPiece : Piece → Type 0
IsPiece (lit c) = Unit
IsPiece (ref name) = contains name b'}' ≡ false

abbrev pub prepend : Text → Result Reason Text → Result Reason Text
prepend out r = r >>= λ t. ok (out ++ t)

-- Each reference stands for the value of its name; a name with no value is an error.
unfoldable pub expansion : Values → List Piece → Result Reason Text
unfolding lookup
expansion values [] = ok []
expansion values (lit c ∷ ps) = prepend (c ∷ []) (expansion values ps)
expansion values (ref name ∷ ps) =
    let rest = expansion values ps in
    elim (lookup name values) [ none ↦ err undefined_arg | some v ↦ prepend v rest ]

index_of-append :
    (name rest : Text)
    → contains name b'}' ≡ false
    → index_of b'}' (name ++ (b'}' ∷ rest)) ≡ some (length name)
unfolding index_of contains
index_of-append [] rest h = refl
index_of-append (c ∷ s) rest h = ground (arith, index_of-append s rest)

take-append : (xs ys : Text) → take (length xs) (xs ++ ys) ≡ xs
take-append [] ys = refl
take-append (x ∷ xs) ys = ap (◌∷◌ x) (take-append xs ys)

module _ (values : Values) where
  subst_loop-skip_name :
      (name rest out : Text)
      → subst_loop values (name ++ (b'}' ∷ rest)) (suc (length name)) out
        ≡ subst_loop values rest 0 out
  unfolding subst_loop
  subst_loop-skip_name [] rest out = refl
  subst_loop-skip_name (c ∷ s) rest out = subst_loop-skip_name s rest out

  subst_loop-skip_ref :
      (name rest out : Text)
      → subst_loop values (b'{' ∷ (name ++ (b'}' ∷ rest))) (length name + 2) out
        ≡ subst_loop values rest 0 out
  unfolding subst_loop
  subst_loop-skip_ref name rest out =
      let e : length name + 2 ≡ suc (suc (length name)) = omega arith in
      rw e (subst_loop-skip_name name rest out)

  -- One round at a reference in braces.
  subst_loop-ref :
      (name rest out : Text)
      → contains name b'}' ≡ false
      → subst_loop values (b'$' ∷ b'{' ∷ (name ++ (b'}' ∷ rest))) 0 out
        ≡ (expand values name 0 out >>= λ r. subst_loop values rest 0 r.out)
  unfolding subst_loop
  subst_loop-ref name rest out h =
      rw (index_of-append name rest h, take-append)
        (elim (Option-cases (lookup name values)) [
          | inl e ↦ rw (e, expand) refl
          | inr (v, e) ↦ rw (e, expand) (subst_loop-skip_ref name rest (out ++ v))
        ])

  prepend-append :
      (xs ys : Text) (r : Result Reason Text) → prepend (xs ++ ys) r ≡ prepend xs (prepend ys r)
  prepend-append xs ys (ok t) = ap ok (append_assoc xs ys t)
  prepend-append xs ys (err e) = refl

  prepend-nil : (r : Result Reason Text) → prepend [] r ≡ r
  prepend-nil (ok t) = refl
  prepend-nil (err e) = refl

  subst_round-plain :
      (c : ℕ) (s out : Text)
      → (c == b'$') ≡ false
      → subst_round values c s out ≡ ok (record { skip = 0; out = out ++ c ∷ [] })
  unfolding subst_round
  subst_round-plain c [] out h = refl
  subst_round-plain c (d ∷ s) out h = rw h

  subst_loop-expansion :
      (ps : List Piece) (out : Text)
      → All IsPiece ps
      → subst_loop values (render ps) 0 out ≡ prepend out (expansion values ps)
  unfolding subst_loop render expansion
  subst_loop-expansion [] out h = ap ok (sym (append-nil out))
  subst_loop-expansion (lit c ∷ ps) out h = elim (Bool-cases (c == b'$')) [
    | inl e ↦
        let q = (==_iff c b'$').0 e in
        rw q (
          subst_loop-expansion ps (out ++ b'$' ∷ []) h.1
          ∙ prepend-append out (b'$' ∷ []) (expansion values ps))
    | inr e ↦
        rw (e, subst_round-plain c (render ps) out e)
          (subst_loop-expansion ps (out ++ c ∷ []) h.1
            ∙ prepend-append out (c ∷ []) (expansion values ps))
  ]
  subst_loop-expansion (ref name ∷ ps) out h =
      subst_loop-ref name (render ps) out h.0 ∙ (elim (Option-cases (lookup name values)) [
        | inl e ↦ rw (e, expand, expansion) refl
        | inr (v, e) ↦
            rw (e, expand, expansion)
              (subst_loop-expansion ps (out ++ v) h.1 ∙ prepend-append out v (expansion values ps))
      ])

  -- With no dollar there is nothing to substitute.
  expansion-plain :
      (ps : List Piece) → contains (render ps) b'$' ≡ false → expansion values ps ≡ ok (render ps)
  unfolding render expansion contains
  expansion-plain [] h = refl
  expansion-plain (lit c ∷ ps) h = ground (arith, expansion-plain ps)
  expansion-plain (ref name ∷ ps) h = cc

  -- `substituteArgs` of the text of a template is its expansion: literal characters and doubled
  -- dollars come through, each `${NAME}` becomes its value, and a name without a value is the error.
  pub substitute_args-expansion :
      (ps : List Piece) → All IsPiece ps → substitute_args (render ps) values ≡ expansion values ps
  unfolding substitute_args
  substitute_args-expansion ps h = elim (Bool-cases (contains (render ps) b'$')) [
    | inl e ↦ rw e (subst_loop-expansion ps [] h ∙ prepend-nil (expansion values ps))
    | inr e ↦ rw e (sym (expansion-plain ps e))
  ]
