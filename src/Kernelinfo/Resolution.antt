-- ===== src/Kernelinfo/Resolution.antt =====
-- What `Resolve` of internal/kernelinfo/kernelinfo.go promises of a release.
use mathlib.Core.Path.{subst}
use cnimbus.Common.{
  All, Bool, Bool-cases, Holds, Holds-any, Holds-weaken, List, Option, [], ap, arith, false,
  if◌then◌else◌, inl, inr, leb, length, length-append, none, refl, some, sym, take, true, ℕ, ◌++◌,
  ◌-◌, ◌∙◌, ◌∷◌, ◌≡◌, ◌⊎◌,
}
use cnimbus.Common.Number.{negsuc, pos, ℤ}
use cnimbus.Common.Text.{Text, codes, eqt, eqt_iff}
use cnimbus.Kernelinfo.Release.{
  Release, Resolved, active_longterm, explicit_of, fallback_release, first_with, has_version, head,
  is_active_longterm, is_stable, longterm_of, major_series, no_longterm, no_stable, or_fail,
  resolve_in, resolved, without_extension,
}

abbrev pub In : Release → List Release → Type 0
In r [] = ⊥
In r (s ∷ rs) = (s ≡ r) ⊎ In r rs

abbrev pub at_most : ℤ → ℤ → Bool
at_most (pos a) (pos b) = leb a b
at_most (negsuc a) (pos b) = true
at_most (pos a) (negsuc b) = false
at_most (negsuc a) (negsuc b) = leb b a

-- What `sort.Slice` documents of its result, for the order of the code: the same elements, and
-- none before a newer one.
abbrev pub NewestFirst : List Release → Type 0
NewestFirst [] = Unit
NewestFirst (r ∷ rs) =
    All (λ (s : Release). at_most s.timestamp r.timestamp ≡ true) (r ∷ rs) × NewestFirst rs

pub record Sorted (rs sorted : List Release) : Type 0 where
  pub from_list : (r : Release) → In r sorted → In r rs
  pub to_list : (r : Release) → In r rs → In r sorted
  pub newest : NewestFirst sorted

abbrev pub IsNewestLongterm : List Release → Release → Type 0
IsNewestLongterm releases r =
    (s : Release)
    → In s releases
    → is_active_longterm s ≡ true
    → at_most s.timestamp r.timestamp ≡ true

-- The address of a signature belongs to that of the archive.
abbrev pub SignedBeside : Resolved → Type 0
SignedBeside x =
    (base : Text) × (x.source ≡ base ++ codes ".tar.xz") × (x.pgp ≡ base ++ codes ".tar.sign")

pub data IsResolution (releases : List Release) : Text → Resolved → Type 0 where
  stable :
      (r : Release)
      → In r releases
      → is_stable r ≡ true
      → IsResolution releases (codes "latest-stable") (resolved r)
  longterm :
      (r : Release)
      → In r releases
      → is_active_longterm r ≡ true
      → IsNewestLongterm releases r
      → IsResolution releases (codes "latest-longterm") (resolved r)
  listed : (r : Release) → In r releases → IsResolution releases r.version (resolved r)
  guessed :
      {spec : Text} (x : Resolved)
      → x.version ≡ spec
      → first_with (has_version spec) releases ≡ none
      → SignedBeside x
      → x.fallback ≡ true
      → IsResolution releases spec x

first_with-In :
    (p : Release → Bool) (releases : List Release) (r : Release)
    → first_with p releases ≡ some r
    → In r releases × (p r ≡ true)
first_with-In p [] r h = absurd (ground arith)
first_with-In p (s ∷ rs) r h = elim (Bool-cases (p s)) [
  | inl t ↦ let e : s ≡ r = ground (arith, t) in (inl e, subst (λ (x : Release). p x ≡ true) e t)
  | inr f ↦ let (i, t) = first_with-In p rs r (ground (arith, f)) in (inr i, t)
]

In-kept :
    (b : Bool) (s r : Release) (rs : List Release)
    → In r (if b then s ∷ rs else rs)
    → ((b ≡ true) × (s ≡ r)) ⊎ In r rs
In-kept true s r rs (inl e) = inl (refl, e)
In-kept true s r rs (inr i) = inr i
In-kept false s r rs i = inr i

active_longterm-In :
    (releases : List Release) (r : Release)
    → In r (active_longterm releases)
    → In r releases × (is_active_longterm r ≡ true)
unfolding active_longterm
active_longterm-In [] r i = absurd i
active_longterm-In (s ∷ rs) r i = elim (In-kept (is_active_longterm s) s r (active_longterm rs) i) [
  | inl (t, e) ↦ (inl e, subst (λ (x : Release). is_active_longterm x ≡ true) e t)
  | inr j ↦ let (k, t) = active_longterm-In rs r j in (inr k, t)
]

In-active_longterm :
    (releases : List Release) (r : Release)
    → In r releases
    → is_active_longterm r ≡ true
    → In r (active_longterm releases)
unfolding active_longterm
In-active_longterm [] r i t = absurd i
In-active_longterm (s ∷ rs) r (inl e) t =
    let u : is_active_longterm s ≡ true =
      subst (λ (x : Release). is_active_longterm x ≡ true) (sym e) t in
    rw u (inl e)
In-active_longterm (s ∷ rs) r (inr i) t = elim (Bool-cases (is_active_longterm s)) [
  | inl u ↦ rw u (inr (In-active_longterm rs r i t))
  | inr u ↦ rw u (In-active_longterm rs r i t)
]

at_most-All :
    (r : Release) (rs : List Release) (s : Release)
    → All (λ (x : Release). at_most x.timestamp r.timestamp ≡ true) rs
    → In s rs
    → at_most s.timestamp r.timestamp ≡ true
at_most-All r [] s h i = absurd i
at_most-All r (x ∷ rs) s h (inl e) =
    subst (λ (y : Release). at_most y.timestamp r.timestamp ≡ true) e h.0
at_most-All r (x ∷ rs) s h (inr i) = at_most-All r rs s h.1 i

newest-IsResolution :
    (releases sorted : List Release)
    → Sorted (active_longterm releases) sorted
    → Holds (IsResolution releases (codes "latest-longterm")) (or_fail no_longterm (head sorted))
newest-IsResolution releases [] h = tt
newest-IsResolution releases (r ∷ rs) h =
    let (i, t) = active_longterm-In releases r (h.from_list r (inl refl)) in
    longterm r i t (λ s j u.
      at_most-All r (r ∷ rs) s h.newest.0 (h.to_list s (In-active_longterm releases s j u)))

longterm_of-IsResolution :
    (sort : List Release → List Release) (releases active : List Release)
    → active ≡ active_longterm releases
    → Sorted active (sort active)
    → Holds (IsResolution releases (codes "latest-longterm")) (longterm_of sort active)
longterm_of-IsResolution sort releases [] e h = tt
longterm_of-IsResolution sort releases (r ∷ rs) e h =
    newest-IsResolution releases (sort (r ∷ rs))
      (subst (λ (active : List Release). Sorted active (sort (r ∷ rs))) e h)

take-all : (b e : Text) → take (length b) (b ++ e) ≡ b
take-all [] e = refl
take-all (c ∷ b) e = ap (◌∷◌ c) (take-all b e)

without_extension-append : (b : Text) → without_extension (b ++ codes ".tar.xz") ≡ b
without_extension-append b =
    let n : length (b ++ codes ".tar.xz") - 7 ≡ length b =
      omega (arith, length-append b (codes ".tar.xz")) in
    ap (λ (n : ℕ). take n (b ++ codes ".tar.xz")) n ∙ take-all b (codes ".tar.xz")

fallback_release-SignedBeside :
    (spec : Text)
    → Holds
        (λ (x : Resolved). (x.version ≡ spec) × SignedBeside x × (x.fallback ≡ true))
        (fallback_release spec)
unfolding fallback_release
fallback_release-SignedBeside spec = Holds-any _ (major_series spec) _ (λ major.
    let base : Text =
      codes "https://cdn.kernel.org/pub/linux/kernel/v" ++ major ++ codes ".x/linux-" ++ spec in
    (
      refl,
      (base, refl, ap (λ (b : Text). b ++ codes ".tar.sign") (without_extension-append base)),
      refl,
    ))

stable_of-IsResolution :
    (releases : List Release) (found : Option Release)
    → first_with is_stable releases ≡ found
    → Holds (IsResolution releases (codes "latest-stable")) (or_fail no_stable found)
stable_of-IsResolution releases none e = tt
stable_of-IsResolution releases (some r) e =
    let (i, t) = first_with-In is_stable releases r e in stable r i t

explicit_of-IsResolution :
    (spec : Text) (releases : List Release) (found : Option Release)
    → first_with (has_version spec) releases ≡ found
    → Holds (IsResolution releases spec) (explicit_of spec found)
explicit_of-IsResolution spec releases none e =
    Holds-weaken _ (IsResolution releases spec) (fallback_release spec)
      (λ x (v, signed, f). guessed x v e signed f) (fallback_release-SignedBeside spec)
explicit_of-IsResolution spec releases (some r) e =
    let (i, t) = first_with-In (has_version spec) releases r e in
    subst (λ (v : Text). IsResolution releases v (resolved r)) ((eqt_iff r.version spec).0 t)
      (listed r i)

-- If the index was read and the sorting keeps the elements and puts the newer ones first: what
-- Resolve returns is a stable release of the index for "latest-stable", its newest longterm
-- release that is not at its end of life for "latest-longterm", and for another version its
-- release in the index or, only if there is none, an address with the signature beside it.
pub resolve_in-IsResolution :
    (sort : List Release → List Release) (spec : Text) (releases : List Release)
    → Sorted (active_longterm releases) (sort (active_longterm releases))
    → Holds (IsResolution releases spec) (resolve_in sort spec releases)
unfolding resolve_in
resolve_in-IsResolution sort spec releases h =
    elim (Bool-cases (eqt spec (codes "latest-stable"))) [
      | inl t ↦ rw t (
          subst
            (λ (v : Text).
              Holds (IsResolution releases v) (or_fail no_stable (first_with is_stable releases)))
            (sym ((eqt_iff spec (codes "latest-stable")).0 t))
            (stable_of-IsResolution releases (first_with is_stable releases) refl))
      | inr u ↦ elim (Bool-cases (eqt spec (codes "latest-longterm"))) [
        | inl t ↦
            rw (u, t)
              (subst
                (λ (v : Text).
                  Holds (IsResolution releases v) (longterm_of sort (active_longterm releases)))
                (sym ((eqt_iff spec (codes "latest-longterm")).0 t))
                (longterm_of-IsResolution sort releases (active_longterm releases) refl h))
        | inr f ↦
            rw (u, f)
              (explicit_of-IsResolution spec releases (first_with (has_version spec) releases) refl)
      ]
    ]
