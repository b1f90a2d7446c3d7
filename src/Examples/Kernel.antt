-- ===== src/Examples/Kernel.antt =====
-- A run of `Resolve` on an index with an old longterm release before a newer one.
use mathlib.Core.List.{reverse}
use mathlib.Core.Path.{subst}
use cnimbus.Common.{Holds, List, [], false, inl, inr, refl, sym, ℕ, ◌∷◌, ◌≡◌}
use cnimbus.Common.Number.{pos}
use cnimbus.Common.Text.{Text, codes, eqt}
use cnimbus.Kernelinfo.Release.{Release, active_longterm, resolve_in}
use cnimbus.Kernelinfo.Resolution.{IsResolution, Sorted, resolve_in-IsResolution}

abbrev release_of : Text → ℕ → Release
release_of version time = record {
  moniker = codes "longterm";
  version = version;
  is_eol = false;
  timestamp = pos time;
  source = version;
  pgp = version;
}

abbrev two_releases : List Release
two_releases = release_of (codes "6.1") 10 ∷ release_of (codes "6.6") 20 ∷ []

two_active : active_longterm two_releases ≡ two_releases
unfolding active_longterm eqt
two_active = refl

two_releases-Sorted : Sorted two_releases (reverse two_releases)
two_releases-Sorted = record {
  from_list = λ r i. elim i [ inl e ↦ inr (inl e) | inr (inl e) ↦ inl e | inr (inr e) ↦ absurd e ];
  to_list = λ r i. elim i [ inl e ↦ inr (inl e) | inr (inl e) ↦ inl e | inr (inr e) ↦ absurd e ];
  newest = ((refl, (refl, tt)), ((refl, tt), tt));
}

resolve_in-IsResolution_example :
    Holds
      (IsResolution two_releases (codes "latest-longterm"))
      (resolve_in reverse (codes "latest-longterm") two_releases)
resolve_in-IsResolution_example =
    resolve_in-IsResolution reverse (codes "latest-longterm") two_releases
      (subst (λ (rs : List Release). Sorted rs (reverse rs)) (sym two_active) two_releases-Sorted)
