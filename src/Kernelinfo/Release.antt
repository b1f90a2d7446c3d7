-- ===== src/Kernelinfo/Release.antt =====
-- The release index, `fetchIndex`, `Resolve` and `fallbackRelease` of
-- internal/kernelinfo/kernelinfo.go. What the network answers and the JSON decoder are arguments,
-- and so is `sort.Slice`, which leaves the order of equal elements open.
use cnimbus.Common.{
  Bool, List, Option, Result, [], err, false, if◌then◌else◌, length, none, not, ok, some, take,
  true, ℕ, ◌&&◌, ◌++◌, ◌-◌, ◌==◌, ◌>>=◌, ◌∷◌,
}
use cnimbus.Common.Bytes.{Bytes}
use cnimbus.Common.Number.{ℤ}
use cnimbus.Common.Text.{Text, codes, cut, eqt}

pub data Failure : Type 0 where
  upstream_fetch unreadable bad_index no_stable no_longterm no_major : Failure

pub record Release : Type 0 where
  pub moniker : Text
  pub version : Text
  pub is_eol : Bool
  pub timestamp : ℤ
  pub source : Text
  pub pgp : Text

pub record Resolved : Type 0 where
  pub version : Text
  pub source : Text
  pub pgp : Text
  pub moniker : Text
  pub fallback : Bool

-- An HTTP response: its status, and its body if it could be read.
pub record Response : Type 0 where
  pub status : ℕ
  pub body : Option Bytes

abbrev read_body : (Bytes → Option (List Release)) → Option Bytes → Result Failure (List Release)
read_body unmarshal none = err Failure.unreadable
read_body unmarshal (some body) = elim (unmarshal body) [
  | none ↦ err bad_index
  | some releases ↦ ok releases
]

-- `none` is a transport error of `client.Get`.
unfoldable pub fetch_index :
    (Bytes → Option (List Release)) → Option Response → Result Failure (List Release)
fetch_index unmarshal none = err upstream_fetch
fetch_index unmarshal (some response) =
    if not (response.status == 200) then err upstream_fetch else read_body unmarshal response.body

abbrev pub resolved : Release → Resolved
resolved r = record {
  version = r.version;
  source = r.source;
  pgp = r.pgp;
  moniker = r.moniker;
  fallback = false;
}

-- The first release that passes a test.
abbrev pub first_with : (Release → Bool) → List Release → Option Release
first_with p [] = none
first_with p (r ∷ rs) = if p r then some r else first_with p rs

abbrev pub is_stable : Release → Bool
is_stable r = eqt r.moniker (codes "stable")

abbrev pub is_active_longterm : Release → Bool
is_active_longterm r = eqt r.moniker (codes "longterm") && not r.is_eol

abbrev pub has_version : Text → Release → Bool
has_version version r = eqt r.version version

unfoldable pub active_longterm : List Release → List Release
unfolding eqt
active_longterm [] = []
active_longterm (r ∷ rs) =
    let rest = active_longterm rs in if is_active_longterm r then r ∷ rest else rest

unfoldable pub major_series : Text → Result Failure Text
unfolding cut
major_series version = let c = cut 46 version in if c.found then ok c.before else err no_major

-- `url` without its last bytes, those of ".tar.xz"
abbrev pub without_extension : Text → Text
without_extension url = take (length url - length (codes ".tar.xz")) url

abbrev pub tarball_url : Text → Text → Text
tarball_url major version =
    codes "https://cdn.kernel.org/pub/linux/kernel/v"
    ++ major
    ++ codes ".x/linux-"
    ++ version
    ++ codes ".tar.xz"

unfoldable pub fallback_release : Text → Result Failure Resolved
unfolding major_series
fallback_release version = do
  major ← major_series version
  let url = tarball_url major version
  ok (record {
    version = version;
    source = url;
    pgp = without_extension url ++ codes ".tar.sign";
    moniker = codes "explicit";
    fallback = true;
  })

abbrev pub or_fail : Failure → Option Release → Result Failure Resolved
or_fail e none = err e
or_fail e (some r) = ok (resolved r)

abbrev pub head : List Release → Option Release
head [] = none
head (r ∷ rs) = some r

-- The newest of the active longterm releases, after the test for none of them.
abbrev pub longterm_of : (List Release → List Release) → List Release → Result Failure Resolved
longterm_of sort [] = err no_longterm
longterm_of sort (r ∷ rs) = or_fail no_longterm (head (sort (r ∷ rs)))

abbrev pub explicit_of : Text → Option Release → Result Failure Resolved
explicit_of spec none = fallback_release spec
explicit_of spec (some r) = ok (resolved r)

-- `Resolve` on the releases of the index.
unfoldable pub resolve_in :
    (List Release → List Release) → Text → List Release → Result Failure Resolved
unfolding active_longterm fallback_release
resolve_in sort spec releases =
    if eqt spec (codes "latest-stable")
    then or_fail no_stable (first_with is_stable releases)
    else if eqt spec (codes "latest-longterm")
    then longterm_of sort (active_longterm releases)
    else explicit_of spec (first_with (has_version spec) releases)

unfoldable pub resolve :
    (Bytes → Option (List Release))
    → (List Release → List Release)
    → Option Response
    → Text
    → Result Failure Resolved
unfolding fetch_index resolve_in
resolve unmarshal sort response spec = do
  releases ← fetch_index unmarshal response
  resolve_in sort spec releases
