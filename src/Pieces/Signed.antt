-- ===== src/Pieces/Signed.antt =====
-- `Resolve` of internal/pieces/pieces.go with a key: what it returns is signed.
use cnimbus.Common.{
  Bool-cases, Holds, Holds-any, Holds-bind, Holds-branch, Holds-weaken, Option, Result, err, inl,
  inr, none, not, ok, refl, some, true, ◌&&◌, ◌>>=◌, ◌≡◌,
}
use cnimbus.Common.Text.{Text, codes, has_prefix, trim_space}
use cnimbus.Pieces.Hashes.{Failure, Hashes, parse_hashes}
use cnimbus.Pieces.Resolve.{
  check_signature, from_cache_or_source, hashes_of, is_http, resolve_pieces, resolve_source,
  resolve_with, source_of, verify_decoded, verify_signature,
}
use cnimbus.Pieces.Trust.{Trusted, from_cache_or_source-Verified}
use cnimbus.Pieces.World.{Fetched, ResolveOptions, World, absent, failed, found, optional_of}

parsed-some :
    (r : Result Failure Hashes)
    → Holds
        (λ (o : Option Hashes). (hashes : Hashes) × (o ≡ some hashes) × (r ≡ ok hashes))
        (r >>= λ (h : Hashes). ok (some h))
parsed-some (ok h) = (h, refl, refl)
parsed-some (err e) = tt

optional_of-found :
    (f : Fetched)
    → Holds (λ (o : Option Text). (c : Text) → o ≡ some c → f ≡ found c) (optional_of f)
optional_of-found (found content) = λ c e. cc
optional_of-found absent = λ c e. cc
optional_of-found failed = tt

module _ (w : World) (source key : Text) where
  verify_decoded-true :
      (content : Text) (decoded : Option Text)
      → Holds
          (λ (u : Unit {0}). (sig : Text) × (w.verify key content sig ≡ true))
          (verify_decoded w key content decoded)
  verify_decoded-true content none = tt
  verify_decoded-true content (some sig) = elim (Bool-cases (w.verify key content sig)) [
    | inl t ↦ rw t (sig, t)
    | inr f ↦ rw f tt
  ]

  verify_signature-true :
      (content : Text) (sig : Option Text)
      → Holds
          (λ (u : Unit {0}). (sig : Text) × (w.verify key content sig ≡ true))
          (verify_signature w key content sig)
  verify_signature-true content none = tt
  verify_signature-true content (some sig) =
      verify_decoded-true content (w.decode_hex (trim_space sig))

  check_signature-true :
      (content : Text)
      → Holds
          (λ (u : Unit {0}). (sig : Text) × (w.verify key content sig ≡ true))
          (check_signature w source (some key) (some content))
  unfolding check_signature
  check_signature-true content =
      Holds-any _ (optional_of (w.fetch source (codes "pieces.sha256.sig"))) _
        (λ sig. verify_signature-true content sig)

  -- Behind the reading of the list of hashes.
  resolve_with-Trusted :
      (opts : ResolveOptions) (hash_data : Option Text)
      → opts.verify_key ≡ some key
      → ((content : Text)
          → hash_data ≡ some content
          → w.fetch source (codes "pieces.sha256") ≡ found content)
      → Holds (Trusted w source key) (resolve_with w source opts hash_data)
  unfolding resolve_with check_signature
  resolve_with-Trusted opts none k f =
      Holds-any _ (hashes_of w none (is_http w source && opts.require_verified_pieces)) _
        (λ hashes. rw k tt)
  resolve_with-Trusted opts (some content) k f =
      Holds-bind
        (λ (o : Option Hashes).
          (hashes : Hashes) × (o ≡ some hashes) × (parse_hashes content ≡ ok hashes))
        _ (parse_hashes content >>= λ (h : Hashes). ok (some h)) _
        (parsed-some (parse_hashes content))
        (λ o (hashes, e, p).
          rw (k, e)
            (Holds-bind _ _ (check_signature w source (some key) (some content)) _
              (check_signature-true content)
              (λ u (sig, v).
                Holds-weaken _ _
                  (from_cache_or_source w source (is_http w source && opts.cache_dir) (some hashes))
                  (λ s (h, t). (content, hashes, sig, f content refl, p, v, h, t))
                  (from_cache_or_source-Verified w source (is_http w source && opts.cache_dir)
                    hashes))))

-- With a key, every set of pieces that is returned is trusted: the source published a list of
-- hashes, a signature of that list verifies under the key, every piece of the set, the optional
-- ones included, has the hash that the list names, and the set says that its hashes were verified;
-- whether the pieces came from the cache or from the source.
pub resolve_pieces-Trusted :
    (w : World) (source arch key : Text) (opts : ResolveOptions)
    → opts.verify_key ≡ some key
    → Holds (Trusted w (source_of w source arch) key) (resolve_pieces w source arch opts)
unfolding resolve_pieces resolve_source
resolve_pieces-Trusted w source arch key opts k =
    let full = source_of w source arch in
    Holds-branch _ (has_prefix full (codes "http://") && not opts.allow_insecure_http) _ _
      (λ secure.
        Holds-bind _ _ (optional_of (w.fetch full (codes "pieces.sha256"))) _
          (optional_of-found (w.fetch full (codes "pieces.sha256")))
          (λ hash_data f. resolve_with-Trusted w full key opts hash_data k f))
