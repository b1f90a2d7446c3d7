-- ===== src/Kvserve.antt =====
-- `runKVServe` of cmd/cnimbus/kvserve.go: the start of the server, and its handler, which reads the
-- served file at each request. The test for valid JSON is an argument.
use mathlib.Core.Path.{subst}
use cnimbus.Common.{
  Bool, Bool-cases, Result, [], ap, arith, drop, err, false, if◌then◌else◌, inl, inr, length, not,
  ok, refl, sym, take, take-append-drop, true, ◌&&◌, ◌++◌, ◌+◌, ◌==◌, ◌||◌, ◌↔◌, ◌∙◌, ◌≡◌, ◌≢◌, ◌⊎◌,
}
use cnimbus.Common.Text.{Text, codes, eqt, eqt_iff}

-- The served file: whether it is there, and whether it can be read.
pub data File : Type 0 where
  contents : Text → File
  missing unreadable : File

pub data Refusal : Type 0 where
  tls_pair invalid_json : Refusal

-- The answer to a request, by its status: 200 with the file, 401 or 500.
pub data Answer : Type 0 where
  served : Text → Answer
  unauthorized broken : Answer

abbrev checked_file : (Text → Bool) → File → Result Refusal File
checked_file valid missing = ok (contents (codes "{}\n"))
checked_file valid unreadable = ok unreadable
checked_file valid (contents text) =
    if not (valid text) then err invalid_json else ok (contents text)

-- From the flags to the file as it is when the server listens.
unfoldable pub start : (Text → Bool) → Text → Text → File → Result Refusal File
unfolding eqt
start valid tls_cert tls_key file =
    if eqt tls_cert [] && not (eqt tls_key []) || not (eqt tls_cert []) && eqt tls_key []
    then err tls_pair
    else checked_file valid file

abbrev bearer : Text
bearer = codes "Bearer "

-- The condition of the handler on the header `Authorization`.
unfoldable pub is_refused : Text → Text → Bool
unfolding eqt
is_refused token auth =
    not (length auth == length bearer + length token)
    || not (eqt (take (length bearer) auth) bearer)
    || not (eqt (drop (length bearer) auth) token)

abbrev answer_with : (Text → Bool) → File → Answer
answer_with valid (contents text) = if not (valid text) then broken else served text
answer_with valid _ = broken

unfoldable pub handle : (Text → Bool) → Text → File → Text → Answer
unfolding is_refused
handle valid token file auth =
    if not (eqt token []) && is_refused token auth then unauthorized else answer_with valid file

-- Who may read: anyone without a token, else whoever sends it.
abbrev pub IsAuthorized : Text → Text → Type 0
IsAuthorized token auth = (token ≡ []) ⊎ (auth ≡ bearer ++ token)

refused-false :
    (token auth : Text)
    → is_refused token auth ≡ false
    → (eqt (take (length bearer) auth) bearer ≡ true)
      × (eqt (drop (length bearer) auth) token ≡ true)
unfolding is_refused
refused-false token auth h = ground arith

false-refused : (token : Text) → eqt token token ≡ true → is_refused token (bearer ++ token) ≡ false
unfolding is_refused eqt
false-refused token h = ground (arith, h)

is_refused-bearer : (token auth : Text) → (is_refused token auth ≡ false) ↔ (auth ≡ bearer ++ token)
is_refused-bearer token auth = (
  λ h.
      let (front, back) = refused-false token auth h in
      sym (take-append-drop (length bearer) auth)
      ∙ ap (λ (t : Text). t ++ drop (length bearer) auth) ((eqt_iff _ bearer).0 front)
      ∙ ap (λ (t : Text). bearer ++ t) ((eqt_iff _ token).0 back),
  λ e.
      subst (λ (a : Text). is_refused token a ≡ false) (sym e)
        (false-refused token ((eqt_iff token token).1 refl)),
)

guard-IsAuthorized :
    (token auth : Text)
    → ((not (eqt token []) && is_refused token auth) ≡ false) ↔ IsAuthorized token auth
guard-IsAuthorized token auth = (
  λ h. elim (Bool-cases (eqt token [])) [
    | inl t ↦ inl ((eqt_iff token []).0 t)
    | inr f ↦ inr ((is_refused-bearer token auth).0 (ground arith))
  ],
  λ a. elim a [
    | inl e ↦ let t = (eqt_iff token []).1 e in ground arith
    | inr e ↦ let r = (is_refused-bearer token auth).1 e in ground arith
  ],
)

answer_with-served :
    (valid : Text → Bool) (file : File) (text : Text)
    → (answer_with valid file ≡ served text) ↔ ((file ≡ contents text) × (valid text ≡ true))
answer_with-served valid missing text = ground arith
answer_with-served valid unreadable text = ground arith
answer_with-served valid (contents t) text = elim (Bool-cases (valid t)) [
  | inl v ↦
      let text_of : Answer → Text = λ a. elim a [ served x ↦ x | _ ↦ t ] in
      let content_of : File → Text = λ f. elim f [ contents x ↦ x | _ ↦ t ] in
      rw v (
        λ h. (ap contents (ap text_of h), subst (λ (x : Text). valid x ≡ true) (ap text_of h) v),
        λ (e, k). ap served (ap content_of e),
      )
  | inr f ↦
      let content_of : File → Text = λ f. elim f [ contents x ↦ x | _ ↦ t ] in
      rw f (
        λ h. absurd (ground (arith, h)),
        λ (e, k).
            absurd (
              ground (arith, f, k, subst (λ (x : Text). valid x ≡ true) (sym (ap content_of e)) k)),
      )
]

-- A request is answered with a text exactly if it is authorized, and the file has that text, which
-- is valid JSON.
pub handle-served :
    (valid : Text → Bool) (token : Text) (file : File) (auth text : Text)
    → (handle valid token file auth ≡ served text)
      ↔ (IsAuthorized token auth × (file ≡ contents text) × (valid text ≡ true))
unfolding handle
handle-served valid token file auth text = (
  λ h. elim (Bool-cases (not (eqt token []) && is_refused token auth)) [
    | inl t ↦ absurd (ground (arith, t, h))
    | inr g ↦
        let answered : answer_with valid file ≡ served text = ground (arith, g, h) in
        let (e, v) = (answer_with-served valid file text).0 answered in
        ((guard-IsAuthorized token auth).0 g, e, v)
  ],
  λ (a, e, v).
      let g = (guard-IsAuthorized token auth).1 a in
      rw g ((answer_with-served valid file text).1 (e, v)),
)

start-contents :
    (valid : Text → Bool) (cert key : Text) (file after : File)
    → valid (codes "{}\n") ≡ true
    → file ≢ unreadable
    → start valid cert key file ≡ ok after
    → (text : Text) × (after ≡ contents text) × (valid text ≡ true)
unfolding start
start-contents valid cert key missing after v r s = (codes "{}\n", ground arith, v)
start-contents valid cert key unreadable after v r s = absurd (r refl)
start-contents valid cert key (contents text) after v r s = (text, ground arith, ground arith)

-- After a start that succeeds with a file that can be read, and as long as nobody changes it, every
-- authorized request is served, if the empty object is valid JSON.
pub start-handle :
    (valid : Text → Bool) (cert key token auth : Text) (file after : File)
    → valid (codes "{}\n") ≡ true
    → file ≢ unreadable
    → start valid cert key file ≡ ok after
    → IsAuthorized token auth
    → (text : Text) × (handle valid token after auth ≡ served text)
start-handle valid cert key token auth file after v readable s a =
    let (text, e, t) = start-contents valid cert key file after v readable s in
    (text, (handle-served valid token after auth text).1 (a, e, t))
