-- ===== src/Nimbus/Valid/Agents.antt =====
-- The AGENT directive keeps the invariant.
use mathlib.Core.List.{map}
use cnimbus.Common.{
  All-concat, Bool-cases, Holds, List, Option, Option-cases, [], arith, drop, inl, inr, length,
  none, refl, some, true, ◌∷◌, ◌≡◌,
}
use cnimbus.Common.Number.{atoi, pos}
use cnimbus.Common.Text.{Text, codes, cut, eqt, eqt_iff, fields, lower, trim_space}
use cnimbus.Nimbus.Agent.{
  agent_by, agent_header, apply_agent, http_agent, is_integer, new_agent, set_agent, special_agent,
  special_kinds, with_header,
}
use cnimbus.Nimbus.Checks.{member}
use cnimbus.Nimbus.Forms.{Header, cut_header}
use cnimbus.Nimbus.Types.{Agent, Nimbusfile, Runtime}
use cnimbus.Nimbus.Valid.{IsAgent, IsHeader, IsInteger, IsValid, Keeps, OneOf}
use cnimbus.Nimbus.Valid.Tests.{is_empty→ne, member→OneOf}

default_interval-IsInteger : IsInteger (codes "5")
unfolding IsInteger atoi
default_interval-IsInteger = (pos 5, refl)

is_integer→IsInteger : (s : Text) → is_integer (atoi s) ≡ true → IsInteger s
unfolding IsInteger
is_integer→IsInteger s h = elim (Option-cases (atoi s)) [
  | inl e ↦ ground arith
  | inr (n, e) ↦ (n, e)
]

http-OneOf : OneOf (codes "http") (codes "http" ∷ special_kinds)
unfolding OneOf
http-OneOf = inl refl

special-OneOf : (k : Text) → member k special_kinds ≡ true → OneOf k (codes "http" ∷ special_kinds)
unfolding OneOf
special-OneOf k h = inr (member→OneOf k special_kinds h)

cut_header-IsHeader :
    (s : Text) (h : Header)
    → cut_header s ≡ some h
    → IsHeader (record { name = h.name; value = h.value })
unfolding cut_header IsHeader
cut_header-IsHeader s h e = ground (
  arith,
  is_empty→ne (trim_space (cut b':' s).before),
  is_empty→ne (trim_space (cut b':' s).after),
  is_empty→ne (trim_space (cut b' ' s).before),
  is_empty→ne (trim_space (cut b' ' s).after),
)

module _ (rt : Runtime) where
  set_agent-IsValid :
      (kind url interval : Text) (hf : Nimbusfile)
      → OneOf kind (codes "http" ∷ special_kinds)
      → IsInteger interval
      → IsValid rt hf
      → IsValid rt (set_agent kind url interval hf)
  unfolding IsAgent
  set_agent-IsValid kind url interval hf k i v = ground arith

  http_agent-IsValid :
      (fs : List Text) (hf : Nimbusfile) → IsValid rt hf → Holds (IsValid rt) (http_agent fs hf)
  unfolding http_agent
  http_agent-IsValid [] hf v = tt
  http_agent-IsValid (url ∷ []) hf v =
      set_agent-IsValid (codes "http") url (codes "5") hf http-OneOf default_interval-IsInteger v
  http_agent-IsValid (url ∷ i ∷ []) hf v = elim (Bool-cases (is_integer (atoi i))) [
    | inl e ↦
        rw e (set_agent-IsValid (codes "http") url i hf http-OneOf (is_integer→IsInteger i e) v)
    | inr e ↦ rw e tt
  ]
  http_agent-IsValid (a ∷ b ∷ c ∷ fs) hf v = tt

  special_agent-IsValid :
      (k : Text) (fs : List Text) (hf : Nimbusfile)
      → OneOf k (codes "http" ∷ special_kinds)
      → IsValid rt hf
      → Holds (IsValid rt) (special_agent k fs hf)
  unfolding special_agent
  special_agent-IsValid k [] hf o v = tt
  special_agent-IsValid k (a ∷ []) hf o v = tt
  special_agent-IsValid k (a ∷ url ∷ []) hf o v =
      set_agent-IsValid k url (codes "5") hf o default_interval-IsInteger v
  special_agent-IsValid k (a ∷ url ∷ i ∷ []) hf o v = elim (Bool-cases (is_integer (atoi i))) [
    | inl e ↦ rw e (set_agent-IsValid k url i hf o (is_integer→IsInteger i e) v)
    | inr e ↦ rw e tt
  ]
  special_agent-IsValid k (a ∷ b ∷ c ∷ d ∷ fs) hf o v = tt

  with_header-IsValid :
      (h : Option Header) (a : Agent) (hf : Nimbusfile)
      → ((x : Header) → h ≡ some x → IsHeader (record { name = x.name; value = x.value }))
      → IsAgent (some a)
      → a.kind ≡ codes "http"
      → IsValid rt hf
      → Holds (IsValid rt) (with_header h a hf)
  unfolding IsAgent
  with_header-IsValid none a hf p g e v = tt
  with_header-IsValid (some h) a hf p g e v = ground (
    arith,
    All-concat IsHeader a.headers (record { name = h.name; value = h.value }) g.2 (p h refl),
  )

  agent_header-IsValid :
      (o : Option Agent) (line : Text) (hf : Nimbusfile)
      → IsAgent o
      → IsValid rt hf
      → Holds (IsValid rt) (agent_header o line hf)
  unfolding agent_header
  agent_header-IsValid none line hf g v = tt
  agent_header-IsValid (some a) line hf g v = elim (Bool-cases (eqt a.kind (codes "http"))) [
    | inl e ↦ rw e (
        with_header-IsValid (cut_header (trim_space line)) a hf
          (cut_header-IsHeader (trim_space line)) g ((eqt_iff a.kind (codes "http")).0 e) v)
    | inr e ↦ rw e tt
  ]

  new_agent-IsValid :
      (o : Option Agent) (k : Text) (fs : List Text) (hf : Nimbusfile)
      → IsValid rt hf
      → Holds (IsValid rt) (new_agent o k fs hf)
  new_agent-IsValid (some a) k fs hf v = tt
  new_agent-IsValid none k fs hf v = elim (Bool-cases (member k special_kinds)) [
    | inl e ↦ rw e (special_agent-IsValid k fs hf (special-OneOf k e) v)
    | inr e ↦ rw e (http_agent-IsValid fs hf v)
  ]

  agent_by-IsValid : (fs : List Text) → Keeps rt (agent_by fs)
  unfolding agent_by
  agent_by-IsValid [] rest hf v = tt
  agent_by-IsValid (f ∷ fs) rest hf v = elim (Bool-cases (eqt (map lower f) (codes "header"))) [
    | inl e ↦ rw e (agent_header-IsValid hf.agent (drop (length f) rest) hf v.agent v)
    | inr e ↦ rw e (new_agent-IsValid hf.agent (map lower f) (f ∷ fs) hf v)
  ]

  pub apply_agent-IsValid : Keeps rt apply_agent
  unfolding apply_agent
  apply_agent-IsValid rest hf v = agent_by-IsValid (fields rest) rest hf v
