-- ===== src/Nimbus/Agent.antt =====
-- The AGENT directive of `apply`.
use mathlib.Core.List.{map}
use cnimbus.Common.{
  Bool, true, false, not, Option, none, some, List, [], ◌∷◌, ◌++◌, if◌then◌else◌, Result, ok, err,
  length, drop,
}
use cnimbus.Common.Number.{ℤ, atoi}
use cnimbus.Common.Text.{Text, codes, eqt, fields, trim_space, lower}
use cnimbus.Nimbus.Types.{
  Nimbusfile, Agent, Reason, agent_fields, header_without_agent, header_fields, agent_already_set,
  bad_interval,
}
use cnimbus.Nimbus.Checks.{member}
use cnimbus.Nimbus.Forms.{Header, cut_header}
use cnimbus.Nimbus.Settings.{Handler}

abbrev pub special_kinds : List Text
special_kinds =
    codes "vboxguest"
    ∷ codes "virtio-serial"
    ∷ codes "vmware"
    ∷ codes "aws-imds"
    ∷ codes "ibm-imds"
    ∷ []

abbrev pub is_integer : Option ℤ → Bool
is_integer none = false
is_integer (some n) = true

abbrev pub set_agent : Text → Text → Text → Nimbusfile → Nimbusfile
set_agent kind url interval hf = record hf {
  agent = some (record { kind = kind; url = url; interval = interval; headers = [] });
}

-- `AGENT <kind> <value> [interval]`; the first of the fields is the keyword.
unfoldable pub special_agent : Text → List Text → Nimbusfile → Result Reason Nimbusfile
unfolding atoi
special_agent keyword (_ ∷ url ∷ []) hf = ok (set_agent keyword url (codes "5") hf)
special_agent keyword (_ ∷ url ∷ interval ∷ []) hf =
    if not (is_integer (atoi interval))
    then err bad_interval
    else ok (set_agent keyword url interval hf)
special_agent keyword _ hf = err agent_fields

-- `AGENT <url> [interval]`
unfoldable pub http_agent : List Text → Nimbusfile → Result Reason Nimbusfile
unfolding atoi
http_agent (url ∷ []) hf = ok (set_agent (codes "http") url (codes "5") hf)
http_agent (url ∷ interval ∷ []) hf =
    if not (is_integer (atoi interval))
    then err bad_interval
    else ok (set_agent (codes "http") url interval hf)
http_agent _ hf = err agent_fields

abbrev pub with_header : Option Header → Agent → Nimbusfile → Result Reason Nimbusfile
with_header none a hf = err header_fields
with_header (some h) a hf = ok (record hf {
  agent =
      some (record a { headers = a.headers ++ (record { name = h.name; value = h.value } ∷ []) });
})

-- `AGENT header <Name>: <Value>`; `line` is the text with the first field cut off its front.
unfoldable pub agent_header : Option Agent → Text → Nimbusfile → Result Reason Nimbusfile
unfolding eqt cut_header trim_space
agent_header none line hf = err header_without_agent
agent_header (some a) line hf =
    if not (eqt a.kind (codes "http"))
    then err header_without_agent
    else with_header (cut_header (trim_space line)) a hf

-- The switch on the keyword, when no agent is set yet.
abbrev pub new_agent : Option Agent → Text → List Text → Nimbusfile → Result Reason Nimbusfile
new_agent (some a) keyword fs hf = err agent_already_set
new_agent none keyword fs hf =
    if member keyword special_kinds then special_agent keyword fs hf else http_agent fs hf

-- Go cuts the keyword's length in bytes off the text; in code points it is the same unless blanks
-- outside ASCII stand before the keyword.
unfoldable pub agent_by : List Text → Handler
unfolding lower agent_header special_agent http_agent
agent_by [] rest hf = err agent_fields
agent_by (f ∷ fs) rest hf =
    let keyword = map lower f in
    if eqt keyword (codes "header")
    then agent_header hf.agent (drop (length f) rest) hf
    else new_agent hf.agent keyword (f ∷ fs) hf

unfoldable pub apply_agent : Handler
unfolding fields agent_by
apply_agent rest hf = agent_by (fields rest) rest hf
