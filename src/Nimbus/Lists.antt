-- ===== src/Nimbus/Lists.antt =====
-- The directives of `apply` that add to a list, and those for commands and services.
pub mod Ntp
pub mod Restart
use cnimbus.Common.{
  Bool, true, false, ◌||◌, not, Option, none, some, List, [], ◌∷◌, ◌++◌, ltb, if◌then◌else◌, Result,
  ok, err, ◌>>=◌,
}
use cnimbus.Common.Number.{ℤ, pos, negsuc, atoi}
use cnimbus.Common.Text.{Text, codes, eqt, cut, fields}
use cnimbus.Nimbus.Types.{
  Nimbusfile, EnvVar, Volume, Service, Runtime, Reason, missing_value, bad_address, needs_key_value,
  bad_protocol, bad_port, restart_fields, bad_policy, no_such_service, volume_fields, bad_fstype,
  service_fields,
}
use cnimbus.Nimbus.Lines.{is_empty}
use cnimbus.Nimbus.Checks.{member, validate_firewall_rule}
use cnimbus.Nimbus.Forms.{parse_exec_form, parse_healthcheck_flags}
use cnimbus.Nimbus.Settings.{Handler}

unfoldable pub apply_dns : Runtime → Handler
apply_dns rt rest hf =
    if is_empty rest
    then err missing_value
    else if not (rt.is_ip rest)
    then err bad_address
    else ok (record hf { dns = hf.dns ++ rest ∷ [] })

-- The first server replaces the default, which `parse` puts in when no NTP line was seen.
unfoldable pub apply_ntp : Handler
unfolding eqt
apply_ntp rest hf =
    if is_empty rest
    then err missing_value
    else if eqt rest (codes "false")
    then ok (record hf { ntp = []; ntp_touched = true })
    else ok (record hf {
      ntp = (if hf.ntp_touched then hf.ntp else []) ++ rest ∷ [];
      ntp_touched = true;
    })

-- LABEL and ENV: a key that is not empty, `=`, and a value.
unfoldable pub key_value : Text → Result Reason EnvVar
unfolding cut
key_value rest =
    let c = cut b'=' rest in
    if not c.found || is_empty c.before
    then err needs_key_value
    else ok (record { key = c.before; value = c.after })

unfoldable pub apply_label : Handler
unfolding key_value
apply_label rest hf = do v ← key_value rest; ok (record hf { labels = hf.labels ++ v ∷ [] })

unfoldable pub apply_env : Handler
unfolding key_value
apply_env rest hf = do v ← key_value rest; ok (record hf { env = hf.env ++ v ∷ [] })

abbrev pub add_port : Option ℤ → Text → Nimbusfile → Result Reason Nimbusfile
add_port none proto hf = err bad_port
add_port (some (negsuc n)) proto hf = err bad_port
add_port (some (pos port)) proto hf =
    if ltb port 1 || ltb 65535 port
    then err bad_port
    else ok (record hf { exposed = hf.exposed ++ (record { port = port; proto = proto } ∷ []) })

unfoldable pub apply_expose : Handler
unfolding cut eqt atoi
apply_expose rest hf =
    let c = cut b'/' rest in
    let proto = if not c.found then codes "tcp" else c.after in
    if is_empty rest
    then err missing_value
    else if not (eqt proto (codes "tcp") || eqt proto (codes "udp"))
    then err bad_protocol
    else add_port (atoi c.before) proto hf

unfoldable pub apply_healthcheck : Runtime → Handler
unfolding parse_healthcheck_flags parse_exec_form
apply_healthcheck rt rest hf = do
  flags ← parse_healthcheck_flags rest
  argv ← parse_exec_form rt flags.remaining
  ok (record hf {
    healthcheck = some (record { argv = argv; interval = flags.interval; retries = flags.retries });
  })

abbrev pub policies : List Text
policies = codes "always" ∷ codes "on-failure" ∷ codes "no" ∷ []

-- The loop over the services, up to the first with this name; `none` when there is none.
unfoldable pub set_restart : Text → Text → List Service → Option (List Service)
unfolding eqt
set_restart target policy [] = none
set_restart target policy (s ∷ ss) =
    let rest = set_restart target policy ss in
    if eqt s.name target
    then some (record s { restart = policy } ∷ ss)
    else elim rest [ none ↦ none | some ss' ↦ some (s ∷ ss') ]

abbrev pub with_services : Option (List Service) → Nimbusfile → Result Reason Nimbusfile
with_services none hf = err no_such_service
with_services (some ss) hf = ok (record hf { services = ss })

abbrev pub restart_by : List Text → Nimbusfile → Result Reason Nimbusfile
restart_by (target ∷ policy ∷ []) hf =
    if not (member policy policies)
    then err bad_policy
    else if eqt target (codes "entrypoint")
    then ok (record hf { entrypoint_restart = policy })
    else with_services (set_restart target policy hf.services) hf
restart_by _ hf = err restart_fields

unfoldable pub apply_restart : Handler
unfolding fields set_restart
apply_restart rest hf = restart_by (fields rest) hf

-- The fields of a VOLUME line before a last `required`, and whether there was one.
pub record VolumeFields : Type 0 where
  pub others : List Text
  pub required : Bool

abbrev after_field : Text → VolumeFields → VolumeFields
after_field f v = record v { others = f ∷ v.others }

unfoldable pub strip_required : List Text → VolumeFields
unfolding eqt
strip_required [] = record { others = []; required = false }
strip_required (f ∷ []) =
    if eqt f (codes "required")
    then record { others = []; required = true }
    else record { others = f ∷ []; required = false }
strip_required (f ∷ g ∷ fs) = after_field f (strip_required (g ∷ fs))

abbrev pub fs_types : List Text
fs_types = codes "vfat" ∷ codes "ext4" ∷ []

abbrev pub add_volume : Volume → Nimbusfile → Nimbusfile
add_volume v hf = record hf { volumes = hf.volumes ++ v ∷ [] }

abbrev pub volume_by : List Text → Bool → Nimbusfile → Result Reason Nimbusfile
volume_by (d ∷ m ∷ []) required hf = ok (
    add_volume (record { device = d; mountpoint = m; fs_type = codes "vfat"; required = required })
      hf)
volume_by (d ∷ m ∷ t ∷ []) required hf =
    if not (member t fs_types)
    then err bad_fstype
    else ok
        (add_volume (record { device = d; mountpoint = m; fs_type = t; required = required }) hf)
volume_by _ required hf = err volume_fields

unfoldable pub apply_volume : Handler
unfolding fields strip_required
apply_volume rest hf = let v = strip_required (fields rest) in volume_by v.others v.required hf

unfoldable pub apply_firewall : Handler
unfolding validate_firewall_rule
apply_firewall rest hf =
    if is_empty rest
    then err missing_value
    else do _ ← validate_firewall_rule rest; ok (record hf { firewall = hf.firewall ++ rest ∷ [] })

unfoldable pub apply_firewall6 : Handler
unfolding validate_firewall_rule
apply_firewall6 rest hf = if is_empty rest then err missing_value else do
  _ ← validate_firewall_rule rest
  ok (record hf { firewall6 = hf.firewall6 ++ rest ∷ [] })

unfoldable pub apply_service : Runtime → Handler
unfolding cut parse_exec_form
apply_service rt rest hf =
    let c = cut b' ' rest in
    if not c.found || is_empty c.before then err service_fields else do
      argv ← parse_exec_form rt c.after
      ok (record hf {
        services = hf.services ++ (record { name = c.before; argv = argv; restart = [] } ∷ []);
      })

unfoldable pub apply_entrypoint : Runtime → Handler
unfolding parse_exec_form
apply_entrypoint rt rest hf = do
  args ← parse_exec_form rt rest
  ok (record hf { entrypoint = args })

unfoldable pub apply_cmd : Runtime → Handler
unfolding parse_exec_form
apply_cmd rt rest hf = do args ← parse_exec_form rt rest; ok (record hf { cmd = args })
