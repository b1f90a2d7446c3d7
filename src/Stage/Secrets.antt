-- ===== src/Stage/Secrets.antt =====
-- Which of the files of Stage/Build travel in the first stage. Supervisors' scripts hold every
-- ENV value, and the agent's script the headers of its requests.
use mathlib.Core.List.{map}
use cnimbus.Build.Spec.{services}
use cnimbus.Common.{
  All, Bool, List, Option, [], ap, false, if◌then◌else◌, none, refl, some, sym, true, ◌++◌, ◌∙◌,
  ◌∷◌, ◌≡◌,
}
use cnimbus.Common.Text.{Text, codes, eqt, has_prefix, trim_prefix}
use cnimbus.Nimbus.Types.{EnvVar, Service}
use cnimbus.Scripts.Inittab.{supervisor_script_path}
use cnimbus.Scripts.Shell.{concat}
use cnimbus.Scripts.Spec.{ExtraFile, GuestAgent, PiecesSpec}
use cnimbus.Stage.Build.{
  agent_file, agent_files, all_files, normal_files, shadowed_files, supervisor_file, system_files,
}
use cnimbus.Stage.Root.{root_files_of}
use cnimbus.Stage.Shadow.{
  has_any_prefix, is_shadowed_path, kept, split_shadowed_files, trim_leading_slash,
}

abbrev AllShadowed : List ExtraFile → Type 0
AllShadowed = All (λ f. is_shadowed_path f.path ≡ true)

split-shadowed :
    (ys : List ExtraFile)
    → AllShadowed ys
    → ((split_shadowed_files ys).shadowed ≡ ys) × ((split_shadowed_files ys).normal ≡ [])
unfolding split_shadowed_files
split-shadowed [] h = (refl, refl)
split-shadowed (f ∷ ys) h =
    let both = split-shadowed ys h.1 in rw h.0 (ap (λ rest. f ∷ rest) both.0, both.1)

split-append :
    (xs ys : List ExtraFile)
    → AllShadowed ys
    → ((split_shadowed_files (xs ++ ys)).shadowed ≡ (split_shadowed_files xs).shadowed ++ ys)
      × ((split_shadowed_files (xs ++ ys)).normal ≡ (split_shadowed_files xs).normal)
unfolding split_shadowed_files
split-append [] ys h = split-shadowed ys h
split-append (f ∷ xs) ys h =
    let both = split-append xs ys h in
    elim (is_shadowed_path f.path)
      as (λ b.
        ((kept b f (split_shadowed_files (xs ++ ys))).shadowed
          ≡ (kept b f (split_shadowed_files xs)).shadowed ++ ys)
        × ((kept b f (split_shadowed_files (xs ++ ys))).normal
            ≡ (kept b f (split_shadowed_files xs)).normal)) [
              | true ↦ (ap (λ rest. f ∷ rest) both.0, both.1)
              | false ↦ (both.0, ap (λ rest. f ∷ rest) both.1)
            ]

-- A supervisor's script lies below usr/sbin whatever the service's name is.
supervisor-shadowed :
    (spec : PiecesSpec) (svc : Service) → is_shadowed_path (supervisor_file spec svc).path ≡ true
unfolding is_shadowed_path has_any_prefix has_prefix trim_leading_slash trim_prefix supervisor_file
    supervisor_script_path concat
supervisor-shadowed spec svc = refl

abbrev pub scripts : PiecesSpec → List Service → List ExtraFile
scripts spec services = map (supervisor_file spec) services ++ agent_files spec.agent

abbrev pub IsSecret : ExtraFile → Type 0
IsSecret f = (is_shadowed_path f.path ≡ true) × (f.perm ≡ 0o600)

agent-IsSecret : (agent : Option GuestAgent) → All IsSecret (agent_files agent)
unfolding agent_files agent_file is_shadowed_path has_any_prefix has_prefix trim_leading_slash
    trim_prefix
agent-IsSecret none = tt
agent-IsSecret (some a) =
    elim (eqt a.kind (codes "http")) as (λ b. All IsSecret (if b then agent_file a ∷ [] else [])) [
      | true ↦ ((refl, refl), tt)
      | false ↦ tt
    ]

scripts-IsSecret :
    (spec : PiecesSpec) (services : List Service) → All IsSecret (scripts spec services)
unfolding supervisor_file
scripts-IsSecret spec [] = agent-IsSecret spec.agent
scripts-IsSecret spec (svc ∷ services) =
    ((supervisor-shadowed spec svc, refl), scripts-IsSecret spec services)

secret-shadowed : (fs : List ExtraFile) → All IsSecret fs → AllShadowed fs
secret-shadowed [] h = tt
secret-shadowed (f ∷ fs) h = (h.0.0, secret-shadowed fs h.1)

-- The files of the read-only root.
abbrev pub root_of : (Text → Bool) → PiecesSpec → List ExtraFile
root_of is_ip spec = root_files_of is_ip spec (normal_files spec)

-- The same image with another WiFi passphrase and other ENV values.
abbrev pub with_secrets : PiecesSpec → Text → List EnvVar → PiecesSpec
with_secrets spec psk env = record spec { wifi_psk = psk; env = env }

normal_files-declared :
    (spec : PiecesSpec) → normal_files spec ≡ (split_shadowed_files spec.extra_files).normal
unfolding normal_files all_files
normal_files-declared spec =
    (split-append spec.extra_files (scripts spec spec.services)
      (secret-shadowed (scripts spec spec.services) (scripts-IsSecret spec spec.services))).1

root_files_of-with_secrets :
    (is_ip : Text → Bool) (spec : PiecesSpec) (psk : Text) (env : List EnvVar)
    (normal : List ExtraFile)
    → root_files_of is_ip (with_secrets spec psk env) normal ≡ root_files_of is_ip spec normal
unfolding root_files_of
root_files_of-with_secrets is_ip spec psk env normal = refl

root_of-with_secrets :
    (is_ip : Text → Bool) (spec : PiecesSpec) (psk : Text) (env : List EnvVar)
    → root_of is_ip (with_secrets spec psk env) ≡ root_of is_ip spec
root_of-with_secrets is_ip spec psk env =
    root_files_of-with_secrets is_ip spec psk env (normal_files (with_secrets spec psk env))
    ∙ ap (root_files_of is_ip spec)
        (normal_files-declared (with_secrets spec psk env) ∙ sym (normal_files-declared spec))

-- The script of every service, whatever its name is, and the script of an http agent travel in
-- the first stage, with a mode that only root can read, after the declared files that go to a
-- directory of programs and before the program's own. Of the declared files and these scripts, the
-- read-only root gets the declared files that go anywhere else. No file of the read-only root, the
-- program's own included, depends on the WiFi passphrase or on an ENV value.
pub shadowed_files-IsSecret :
    (is_ip : Text → Bool) (spec : PiecesSpec) (psk : Text) (env : List EnvVar)
    → (shadowed_files spec
        ≡ (split_shadowed_files spec.extra_files).shadowed
          ++ scripts spec spec.services
          ++ system_files spec)
      × (normal_files spec ≡ (split_shadowed_files spec.extra_files).normal)
      × All IsSecret (scripts spec spec.services)
      × (root_of is_ip (with_secrets spec psk env) ≡ root_of is_ip spec)
unfolding shadowed_files all_files
shadowed_files-IsSecret is_ip spec psk env =
    let all = scripts-IsSecret spec spec.services in
    let both =
      split-append spec.extra_files (scripts spec spec.services)
        (secret-shadowed (scripts spec spec.services) all) in
    (
      ap (λ fs. fs ++ system_files spec) both.0,
      normal_files-declared spec,
      all,
      root_of-with_secrets is_ip spec psk env,
    )
