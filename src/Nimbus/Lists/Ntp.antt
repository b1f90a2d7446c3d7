-- ===== src/Nimbus/Lists/Ntp.antt =====
-- A sequence of NTP lines.
use cnimbus.Common.{
  All, Bool-cases, List, Result, [], false, if◌then◌else◌, inl, inr, ok, refl, true, ◌++◌, ◌>>=◌,
  ◌∷◌, ◌≡◌, ◌≢◌,
}
use cnimbus.Common.Text.{Text, codes, eqt}
use cnimbus.Nimbus.Lists.{apply_ntp}
use cnimbus.Nimbus.Parse.{default_ntp}
use cnimbus.Nimbus.Types.{Nimbusfile, Reason}

-- The lines of NTP directives, one after the other.
unfoldable pub ntp_lines : List Text → Nimbusfile → Result Reason Nimbusfile
unfolding apply_ntp
ntp_lines [] hf = ok hf
ntp_lines (l ∷ ls) hf = do hf' ← apply_ntp l hf; ntp_lines ls hf'

-- Each server is added; `false` starts over.
unfoldable pub ntp_servers : List Text → List Text → List Text
unfolding eqt
ntp_servers acc [] = acc
ntp_servers acc (l ∷ ls) = ntp_servers (if eqt l (codes "false") then [] else acc ++ l ∷ []) ls

ntp_lines-touched :
    (ls : List Text) (hf : Nimbusfile) (acc : List Text)
    → All (λ l. l ≢ []) ls
    → ntp_lines ls (record hf { ntp = acc; ntp_touched = true })
      ≡ ok (record hf { ntp = ntp_servers acc ls; ntp_touched = true })
unfolding ntp_lines ntp_servers
ntp_lines-touched [] hf acc h = refl
ntp_lines-touched ([] ∷ ls) hf acc h = absurd (h.0 refl)
ntp_lines-touched ((c ∷ l) ∷ ls) hf acc h = elim (Bool-cases (eqt (c ∷ l) (codes "false"))) [
  | inl e ↦ rw e (ntp_lines-touched ls hf [] h.1)
  | inr e ↦ rw e (ntp_lines-touched ls hf (acc ++ (c ∷ l) ∷ []) h.1)
]

-- NTP lines that are not empty, on a manifest that has seen none: the servers are those named after
-- the last `false`, in order, and the default is not put in behind them, even when none is left.
pub ntp_lines-servers :
    (l : Text) (ls : List Text) (hf : Nimbusfile)
    → hf.ntp_touched ≡ false
    → All (λ x. x ≢ []) (l ∷ ls)
    → (hf' : Nimbusfile) × (ntp_lines (l ∷ ls) hf ≡ ok hf')
      × ((default_ntp hf').ntp ≡ ntp_servers [] (l ∷ ls))
unfolding ntp_lines ntp_servers
ntp_lines-servers [] ls hf t h = absurd (h.0 refl)
ntp_lines-servers (c ∷ l) ls hf t h = (
  record hf { ntp = ntp_servers [] ((c ∷ l) ∷ ls); ntp_touched = true },
  elim (Bool-cases (eqt (c ∷ l) (codes "false"))) [
    | inl e ↦ rw e (ntp_lines-touched ls hf [] h.1)
    | inr e ↦ rw (e, t) (ntp_lines-touched ls hf ((c ∷ l) ∷ []) h.1)
  ],
  refl,
)
