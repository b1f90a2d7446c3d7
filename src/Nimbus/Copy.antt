-- ===== src/Nimbus/Copy.antt =====
-- The COPY and ADD directives of `apply`.
use cnimbus.Common.{
  ℕ, ◌/◌, ◌%◌, Bool, ◌||◌, not, Option, none, some, [], ◌∷◌, ◌++◌, ◌==◌, if◌then◌else◌, Result, ok,
  err, ◌>>=◌,
}
use cnimbus.Common.Number.{parse_uint}
use cnimbus.Common.Text.{Text, codes, contains_text, cut, has_prefix, trim_prefix, trim_space}
use cnimbus.Nimbus.Types.{Nimbusfile, Reason, bad_chmod, chmod_zero, chmod_special, copy_fields}
use cnimbus.Nimbus.Lines.{is_empty}
use cnimbus.Nimbus.Settings.{Handler}

abbrev pub chmod_flag : Text
chmod_flag = codes "--chmod="

-- `parsed & 0o7000`: the octal digit of setuid, setgid and sticky.
abbrev pub special_bits : ℕ → ℕ
special_bits mode = mode / 512 % 8

unfoldable pub check_chmod : Option ℕ → Result Reason ℕ
check_chmod none = err bad_chmod
check_chmod (some mode) =
    if mode == 0
    then err chmod_zero
    else if not (special_bits mode == 0)
    then err chmod_special
    else ok mode

-- The permission bits, 0 when there is no flag, and the text behind the flag.
pub record CopyFlags : Type 0 where
  pub chmod : ℕ
  pub rest : Text

unfoldable pub copy_flags : Text → Result Reason CopyFlags
unfolding has_prefix cut trim_prefix parse_uint check_chmod trim_space
copy_flags rest =
    let c = cut b' ' rest in
    if not (has_prefix rest chmod_flag) then ok (record { chmod = 0; rest = rest }) else do
      mode ← check_chmod (parse_uint 8 32 (trim_prefix c.before chmod_flag))
      ok (record { chmod = mode; rest = trim_space c.after })

unfoldable pub add_copy : Bool → CopyFlags → Nimbusfile → Result Reason Nimbusfile
unfolding cut trim_space contains_text
add_copy is_add flags hf =
    let c = cut b' ' flags.rest in
    let dest = trim_space c.after in
    if not c.found || is_empty c.before || is_empty dest
    then err copy_fields
    else ok (record hf {
      copies =
          hf.copies
          ++ (record {
            src = c.before;
            dest = dest;
            is_url = contains_text c.before (codes "://");
            is_add = is_add;
            chmod = flags.chmod;
          }
              ∷ []);
    })

unfoldable pub apply_copy : Bool → Handler
unfolding copy_flags add_copy
apply_copy is_add rest hf = do flags ← copy_flags rest; add_copy is_add flags hf
