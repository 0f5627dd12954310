-- ===== src/Agent/Ini/Tests.antt =====
-- A file of dnf-automatic that is changed.
use tenodera.Prelude.{
  ◌≡◌, refl, some, [], ◌∷◌, List, Text, text_eq, text_beq, ◌==◌, codes, if◌then◌else◌, All,
}
use tenodera.Std.Str.{trim, trim_start, trim_end, ends_with, strip_prefix}
use tenodera.Std.Lines.{lines, split_by, ended_lines, strip_cr, starts_with, join}
use tenodera.Agent.Ini.{
  Setting, split_once, read_trimmed, ini_get, ini_append_missing, set_of, ini_set,
}
use tenodera.Agent.Ini.OneLine.{IsPlain}
use tenodera.Agent.Ini.Update.{value_for}
use tenodera.Agent.Ini.File.{or_old, ini_get-ini_set}

abbrev conf : Text
conf =
    codes "[commands]\nupgrade_type = default\napply_updates = no\n\n[emitters]\nemit_via = stdio\n"

abbrev updates : List Setting
updates = (codes "apply_updates", codes "yes") ∷ (codes "reboot", codes "when-needed") ∷ []

updates-IsPlain : All IsPlain updates
updates-IsPlain = ((refl, refl), ((refl, refl), tt))

ini_get-ini_set_example :
    ini_get (ini_set conf (codes "commands") updates) (codes "commands") (codes "reboot") ≡ (
      if codes "commands" == codes "commands"
      then or_old
          (value_for updates (codes "reboot"))
          (ini_get conf (codes "commands") (codes "reboot"))
      else ini_get conf (codes "commands") (codes "reboot"))
ini_get-ini_set_example =
    ini_get-ini_set conf (codes "commands") updates refl updates-IsPlain (codes "commands")
      (codes "reboot")

emitters_kept :
    ini_get (ini_set conf (codes "commands") updates) (codes "emitters") (codes "emit_via")
    ≡ some (codes "stdio")
unfolding ini_get ini_set lines split_by ended_lines strip_cr join read_trimmed starts_with
    strip_prefix ends_with split_once trim trim_start trim_end text_beq set_of ini_append_missing
emitters_kept = refl
