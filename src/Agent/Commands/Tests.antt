-- ===== src/Agent/Commands/Tests.antt =====
-- What sudo reports, who is let through, and the theorem about a script at an awkward path.
use tenodera.Prelude.{
  ◌≡◌, refl, true, false, not, some, [], ◌∷◌, ◌++◌, nat_eq, text_eq, text_beq, ◌==◌, codes,
}
use tenodera.Std.Str.{trim, trim_start, trim_end, strip_prefix}
use tenodera.Std.Lines.{lines, split_by, join, contains_text, starts_with}
use tenodera.Agent.Util.Shell.{bare}
use tenodera.Agent.Commands.{
  Host, exited, error, clean_sudo_stderr, sudo_as_user, not_present, pipeline,
}
use tenodera.Agent.Commands.Quoting.{stages, stages-pipeline}

abbrev host : Host
host = record {
  run = λ log call. exited true [] [] false;
  knows = λ user. not (user == codes "eve");
  timeout_error = [];
  is_alphanumeric = λ c. false;
  encode = λ s. codes "aGk=";
}

prompt_noise :
    clean_sudo_stderr
      (codes "[sudo] password for bob: " ++ b'\n' ∷ (codes "Sorry, try again." ++ b'\n' ∷ []))
    ≡ codes "Sorry, try again."
unfolding clean_sudo_stderr lines split_by join contains_text trim trim_start trim_end starts_with
    strip_prefix text_beq
prompt_noise = refl

-- A user without an account starts nothing.
stranger :
    sudo_as_user host (codes "eve") (codes "guess") (codes "id" ∷ []) []
    ≡ (error (not_present (codes "eve")), [])
unfolding sudo_as_user text_beq
stranger = refl

stages-pipeline_example :
    stages bare false
      (pipeline host (codes "tee" ∷ codes "/etc/cron.d/it's; rm -rf /" ∷ []) (codes "hi"))
    ≡ some (
        (codes "printf" ∷ codes "aGk=" ∷ [])
        ∷ (codes "base64" ∷ codes "-d" ∷ [])
        ∷ (codes "tee" ∷ codes "/etc/cron.d/it's; rm -rf /" ∷ [])
        ∷ [])
stages-pipeline_example =
    stages-pipeline host (codes "tee") (codes "/etc/cron.d/it's; rm -rf /" ∷ []) (codes "hi") refl
