-- ===== src/Agent/Cron/Printed.antt =====
-- How a crontab is printed, job by job, and how the words of a job's line are read.
use tenodera.Prelude.{
  ◌≡◌, refl, ap, ◌∙◌, ℕ, Bool, true, false, not, ◌&&◌, some, List, [], ◌∷◌, ◌++◌, Text, nat_eq,
  text_eq, ==_iff, All, is_empty, codes, arith, if◌then◌else◌,
}
use tenodera.Std.Str.{trim, trim_start, trim_end, strip_prefix}
use tenodera.Std.Lines.{words, join, starts_with}
use tenodera.Std.Lines.Laws.{is_line, is_word, words-append, words_single}
use tenodera.Agent.Cron.{
  CronEntry, Kind, system, of_user, is_assignment, special_entry, timed_entry, entry_of,
}

pub data Schedule : Type 0 where
  -- `@daily` and the like
  special : Text → Schedule
  timed : Text → Text → Text → Text → Text → Schedule

pub record Job : Type 0 where
  pub comment : Text
  pub schedule : Schedule
  pub user : Text
  pub program : Text
  pub args : List Text

abbrev pub schedule_words : Schedule → List Text
schedule_words (special s) = s ∷ []
schedule_words (timed m h dom month dow) = m ∷ h ∷ dom ∷ month ∷ dow ∷ []

-- A schedule starts with `@` if it is a special one, and with neither that nor `#` if not.
abbrev pub is_schedule : Schedule → Bool
is_schedule (special s) = starts_with (codes "@") s
is_schedule (timed m h dom month dow) =
    not (starts_with (codes "@") m) && not (starts_with (codes "#") m)

-- What stands behind the schedule.
abbrev pub job_tail : Kind → Job → List Text
job_tail system job = job.user ∷ job.program ∷ job.args
job_tail (of_user username) job = job.program ∷ job.args

abbrev pub job_words : Kind → Job → List Text
job_words kind job = schedule_words job.schedule ++ job_tail kind job

abbrev pub user_of : Kind → Job → Text
user_of system job = job.user
user_of (of_user username) job = username

unfoldable pub job_entry : Kind → Job → CronEntry
job_entry kind job = record {
  schedule = join (codes " ") (schedule_words job.schedule);
  user = user_of kind job;
  command = join (codes " ") (job.program ∷ job.args);
  comment = job.comment;
}

-- The line of a job, behind that of its comment.
unfoldable pub job_line : Kind → Job → Text
job_line kind job = join (codes " ") (job_words kind job)

abbrev pub comment_line : Text → Text
comment_line comment = b'#' ∷ b' ' ∷ comment

unfoldable pub job_lines : Kind → Job → List Text
unfolding job_line
job_lines kind job =
    if is_empty job.comment
    then job_line kind job ∷ []
    else comment_line job.comment ∷ job_line kind job ∷ []

pub record IsJob (kind : Kind) (job : Job) : Type 0 where
  pub scheduled : is_schedule job.schedule ≡ true
  pub all_words : All (λ w. is_word w ≡ true) (job_words kind job)
  -- the comment has no white space around it
  pub comment_start : trim_start job.comment ≡ job.comment
  pub comment_end : trim_end job.comment ≡ job.comment
  -- the line is none of a variable, and has no white space around it
  pub no_variable : is_assignment (job_line kind job) ≡ false
  pub trimmed : trim (job_line kind job) ≡ job_line kind job
  pub one_line : is_line (job_line kind job) ≡ true
  pub one_comment_line : is_line (comment_line job.comment) ≡ true

words-join :
    (w : Text) (ws : List Text)
    → All (λ s. is_word s ≡ true) (w ∷ ws)
    → words (join (codes " ") (w ∷ ws)) ≡ w ∷ ws
unfolding join
words-join w [] (h, hs) = words_single w h
words-join w (v ∷ ws) (h, hs) =
    words-append w (join (codes " ") (v ∷ ws)) h ∙ ap (λ r. w ∷ r) (words-join v ws hs)

pub entry_of-job :
    (kind : Kind) (comment user program : Text) (args : List Text) (s : Schedule)
    → is_schedule s ≡ true
    → entry_of kind comment (
        job_words kind
          (record { comment = comment; schedule = s; user = user; program = program; args = args }))
      ≡ some (
          job_entry kind (record {
            comment = comment;
            schedule = s;
            user = user;
            program = program;
            args = args;
          }))
unfolding entry_of special_entry timed_entry job_entry join
entry_of-job system comment user program args (special s) h = rw h refl
entry_of-job (of_user u) comment user program args (special s) h = rw h refl
entry_of-job system comment user program args (timed m h dom month dow) k =
    let off : starts_with (codes "@") m ≡ false = ground arith in rw off refl
entry_of-job (of_user u) comment user program args (timed m h dom month dow) k =
    let off : starts_with (codes "@") m ≡ false = ground arith in rw off refl

pub words-join_full :
    (ws : List Text)
    → is_empty ws ≡ false
    → All (λ s. is_word s ≡ true) ws
    → words (join (codes " ") ws) ≡ ws
words-join_full [] f h = cc
words-join_full (w ∷ ws) f h = words-join w ws h

pub is_empty-schedule_words :
    (s : Schedule) (rest : List Text) → is_empty (schedule_words s ++ rest) ≡ false
is_empty-schedule_words (special s) rest = refl
is_empty-schedule_words (timed m h dom month dow) rest = refl

-- The two marks of a line's start exclude each other.
at_not_hash : (s : Text) → starts_with (codes "@") s ≡ true → starts_with (codes "#") s ≡ false
unfolding starts_with strip_prefix
at_not_hash [] h = cc
at_not_hash (c ∷ s) h = ground (arith, ==_iff b'@' c)

starts_with-join :
    (c : ℕ) (w : Text) (ws : List Text)
    → is_word w ≡ true
    → (starts_with (c ∷ []) (join (codes " ") (w ∷ ws)) ≡ starts_with (c ∷ []) w)
      × (is_empty (join (codes " ") (w ∷ ws)) ≡ false)
unfolding join starts_with strip_prefix
starts_with-join c [] ws h = cc
starts_with-join c (d ∷ s) [] h = (refl, refl)
starts_with-join c (d ∷ s) (v ∷ ws) h = (ground arith, refl)

-- The line of a job is no comment and not empty.
pub schedule_words-plain :
    (s : Schedule) (rest : List Text)
    → is_schedule s ≡ true
    → All (λ w. is_word w ≡ true) (schedule_words s ++ rest)
    → (starts_with (codes "#") (join (codes " ") (schedule_words s ++ rest)) ≡ false)
      × (is_empty (join (codes " ") (schedule_words s ++ rest)) ≡ false)
schedule_words-plain (special s) rest k (h, hs) =
    let (first, full) = starts_with-join b'#' s rest h in (first ∙ at_not_hash s k, full)
schedule_words-plain (timed m hour dom month dow) rest k (h, hs) =
    let (first, full) = starts_with-join b'#' m (hour ∷ dom ∷ month ∷ dow ∷ rest) h in
    (first ∙ ground arith, full)
