-- ===== src/Agent/Cron/Entries.antt =====
-- A crontab that is printed job by job is read back.
use tenodera.Prelude.{List, [], ◌∷◌, ◌++◌, Text, nat_eq, text_eq}
use tenodera.Agent.Cron.{Kind}
use tenodera.Agent.Cron.Printed.{Job, job_lines}

-- The lines of a crontab.
unfoldable pub jobs_lines : Kind → List Job → List Text
unfolding job_lines
jobs_lines kind [] = []
jobs_lines kind (job ∷ jobs) = job_lines kind job ++ jobs_lines kind jobs
