-- ===== src/Agent/Files/Access/Requests.antt =====
-- What a request to the file handlers starts.
use tenodera.Prelude.{nat_eq, text_eq}
use tenodera.Std.FilePath.{FilePath}
