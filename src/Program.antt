-- ===== src/Program.antt =====
-- What a run of one of the programs leaves behind, and the files that it can open.
pub mod Laws
use tcglog_parser.Common.{ℕ, Option, none, some, [], ◌++◌, ◌⊎◌}
use tcglog_parser.Go.Reader.{Bytes}

-- How a run ends: main returns or calls os.Exit, or the program panics.
pub data Status : Type 0 where
  exited : ℕ → Status
  panicked : Status

pub record Program : Type 0 where
  pub stdout : Bytes
  pub stderr : Bytes
  pub status : Status

-- A run to its end; `none` means that the rounds of a loop ran out.
abbrev pub Run : Type 0
Run = Option Program

abbrev pub returns : Run
returns = some (record { stdout = []; stderr = []; status = exited 0 })

abbrev pub crashes : Run
crashes = some (record { stdout = []; stderr = []; status = panicked })

-- A message on the standard error, and exit status 1.
abbrev pub fails : Bytes → Run
fails message = some (record { stdout = []; stderr = message; status = exited 1 })

-- A run that prints a text first.
abbrev pub prints : Bytes → Run → Run
prints text run = elim run [ some p ↦ some (record p { stdout = text ++ p.stdout }) | none ↦ none ]

-- os.Open: an error's text, or the bytes of the file.
abbrev pub Files : Type 0
Files = Bytes → Bytes ⊎ Bytes
