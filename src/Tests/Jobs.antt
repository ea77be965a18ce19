-- ===== src/Tests/Jobs.antt =====
-- A job with one outcome, and a draft that is written and read back.
use sebenza.Base.{
  ℕ, Text, codes, ◌≡◌, refl, some, nat_eq, text_eq, strip_prefix, trim_end_matches, is_whitespace,
  rev, drop_while,
}
use sebenza.World.{ok}
use sebenza.Draft.{parsed}
use sebenza.Draft.File.{Yaml, parse_inbox_file, render_inbox_file, emitted}
use sebenza.Draft.Round.{has_no_fence, parse_inbox_file-render_inbox_file}
use sebenza.Jobs.{ConversionJobManager, new_manager, start_job, finish}
use sebenza.Jobs.Bounded.{new, next, started, finished, IsBounded, Reached-IsBounded}
use sebenza.Tests.Service.{test_draft}

abbrev ulid : ℕ → Text
ulid _ = codes "j"

abbrev one_started : ConversionJobManager
one_started = (start_job ulid (codes "d") 1 new_manager).1

abbrev one_finished : ConversionJobManager
one_finished = finish (codes "j") one_started

Reached-IsBounded_example : IsBounded one_finished
Reached-IsBounded_example =
    Reached-IsBounded ulid one_finished
      (next (next new (started (codes "d") 1 new_manager)) (finished (codes "j") one_started))

-- A library that knows one frontmatter.
abbrev yaml : Yaml Text
yaml = record {
  from_str = λ _. ok test_draft.frontmatter;
  to_string = λ _. some (codes "title: t");
}

parse_inbox_file-render_inbox_file_example :
    parse_inbox_file yaml test_draft.id (render_inbox_file yaml test_draft) ≡ parsed test_draft
parse_inbox_file-render_inbox_file_example =
    parse_inbox_file-render_inbox_file yaml test_draft refl (
      unfold emitted has_no_fence strip_prefix trim_end_matches rev drop_while is_whitespace in
      refl)
