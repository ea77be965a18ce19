-- ===== src/Tests/Threads.antt =====
-- The comments of an item with one request.
use sebenza.Service.Threads.Rows.{row_in}
use sebenza.Base.{◌≡◌, nat_eq, text_eq, filter_map}
use sebenza.Events.{Thread, apply_redactions}
use sebenza.Events.Fold.{fold_requests}
use sebenza.World.{ok}
use sebenza.Service.Reads.{log_of}
use sebenza.Service.Threads.{CommentGroups, list_comments}
use sebenza.Service.Threads.Complete.{rows_of, list_comments-threads}
use sebenza.Tests.Service.{item, test_env, opened_world, opened_world-Readable}

list_comments-threads_example :
    (groups : CommentGroups) × (list_comments test_env item opened_world
      ≡ (ok groups, opened_world))
    × ((thread : Thread)
        → rows_of thread groups
          ≡ filter_map
              (row_in
                (fold_requests test_env.sha1_hex (apply_redactions (log_of item opened_world)))
                (apply_redactions (log_of item opened_world))
                thread)
              (apply_redactions (log_of item opened_world)))
list_comments-threads_example =
    list_comments-threads test_env item opened_world opened_world-Readable
