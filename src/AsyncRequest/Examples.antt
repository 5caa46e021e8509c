-- ===== src/AsyncRequest/Examples.antt =====
-- Tests of the pending requests of crates/rustsmb-session/src/async_request.rs.
use rustsmb.Base.{◌≡◌, refl, true, false, none, some, [], ◌∷◌, nat_key, arith}
use rustsmb.Base.Map.{get, insert, remove}
use rustsmb.AsyncRequest.{
  AsyncRequest, AsyncRequestConfig, AsyncRequestTracker, lock_wait, with_config,
  register_with_timeout, complete, cancel, cancel_by_message_id, get_by_message_id,
}
use rustsmb.AsyncRequest.Invariant.{IsTracker}
use rustsmb.AsyncRequest.Once.{answer, complete_once}
use rustsmb.AsyncRequest.Runs.{TrackerRun, begin, registering, TrackerRun-IsTracker}

abbrev config : AsyncRequestConfig
config = record { max_pending = 2; default_timeout = 100; send_interim_response = true }

-- The tracker after message 40 of session 1, tree 3, waits for a lock.
abbrev waiting : AsyncRequestTracker
waiting = (register_with_timeout 0 (with_config config) 40 1 3 lock_wait 10 100).0

waiting_run : TrackerRun config waiting
unfolding with_config get
waiting_run = registering 0 40 1 3 lock_wait 10 100 begin refl (omega arith)

abbrev request : AsyncRequest
request = record {
  async_id = 1;
  message_id = 40;
  session_id = 1;
  tree_id = 3;
  file_id = none;
  operation = lock_wait;
  created = 0;
  timeout = 100;
  command = 10;
  cancelled = false;
}

TrackerRun-IsTracker_example : IsTracker waiting
TrackerRun-IsTracker_example = TrackerRun-IsTracker config waiting waiting_run

complete_once_example :
    ((complete waiting 1 0 []).0.delivered ≡ answer request 0 [] ∷ waiting.delivered)
    × ((complete waiting 1 0 []).1 ≡ some request)
    × (get_by_message_id (complete waiting 1 0 []).0 40 ≡ none)
    × (complete (complete waiting 1 0 []).0 1 0 [] ≡ ((complete waiting 1 0 []).0, none))
    × (cancel (complete waiting 1 0 []).0 1 ≡ ((complete waiting 1 0 []).0, none))
    × (cancel_by_message_id (complete waiting 1 0 []).0 40 ≡ ((complete waiting 1 0 []).0, none))
unfolding register_with_timeout with_config insert remove get
complete_once_example = complete_once waiting 1 0 [] request TrackerRun-IsTracker_example refl
