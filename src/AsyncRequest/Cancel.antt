-- ===== src/AsyncRequest/Cancel.antt =====
-- What cancelling and cleaning up leave pending: they take out just the requests that they are about.
use rustsmb.Base.{
  ℕ, ◌≡◌, refl, Bool, not, ◌&&◌, Option, none, List, [], ◌∷◌, nat_key, ◌==◌, nat_eq_iff,
  if◌then◌else◌, arith,
}
use rustsmb.Base.Map.{
  get, modify, keep, retain, IsMap, memb, get-remove, get-modify, get-retain, memb-keys,
}
use rustsmb.AsyncRequest.{
  AsyncRequest, AsyncRequestTracker, complete, cancel, collect, ids_where, cancel_session,
  cancel_tree, cancel_file, cleanup_expired, is_timed_out, has_file, status_io_timeout,
  status_cancelled, mark_cancelled,
}

-- Completing takes out the request, whether or not it was pending.
pub get-complete :
    (t : AsyncRequestTracker) (id status : ℕ) (payload : List ℕ) (j : ℕ)
    → get j (complete t id status payload).0.pending ≡ (if id == j then none else get j t.pending)
unfolding complete
get-complete t id status payload j = ground (arith, get-remove id j t.pending, nat_eq_iff id j)

get-cancel :
    (t : AsyncRequestTracker) (id j : ℕ)
    → get j (cancel t id).0.pending ≡ (if id == j then none else get j t.pending)
unfolding cancel
get-cancel t id j =
    let marked : AsyncRequestTracker = record t { pending = modify id mark_cancelled t.pending } in
    ground (
      arith,
      get-complete marked id status_cancelled [] j,
      get-modify id j mark_cancelled t.pending,
      nat_eq_iff id j,
    )

-- An operation that takes out its request and leaves the others.
abbrev TakesOut : (AsyncRequestTracker → ℕ → AsyncRequestTracker × Option AsyncRequest) → Type 0
TakesOut op =
    (t : AsyncRequestTracker) (id j : ℕ)
    → get j (op t id).0.pending ≡ (if id == j then none else get j t.pending)

get-collect :
    (op : AsyncRequestTracker → ℕ → AsyncRequestTracker × Option AsyncRequest)
    → TakesOut op
    → (t : AsyncRequestTracker) (ids : List ℕ) (j : ℕ)
    → get j (collect op t ids).0.pending ≡ (if memb j ids then none else get j t.pending)
unfolding collect
get-collect op takes t [] j = refl
get-collect op takes t (id ∷ ids) j =
    ground (arith, get-collect op takes (op t id).0 ids j, takes t id j)

get-collect_where :
    (op : AsyncRequestTracker → ℕ → AsyncRequestTracker × Option AsyncRequest)
    → TakesOut op
    → (p : AsyncRequest → Bool) (t : AsyncRequestTracker) (j : ℕ) → IsMap t.pending
    → get j (collect op t (ids_where p t)).0.pending ≡ keep (λ r. not (p r)) (get j t.pending)
get-collect_where op takes p t j h = ground (
  arith,
  get-collect op takes t (ids_where p t) j,
  memb-keys j (retain p t.pending),
  get-retain p j t.pending h,
)

-- Each bulk operation takes out exactly the requests that it is about, wherever they stand: those of
-- the session, of the tree of the session, of the file, and those whose time is up; a request under
-- any other ID stays as it was.
pub bulk_cancel :
    (t : AsyncRequestTracker) (now session_id tree_id : ℕ) (file_id : ℕ × ℕ) (j : ℕ)
    → IsMap t.pending
    → (get j (cancel_session t session_id).0.pending
        ≡ keep (λ r. not (r.session_id == session_id)) (get j t.pending))
      × (get j (cancel_tree t session_id tree_id).0.pending
          ≡ keep (λ r. not (r.session_id == session_id && r.tree_id == tree_id)) (get j t.pending))
      × (get j (cancel_file t file_id).0.pending
          ≡ keep (λ r. not (has_file file_id r.file_id)) (get j t.pending))
      × (get j (cleanup_expired now t).0.pending
          ≡ keep (λ r. not (is_timed_out now r)) (get j t.pending))
unfolding cancel_session cancel_tree cancel_file cleanup_expired
bulk_cancel t now session_id tree_id file_id j h =
    let by = get-collect_where cancel get-cancel in
    (
      by (λ r. r.session_id == session_id) t j h,
      by (λ r. r.session_id == session_id && r.tree_id == tree_id) t j h,
      by (λ r. has_file file_id r.file_id) t j h,
      get-collect_where (λ u id. complete u id status_io_timeout [])
          (λ u id j. get-complete u id status_io_timeout [] j) (is_timed_out now) t j h,
    )
