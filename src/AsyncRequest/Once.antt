-- ===== src/AsyncRequest/Once.antt =====
-- A request that was answered with STATUS_PENDING gets one final answer.
use rustsmb.Base.{ℕ, ◌≡◌, refl, sym, ap, none, some, List, [], ◌∷◌, nat_key, nat_eq_iff, arith}
use rustsmb.Base.Map.{Map, get, modify, get-remove}
use rustsmb.AsyncRequest.{
  AsyncRequest, AsyncCompletion, AsyncRequestTracker, complete, cancel, cancel_by_message_id,
  get_by_message_id, mark_cancelled, status_cancelled,
}
use rustsmb.AsyncRequest.Invariant.{IsTracker}

modify_absent : {V : Type 0} (k : ℕ) (f : V → V) (m : Map ℕ V) → get k m ≡ none → modify k f m ≡ m
unfolding get modify
modify_absent k f [] e = refl
modify_absent k f ((j, v) ∷ m) e = ground (arith, modify_absent k f m)

complete_absent :
    (t : AsyncRequestTracker) (id status : ℕ) (payload : List ℕ)
    → get id t.pending ≡ none
    → complete t id status payload ≡ (t, none)
unfolding complete
complete_absent t id status payload e = rw (e, complete) refl

cancel_absent :
    (t : AsyncRequestTracker) (id : ℕ) → get id t.pending ≡ none → cancel t id ≡ (t, none)
unfolding cancel
cancel_absent t id e =
    rw (modify_absent id mark_cancelled t.pending e) (complete_absent t id status_cancelled [] e)

-- The answer to the request `r`.
abbrev pub answer : AsyncRequest → ℕ → List ℕ → AsyncCompletion
answer r status payload = record { request = r; status = status; payload = payload }

-- Completing a pending request sends one answer, with the status and the data given, to the channel
-- that the request was registered with, and after it the request is not found by its message, and
-- neither completing nor cancelling it, by its ID or by its message, does anything.
pub complete_once :
    (t : AsyncRequestTracker) (id status : ℕ) (payload : List ℕ) (r : AsyncRequest)
    → IsTracker t
    → get id t.pending ≡ some r
    → ((complete t id status payload).0.delivered ≡ answer r status payload ∷ t.delivered)
      × ((complete t id status payload).1 ≡ some r)
      × (get_by_message_id (complete t id status payload).0 r.message_id ≡ none)
      × (complete (complete t id status payload).0 id status payload
          ≡ ((complete t id status payload).0, none))
      × (cancel (complete t id status payload).0 id ≡ ((complete t id status payload).0, none))
      × (cancel_by_message_id (complete t id status payload).0 r.message_id
          ≡ ((complete t id status payload).0, none))
unfolding complete get_by_message_id cancel_by_message_id
complete_once t id status payload r v e =
    let channel = v.open_channel id r e in
    let own = (v.keyed id r e).0 in
    let u = (complete t id status payload).0 in
    let gone : get id u.pending ≡ none =
      rw (e, complete) (ground (arith, get-remove id id t.pending, nat_eq_iff id id)) in
    let unled : get r.message_id u.message_to_async ≡ none =
      rw (e, complete)
        (ground (
          arith,
          get-remove r.message_id r.message_id t.message_to_async,
          nat_eq_iff r.message_id r.message_id,
        )) in
    (
      rw (e, complete, channel)
          (ap (λ i. answer (record r { async_id = i }) status payload ∷ t.delivered) (sym own)),
      rw (e, complete) refl,
      rw (unled, get_by_message_id) refl,
      complete_absent u id status payload gone,
      cancel_absent u id gone,
      rw (unled, cancel_by_message_id) refl,
    )
