-- ===== src/AsyncRequest/Runs.antt =====
-- The tracker of a connection, over any run of its operations.
use rustsmb.Base.{
  ℕ, ◌+◌, ◌^◌, ◌<◌, ◌≡◌, refl, sym, ap, subst, ◌∙◌, ◌&&◌, Option, none, some, List, [], ◌∷◌, inl,
  inr, ◌⊎◌, nat_key, Bool-cases, Option-cases, ◌==◌, arith,
}
use rustsmb.Base.Map.{Map, get, modify, IsMap-modify, get-modify}
use rustsmb.AsyncRequest.{
  AsyncRequest, AsyncRequestConfig, AsyncOperationType, AsyncRequestTracker, with_config, register,
  register_with_file, set_file, register_with_timeout, complete, cancel, collect, cancel_session,
  cancel_tree, cancel_file, cleanup_expired, ids_where, has_file, is_timed_out, mark_cancelled,
  status_cancelled, status_io_timeout,
}
use rustsmb.AsyncRequest.Invariant.{IsTracker, register-IsTracker, complete-IsTracker}

-- A change of one pending request that keeps its ID and its message.
module _ (f : AsyncRequest → AsyncRequest) (own : (r : AsyncRequest) → (f r).async_id ≡ r.async_id)
    (to : (r : AsyncRequest) → (f r).message_id ≡ r.message_id) where
  changed_from :
      (id k : ℕ) (m : Map ℕ AsyncRequest) (s : AsyncRequest)
      → get k (modify id f m) ≡ some s
      → (r : AsyncRequest) × (get k m ≡ some r)
        × (s.async_id ≡ r.async_id)
        × (s.message_id ≡ r.message_id)
  changed_from id k m s e = elim (Option-cases (get k m)) [
    | inl absent ↦ absurd (ground (arith, get-modify id k f m))
    | inr (r, present) ↦
        let at = get-modify id k f m in
        let same : ((s ≡ r) ⊎ (s ≡ f r)) = elim (Bool-cases (id == k)) [
          | inl hit ↦ inr (ground arith)
          | inr miss ↦ inl (ground arith)
        ] in
        elim same [
          | inl p ↦ (
            r,
            present,
            ap (λ (x : AsyncRequest). x.async_id) p,
            ap (λ (x : AsyncRequest). x.message_id) p,
          )
          | inr p ↦ (
            r,
            present,
            ap (λ (x : AsyncRequest). x.async_id) p ∙ own r,
            ap (λ (x : AsyncRequest). x.message_id) p ∙ to r,
          )
        ]
  ]

  changed_to :
      (id k : ℕ) (m : Map ℕ AsyncRequest) (r : AsyncRequest)
      → get k m ≡ some r
      → (s : AsyncRequest) × (get k (modify id f m) ≡ some s) × (s.message_id ≡ r.message_id)
  changed_to id k m r e = elim (Bool-cases (id == k)) [
    | inl hit ↦ (f r, ground (arith, get-modify id k f m), to r)
    | inr miss ↦ (r, ground (arith, get-modify id k f m), refl)
  ]

  changed-IsTracker :
      (t : AsyncRequestTracker) (id : ℕ)
      → IsTracker t
      → IsTracker (record t { pending = modify id f t.pending })
  changed-IsTracker t id v = record {
    is_map = IsMap-modify id f t.pending v.is_map;
    keyed = λ k s e.
        let (r, at, own, to) = changed_from id k t.pending s e in ground (arith, v.keyed k r at);
    open_channel =
        λ k s e. let (r, at, own, to) = changed_from id k t.pending s e in v.open_channel k r at;
    found = λ k s e.
        let (r, at, own, to) = changed_from id k t.pending s e in
        subst (λ m. get m t.message_to_async ≡ some k) (sym to) (v.found k r at);
    leads = λ m k e.
        let (r, at, to) = v.leads m k e in
        let (s, there, same) = changed_to id k t.pending r at in (s, there, same ∙ to);
  }

cancel-IsTracker : (t : AsyncRequestTracker) (id : ℕ) → IsTracker t → IsTracker (cancel t id).0
unfolding cancel mark_cancelled
cancel-IsTracker t id v =
    complete-IsTracker _ (changed-IsTracker mark_cancelled (λ r. refl) (λ r. refl) t id v) id
      status_cancelled []

filed-IsTracker :
    (file : ℕ × ℕ) (u : AsyncRequestTracker) (result : Option ℕ)
    → IsTracker u
    → IsTracker
        (elim result as (λ _. AsyncRequestTracker × Option ℕ) [
          | none ↦ (u, none)
          | some id ↦ (record u { pending = modify id (set_file file) u.pending }, some id)
        ]).0
filed-IsTracker file u none v = v
filed-IsTracker file u (some id) v =
    changed-IsTracker (set_file file) (λ r. refl) (λ r. refl) u id v

register_with_file-IsTracker :
    (t : AsyncRequestTracker)
    → IsTracker t
    → (now message session tree : ℕ) (file : ℕ × ℕ) (op : AsyncOperationType) (command : ℕ)
    → get message t.message_to_async ≡ none
    → t.next_async_id + 1 < 2 ^ 64
    → IsTracker (register_with_file now t message session tree file op command).0
unfolding register register_with_file
register_with_file-IsTracker t v now message session tree file op command free h =
    let (u, result) = register now t message session tree op command in
    filed-IsTracker file u result
      (register-IsTracker t v now message session tree op command t.config.default_timeout free h)

collect-IsTracker :
    (op : AsyncRequestTracker → ℕ → AsyncRequestTracker × Option AsyncRequest)
    → ((t : AsyncRequestTracker) (id : ℕ) → IsTracker t → IsTracker (op t id).0)
    → (t : AsyncRequestTracker) (ids : List ℕ) → IsTracker t
    → IsTracker (collect op t ids).0
unfolding collect
collect-IsTracker op keeps t [] v = v
collect-IsTracker op keeps t (id ∷ ids) v =
    collect-IsTracker op keeps (op t id).0 ids (keeps t id v)

module _ (t : AsyncRequestTracker) (v : IsTracker t) where
  cancel_session-IsTracker : (session : ℕ) → IsTracker (cancel_session t session).0
  unfolding cancel_session
  cancel_session-IsTracker session =
      collect-IsTracker cancel cancel-IsTracker t (ids_where (λ r. r.session_id == session) t) v

  cancel_tree-IsTracker : (session tree : ℕ) → IsTracker (cancel_tree t session tree).0
  unfolding cancel_tree
  cancel_tree-IsTracker session tree =
      collect-IsTracker cancel cancel-IsTracker t
        (ids_where (λ r. r.session_id == session && r.tree_id == tree) t) v

  cancel_file-IsTracker : (file : ℕ × ℕ) → IsTracker (cancel_file t file).0
  unfolding cancel_file
  cancel_file-IsTracker file =
      collect-IsTracker cancel cancel-IsTracker t (ids_where (λ r. has_file file r.file_id) t) v

  cleanup_expired-IsTracker : (now : ℕ) → IsTracker (cleanup_expired now t).0
  unfolding cleanup_expired
  cleanup_expired-IsTracker now =
      collect-IsTracker (λ u id. complete u id status_io_timeout [])
        (λ u id w. complete-IsTracker u w id status_io_timeout []) t
        (ids_where (is_timed_out now) t) v

-- The operations of a connection's tracker: a message is not registered while it is pending, and
-- IDs are left.
pub data TrackerRun (config : AsyncRequestConfig) : AsyncRequestTracker → Type 0 where
  begin : TrackerRun config (with_config config)
  registering :
      {t : AsyncRequestTracker} (now message session tree : ℕ) (op : AsyncOperationType)
      (command timeout : ℕ)
      → TrackerRun config t
      → get message t.message_to_async ≡ none
      → t.next_async_id + 1 < 2 ^ 64
      → TrackerRun config (register_with_timeout now t message session tree op command timeout).0
  registering_file :
      {t : AsyncRequestTracker} (now message session tree : ℕ) (file : ℕ × ℕ)
      (op : AsyncOperationType) (command : ℕ)
      → TrackerRun config t
      → get message t.message_to_async ≡ none
      → t.next_async_id + 1 < 2 ^ 64
      → TrackerRun config (register_with_file now t message session tree file op command).0
  completing :
      {t : AsyncRequestTracker} (id status : ℕ) (payload : List ℕ)
      → TrackerRun config t
      → TrackerRun config (complete t id status payload).0
  cancelling :
      {t : AsyncRequestTracker} (id : ℕ) → TrackerRun config t → TrackerRun config (cancel t id).0
  cancelling_session :
      {t : AsyncRequestTracker} (session : ℕ)
      → TrackerRun config t
      → TrackerRun config (cancel_session t session).0
  cancelling_tree :
      {t : AsyncRequestTracker} (session tree : ℕ)
      → TrackerRun config t
      → TrackerRun config (cancel_tree t session tree).0
  cancelling_file :
      {t : AsyncRequestTracker} (file : ℕ × ℕ)
      → TrackerRun config t
      → TrackerRun config (cancel_file t file).0
  cleaning :
      {t : AsyncRequestTracker} (now : ℕ)
      → TrackerRun config t
      → TrackerRun config (cleanup_expired now t).0

-- Over any run in which no message is registered while a request of it is pending, which the tracker
-- does not check, and in which IDs are left, the three tables of the tracker agree: each pending request stands under its own ID,
-- its channel is open and its message leads to it, and a message leads to a pending request only.
pub TrackerRun-IsTracker :
    (config : AsyncRequestConfig) (t : AsyncRequestTracker) → TrackerRun config t → IsTracker t
unfolding with_config get
TrackerRun-IsTracker config t begin = record {
  is_map = tt;
  keyed = λ id r e. absurd (cc e);
  open_channel = λ id r e. absurd (cc e);
  found = λ id r e. absurd (cc e);
  leads = λ m id e. absurd (cc e);
}
TrackerRun-IsTracker config t
      (registering now message session tree op command timeout run free fits) =
    register-IsTracker _ (TrackerRun-IsTracker config _ run) now message session tree op command
      timeout free fits
TrackerRun-IsTracker config t
      (registering_file now message session tree file op command run free fits) =
    register_with_file-IsTracker _ (TrackerRun-IsTracker config _ run) now message session tree file
      op command free fits
TrackerRun-IsTracker config t (completing id status payload run) =
    complete-IsTracker _ (TrackerRun-IsTracker config _ run) id status payload
TrackerRun-IsTracker config t (cancelling id run) =
    cancel-IsTracker _ id (TrackerRun-IsTracker config _ run)
TrackerRun-IsTracker config t (cancelling_session session run) =
    cancel_session-IsTracker _ (TrackerRun-IsTracker config _ run) session
TrackerRun-IsTracker config t (cancelling_tree session tree run) =
    cancel_tree-IsTracker _ (TrackerRun-IsTracker config _ run) session tree
TrackerRun-IsTracker config t (cancelling_file file run) =
    cancel_file-IsTracker _ (TrackerRun-IsTracker config _ run) file
TrackerRun-IsTracker config t (cleaning now run) =
    cleanup_expired-IsTracker _ (TrackerRun-IsTracker config _ run) now
