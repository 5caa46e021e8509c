-- ===== src/AsyncRequest/Invariant.antt =====
-- The three tables of the tracker agree, and each request is answered once.
use rustsmb.Base.{
  ℕ, ◌+◌, ◌^◌, ◌<◌, ◌≡◌, ◌≢◌, refl, ap, ◌∙◌, none, some, List, inl, inr, nat_key, nat_eq_iff,
  add_u64, Bool-cases, Option-cases, leb, length, arith,
}
use rustsmb.Base.Map.{
  get, insert, IsMap, get-insert, get-remove, IsMap-insert, IsMap-remove, insert_cases,
  remove_cases,
}
use rustsmb.AsyncRequest.{
  AsyncRequest, AsyncOperationType, AsyncRequestTracker, register_with_timeout, complete,
}

-- Each pending request stands under its own ID, which is already handed out and whose channel is
-- open, and its message leads to it; a message that leads anywhere leads to a pending request of it.
pub record IsTracker (t : AsyncRequestTracker) : Type 0 where
  pub is_map : IsMap t.pending
  pub keyed :
      (id : ℕ) (r : AsyncRequest)
      → get id t.pending ≡ some r
      → (r.async_id ≡ id) × (id < t.next_async_id)
  pub open_channel :
      (id : ℕ) (r : AsyncRequest) → get id t.pending ≡ some r → get id t.notifiers ≡ some tt
  pub found :
      (id : ℕ) (r : AsyncRequest)
      → get id t.pending ≡ some r
      → get r.message_id t.message_to_async ≡ some id
  pub leads :
      (message id : ℕ)
      → get message t.message_to_async ≡ some id
      → (r : AsyncRequest) × (get id t.pending ≡ some r) × (r.message_id ≡ message)

-- The tracker that has registered a request under the next ID.
abbrev added : AsyncRequestTracker → ℕ → AsyncRequest → AsyncRequestTracker
added t message r = record t {
  pending = insert t.next_async_id r t.pending;
  message_to_async = insert message t.next_async_id t.message_to_async;
  next_async_id = add_u64 t.next_async_id 1;
  notifiers = insert t.next_async_id tt t.notifiers;
}

module _ (t : AsyncRequestTracker) (v : IsTracker t) where
  -- The ID of a pending request is not the next one.
  older : (k : ℕ) (s : AsyncRequest) → get k t.pending ≡ some s → t.next_async_id ≢ k
  older k s e = ground (arith, v.keyed k s e)

  added-IsTracker :
      (message : ℕ) (r : AsyncRequest)
      → r.message_id ≡ message
      → r.async_id ≡ t.next_async_id
      → get message t.message_to_async ≡ none
      → t.next_async_id + 1 < 2 ^ 64
      → IsTracker (added t message r)
  added-IsTracker message r same own free h =
      let id = t.next_async_id in
      record {
        is_map = IsMap-insert id r t.pending v.is_map;
        keyed = λ k s e. elim (insert_cases id k r s t.pending e) [
          | inl (p, q) ↦ ground (arith, ap (λ (x : AsyncRequest). x.async_id) q)
          | inr (n, e) ↦ ground (arith, v.keyed k s e)
        ];
        open_channel = λ k s e. elim (insert_cases id k r s t.pending e) [
          | inl (p, q) ↦ ground (arith, get-insert id k tt t.notifiers, nat_eq_iff id k)
          | inr (n, e) ↦
              ground (arith, get-insert id k tt t.notifiers, nat_eq_iff id k, v.open_channel k s e)
        ];
        found = λ k s e. elim (insert_cases id k r s t.pending e) [
          | inl (p, q) ↦
              let to = ap (λ (x : AsyncRequest). x.message_id) q in
              ground (
                arith,
                get-insert message s.message_id id t.message_to_async,
                nat_eq_iff message s.message_id,
              )
          | inr (n, e) ↦ ground (
            arith,
            get-insert message s.message_id id t.message_to_async,
            nat_eq_iff message s.message_id,
            v.found k s e,
          )
        ];
        leads = λ m k e. elim (insert_cases message m id k t.message_to_async e) [
          | inl (p, q) ↦ (r, ground (arith, get-insert id k r t.pending, nat_eq_iff id k), same ∙ p)
          | inr (n, e) ↦
              let (s, at, to) = v.leads m k e in
              (s, ground (arith, get-insert id k r t.pending, nat_eq_iff id k, older k s at), to)
        ];
      }

  -- Registering keeps the tables in agreement, whether it is refused or not, where the message is
  -- not that of a pending request and IDs are left.
  pub register-IsTracker :
      (now message session tree : ℕ) (op : AsyncOperationType) (command timeout : ℕ)
      → get message t.message_to_async ≡ none
      → t.next_async_id + 1 < 2 ^ 64
      → IsTracker (register_with_timeout now t message session tree op command timeout).0
  unfolding register_with_timeout
  register-IsTracker now message session tree op command timeout free h =
      elim (Bool-cases (leb t.config.max_pending (length t.pending))) [
        | inl full ↦ rw (full, register_with_timeout) v
        | inr room ↦ rw (room, register_with_timeout) (added-IsTracker message _ refl refl free h)
      ]

  -- Two pending requests of one message are one request.
  same_id :
      (k j : ℕ) (r s : AsyncRequest)
      → get k t.pending ≡ some r
      → get j t.pending ≡ some s
      → r.message_id ≡ s.message_id
      → k ≡ j
  same_id k j r s e f p =
      ground (arith, v.found k r e, v.found j s f, ap (λ m. get m t.message_to_async) p)

  pub complete-IsTracker :
      (id status : ℕ) (payload : List ℕ) → IsTracker (complete t id status payload).0
  unfolding complete
  complete-IsTracker id status payload = elim (Option-cases (get id t.pending)) [
    | inl absent ↦ rw (absent, complete) v
    | inr (r, present) ↦
        rw (present, complete)
          (record {
            is_map = IsMap-remove id t.pending v.is_map;
            keyed = λ k s e. v.keyed k s (remove_cases id k s t.pending e).1;
            open_channel = λ k s e.
                let (n, at) = remove_cases id k s t.pending e in
                ground (arith, get-remove id k t.notifiers, nat_eq_iff id k, v.open_channel k s at);
            found = λ k s e.
                let (n, at) = remove_cases id k s t.pending e in
                ground (
                  arith,
                  get-remove r.message_id s.message_id t.message_to_async,
                  nat_eq_iff r.message_id s.message_id,
                  same_id id k r s present at,
                  v.found k s at,
                );
            leads = λ m k e.
                let (n, lead) = remove_cases r.message_id m k t.message_to_async e in
                let (s, at, to) = v.leads m k lead in
                let apart : id ≢ k =
                  λ p. n (ground (arith, ap (λ i. get i t.pending) p, to, present, at)) in
                (s, ground (arith, get-remove id k t.pending, nat_eq_iff id k), to);
          })
  ]
